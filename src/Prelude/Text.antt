-- ===== src/Prelude/Text.antt =====
-- Texts as code points, and the functions of Go's `strings` that the program calls.
use Prim.Native.Nat.{ℕ, ◌+◌}
use Prim.Native.Char.{code}
use Prim.Native.String.{String}
use mathlib.Core.Path.{◌≡◌}
use mathlib.Core.Logic.{◌↔◌}
use mathlib.Core.Bool.{Bool, true, false, ◌&&◌}
use mathlib.Core.Option.{none, some}
use mathlib.Core.List.{List, [], ◌∷◌, map}
use native.Mathlib.Omega.{arith}
use text.Mathlib.Text.{find?, ◌==◌}
use text.Mathlib.TextEquality.{eq_iff}
use azure_admission_controll.Prelude.Tests.{leb, eqb, if◌then◌else◌}

abbrev pub codes : String → List ℕ
codes String.[] = []
codes (String.◌∷◌ c s) = code c ∷ codes s

-- `unicode.ToLower` on ASCII.
abbrev pub ascii_lower : ℕ → ℕ
ascii_lower c = if leb b'A' c && leb c b'Z' then c + 32 else c

abbrev pub eqb_codes : List ℕ → List ℕ → Bool
eqb_codes [] [] = true
eqb_codes (a ∷ xs) (b ∷ ys) = eqb a b && eqb_codes xs ys
eqb_codes _ _ = false

pub eqb_codes_iff : (xs ys : List ℕ) → (eqb_codes xs ys ≡ true) ↔ (xs ≡ ys)
eqb_codes_iff [] [] = ground arith
eqb_codes_iff [] (b ∷ ys) = ground arith
eqb_codes_iff (a ∷ xs) [] = ground arith
eqb_codes_iff (a ∷ xs) (b ∷ ys) = ground (arith, eqb_codes_iff xs ys)

-- `strings.ToLower(s) == t` and `strings.EqualFold(s, t)` for a text `t` of ASCII letters among
-- which are no `k` and no `s`: no other character has such a letter for its lower case.
abbrev pub equal_lower : String → String → Bool
equal_lower s t = eqb_codes (map ascii_lower (codes s)) (map ascii_lower (codes t))

-- `DeepEqual` of slices of strings.
abbrev pub eqb_texts : List String → List String → Bool
eqb_texts [] [] = true
eqb_texts (a ∷ l) (b ∷ m) = a == b && eqb_texts l m
eqb_texts _ _ = false

pub eqb_texts_iff : (l m : List String) → (eqb_texts l m ≡ true) ↔ (l ≡ m)
eqb_texts_iff [] [] = ground arith
eqb_texts_iff [] (b ∷ m) = ground arith
eqb_texts_iff (a ∷ l) [] = ground arith
eqb_texts_iff (a ∷ l) (b ∷ m) = ground (arith, eq_iff a b, eqb_texts_iff l m)

-- `strings.Contains`
abbrev pub contains : String → String → Bool
contains s t = elim (find? s t) [ none ↦ false | some _ ↦ true ]
