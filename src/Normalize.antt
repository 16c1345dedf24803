-- ===== src/Normalize.antt =====
-- internal/normalize/normalize.go, over code points. `rune_to_lower` and `rune_is_digit` are Go's
-- Unicode tables, which the platform gives.
pub mod Shape
mod Tests
use azure_admission_controll.Prelude.{
  ℕ, List, [], ◌∷◌, ◌++◌, Bool, false, ◌&&◌, ◌||◌, eqb, leb, map, if◌then◌else◌, take,
}
use mathlib.Core.List.{reverse}
use azure_admission_controll.Platform.{Platform}

abbrev pub max_dns_label_length : ℕ
max_dns_label_length = 63

abbrev pub dash : ℕ
dash = b'-'

abbrev pub is_dash_at_head : List ℕ → Bool
is_dash_at_head [] = false
is_dash_at_head (x ∷ xs) = eqb x dash

-- One round of the first loop. The slice `xs` is held with its last rune at the head.
abbrev append_dash : List ℕ → List ℕ
append_dash [] = []
append_dash (x ∷ xs) = if eqb x dash then x ∷ xs else dash ∷ x ∷ xs

module _ (p : Platform) where
  abbrev pub is_allowed : ℕ → Bool
  is_allowed x = eqb x dash || p.vendor.rune_is_digit x || (leb b'a' x && leb x b'z')

  unfoldable pub append_rune : List ℕ → ℕ → List ℕ
  append_rune xs x = if is_allowed x then x ∷ xs else append_dash xs

  unfoldable pub collect : List ℕ → List ℕ → List ℕ
  collect xs [] = xs
  collect xs (x ∷ v) = collect (append_rune xs x) v

-- The dashes at the head of a text, taken off.
unfoldable pub strip : List ℕ → List ℕ
strip [] = []
strip (x ∷ xs) = let rest = strip xs in if eqb x dash then rest else x ∷ xs

-- The second loop: it looks at the end only when the start has no dash.
unfoldable pub strip_both : List ℕ → List ℕ
strip_both xs = reverse (strip (reverse (strip xs)))

module _ (p : Platform) where
  -- The text before it is cut to the length of a label.
  unfoldable pub full_name : List ℕ → List ℕ
  full_name v = strip_both (reverse (collect p [] (map p.vendor.rune_to_lower v)))

  unfoldable pub as_dns_label_name : List ℕ → List ℕ
  as_dns_label_name v = take max_dns_label_length (full_name v)
