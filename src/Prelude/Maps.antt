-- ===== src/Prelude/Maps.antt =====
-- Go's `map[string]string` as an association list: a read of a missing key gives the zero value.
use Prim.Native.String.{String}
use mathlib.Core.Path.{◌≡◌, refl}
use mathlib.Core.Option.{Option, none, some}
use mathlib.Core.Bool.{false}
use mathlib.Core.List.{List, [], ◌∷◌}
use native.Mathlib.Omega.{arith}
use text.Mathlib.Text.{◌==◌}
use text.Mathlib.TextEquality.{eq_iff}
use azure_admission_controll.Prelude.Tests.{if◌then◌else◌}

abbrev pub Map {ℓ} : Type ℓ → Type ℓ
Map V = List (String × V)

module _ {ℓ} {V : Type ℓ} where
  -- `v, ok := m[k]`
  unfoldable pub get : String → Map V → Option V
  get k [] = none
  get k ((j, v) ∷ m) = if j == k then some v else get k m

  -- `m[k] = v`
  unfoldable pub put : String → V → Map V → Map V
  put k v [] = (k, v) ∷ []
  put k v ((j, w) ∷ m) = if j == k then (k, v) ∷ m else (j, w) ∷ put k v m

  pub get-put :
      (k j : String) (v : V) (m : Map V) → get j (put k v m) ≡ (if k == j then some v else get j m)
  unfolding get put
  get-put k j v [] = refl
  get-put k j v ((i, w) ∷ m) = ground (arith, eq_iff k j, eq_iff i k, eq_iff i j, get-put k j v m)

-- `m[k]` where the zero value is the empty text.
unfoldable pub get_or_empty : String → Map String → String
unfolding get
get_or_empty k m = elim (get k m) [ none ↦ "" | some v ↦ v ]

pub get-eq_of_get_or_empty :
    (k : String) (m : Map String) {v : String}
    → get_or_empty k m ≡ v
    → (v == "") ≡ false
    → get k m ≡ some v
unfolding get_or_empty
get-eq_of_get_or_empty k m {v} h ne = ground (arith, eq_iff v "")
