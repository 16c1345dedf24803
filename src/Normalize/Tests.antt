-- ===== src/Normalize/Tests.antt =====
-- Names normalised, and the theorems at them.
use azure_admission_controll.Prelude.{
  Memᴰ, ℕ, ◌≤◌, List, [], ◌∷◌, ◌++◌, codes, length, replicate, true, false, ◌≡◌, refl,
}
use mathlib.Core.List.{reverse}
use azure_admission_controll.Platform.{Platform}
use azure_admission_controll.Normalize.{
  is_dash_at_head, append_rune, collect, strip, strip_both, full_name, as_dns_label_name,
}
use azure_admission_controll.Normalize.Shape.{
  IsLabelRune, as_dns_label_name-shape, as_dns_label_name-dash_end,
}
use azure_admission_controll.Example.{platform, empty}

abbrev here : Platform
here = platform empty

runs : Unit {0}
unfolding as_dns_label_name full_name strip_both strip collect append_rune
runs = tt

names :
    (as_dns_label_name here (codes "Giant Swarm  GmbH") ≡ codes "giant-swarm-gmbh")
    × (as_dns_label_name here (codes "--_My.Org_--") ≡ codes "my-org")
    × (as_dns_label_name here (codes "!?") ≡ [])
unfolding runs
names = (refl, refl, refl)

-- 62 letters, a dash and one more letter.
abbrev long : List ℕ
long = replicate 62 b'a' ++ b'-' ∷ b'b' ∷ []

as_dns_label_name-shape_example :
    (length (as_dns_label_name here long) ≤ 63)
    × ((x : ℕ) → Memᴰ x (as_dns_label_name here long) → IsLabelRune here x)
    × (is_dash_at_head (as_dns_label_name here long) ≡ false)
as_dns_label_name-shape_example = as_dns_label_name-shape here long

as_dns_label_name-dash_end_example : is_dash_at_head (reverse (as_dns_label_name here long)) ≡ true
unfolding runs
as_dns_label_name-dash_end_example =
    as_dns_label_name-dash_end here long (replicate 62 b'a') (b'b' ∷ []) refl refl
