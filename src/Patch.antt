-- ===== src/Patch.antt =====
-- pkg/mutator/patch.go and internal/patches: the JSON patches that the mutating webhooks answer with.
pub mod Escaping
pub mod Applying
pub mod Labelling
pub mod Selecting
mod Tests
use Prim.Native.Char.{Char, char, code}
use Prim.Native.String
use azure_admission_controll.Prelude.{
  String, List, [], ◌∷◌, Bool, true, false, not, ℤ, eqb, keep, starts_with, if◌then◌else◌, leb_text,
}
use azure_admission_controll.Objects.{ClusterNetwork, LoadBalancerSpec, DataDisk}

-- The values that the code puts into a patch; `json` is a value that the JSON diff computed.
pub data Value : Type 0 where
  text : String → Value
  number : ℤ → Value
  -- the text that "%d" gives
  decimal : ℤ → Value
  network : ClusterNetwork → Value
  load_balancer : LoadBalancerSpec → Value
  disks : List DataDisk → Value
  json : String → Value

pub record PatchOperation : Type 0 where
  pub operation : String
  pub path : String
  pub value : Value

abbrev pub patch_replace : String → Value → PatchOperation
patch_replace path value = record { operation = "replace"; path = path; value = value }

abbrev pub patch_add : String → Value → PatchOperation
patch_add path value = record { operation = "add"; path = path; value = value }

abbrev pub tilde : Char
tilde = char 126 tt

-- `strings.ReplaceAll` of one character by "~" and another one.
unfoldable pub replace_tilde : String → String
replace_tilde String.[] = String.[]
replace_tilde (String.◌∷◌ c s) =
    let rest = replace_tilde s in
    if eqb (code c) b'~' then String.◌∷◌ tilde (String.◌∷◌ (char 48 tt) rest) else String.◌∷◌ c rest

unfoldable pub replace_slash : String → String
replace_slash String.[] = String.[]
replace_slash (String.◌∷◌ c s) =
    let rest = replace_slash s in
    if eqb (code c) b'/' then String.◌∷◌ tilde (String.◌∷◌ (char 49 tt) rest) else String.◌∷◌ c rest

unfoldable pub escape_json_patch_string : String → String
unfolding replace_tilde replace_slash
escape_json_patch_string input = replace_slash (replace_tilde input)

unfoldable pub skip_for_path : String → List PatchOperation → List PatchOperation
skip_for_path path patches = keep (λ patch. not (starts_with patch.path path)) patches

-- `sort.SliceStable` by path: a patch goes before the first one whose path is not below its own.
abbrev pub insert_patch : PatchOperation → List PatchOperation → List PatchOperation
insert_patch a [] = a ∷ []
insert_patch a (b ∷ bs) =
    let rest = insert_patch a bs in if leb_text a.path b.path then a ∷ b ∷ bs else b ∷ rest

unfoldable pub sort_patches : List PatchOperation → List PatchOperation
sort_patches [] = []
sort_patches (a ∷ bs) = insert_patch a (sort_patches bs)
