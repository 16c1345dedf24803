-- ===== src/Patch/Tests.antt =====
-- Patches escaped, sorted and skipped.
use azure_admission_controll.Prelude.{String, [], ◌∷◌, ◌≡◌, refl, codes}
use azure_admission_controll.Patch.{
  PatchOperation, text, patch_add, replace_tilde, replace_slash, escape_json_patch_string,
  skip_for_path, sort_patches,
}
use azure_admission_controll.Patch.Escaping.{unescape, unescape-escape_json_patch_string}

abbrev at : String → PatchOperation
at path = patch_add path (text "x")

escape_cases :
    (escape_json_patch_string "release.giantswarm.io/version" ≡ "release.giantswarm.io~1version")
    × (escape_json_patch_string "~1" ≡ "~01")
unfolding escape_json_patch_string replace_tilde replace_slash
escape_cases = (refl, refl)

patch_cases :
    (sort_patches (at "/spec" ∷ at "/metadata" ∷ []) ≡ at "/metadata" ∷ at "/spec" ∷ [])
    × (skip_for_path "/spec/a" (at "/spec/ab" ∷ at "/spec" ∷ []) ≡ at "/spec" ∷ [])
unfolding sort_patches skip_for_path
patch_cases = (refl, refl)

unescape-escape_json_patch_string_example :
    unescape (codes (escape_json_patch_string "a/b~1")) ≡ codes "a/b~1"
unescape-escape_json_patch_string_example = unescape-escape_json_patch_string "a/b~1"
