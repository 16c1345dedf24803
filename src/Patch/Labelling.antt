-- ===== src/Patch/Labelling.antt =====
-- The patches of the mutating webhooks for labels.
use azure_admission_controll.Prelude.{
  String, Option, none, some, ◌==◌, ◌≡◌, get_or_empty, Bool-cases, inl, inr,
}
use azure_admission_controll.Error.{azure_operator_version_label_not_found, release_label_not_found}
use azure_admission_controll.Result.{ok, reject_if, >>=-eq-ok}
use azure_admission_controll.Objects.{ObjectMeta}
use azure_admission_controll.Platform.{Platform}
use azure_admission_controll.Patch.{PatchOperation, text, patch_add}
use azure_admission_controll.Mutator.{
  label_path, get_label_value_from_azure_cluster, get_release_label_value_from_azure_cluster,
  ensure_release_version_label, copy_azure_operator_version_label_from_azure_cluster_cr,
}

pub data SetsLabel (label : String) : Option PatchOperation → Type 0 where
  unset : SetsLabel label none
  set : (value : String) → SetsLabel label (some (patch_add (label_path label) (text value)))

SetsLabel-set :
    (label value : String) {m : Option PatchOperation}
    → ok (some (patch_add (label_path label) (text value))) ≡ ok m
    → SetsLabel label m
SetsLabel-set label value {m} h =
    let same : m ≡ some (patch_add (label_path label) (text value)) = cc in rw same (set value)

SetsLabel-unset : (label : String) {m : Option PatchOperation} → ok none ≡ ok m → SetsLabel label m
SetsLabel-unset label {m} h = let same : m ≡ none = cc in rw same unset

module _ (p : Platform) (meta : ObjectMeta) where
  pub copy_label-SetsLabel :
      {m : Option PatchOperation}
      → copy_azure_operator_version_label_from_azure_cluster_cr p meta ≡ ok m
      → SetsLabel p.names.azure_operator_version m
  unfolding copy_azure_operator_version_label_from_azure_cluster_cr
  copy_label-SetsLabel {m} h =
      elim (Bool-cases (get_or_empty p.names.azure_operator_version meta.labels == "")) [
        | inr given ↦ SetsLabel-unset p.names.azure_operator_version (rw given at h)
        | inl blank ↦
            let (version, known, h₁) =
              >>=-eq-ok (get_label_value_from_azure_cluster p meta p.names.azure_operator_version) _
                (rw blank at h) in
            let (_, _, h₂) =
              >>=-eq-ok (reject_if (version == "") azure_operator_version_label_not_found) _ h₁ in
            SetsLabel-set p.names.azure_operator_version version h₂
      ]

  pub release_label-SetsLabel :
      {m : Option PatchOperation}
      → ensure_release_version_label p meta ≡ ok m
      → SetsLabel p.names.release_version m
  unfolding ensure_release_version_label
  release_label-SetsLabel {m} h =
      elim (Bool-cases (get_or_empty p.names.release_version meta.labels == "")) [
        | inr given ↦ SetsLabel-unset p.names.release_version (rw given at h)
        | inl blank ↦
            let (release, known, h₁) =
              >>=-eq-ok (get_release_label_value_from_azure_cluster p meta) _ (rw blank at h) in
            let (_, _, h₂) = >>=-eq-ok (reject_if (release == "") release_label_not_found) _ h₁ in
            SetsLabel-set p.names.release_version release h₂
      ]
