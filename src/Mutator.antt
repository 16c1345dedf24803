-- ===== src/Mutator.antt =====
-- pkg/mutator: the labels that the mutating webhooks set, and how a webhook's patches are put together.
use Prim.Native.String
use azure_admission_controll.Prelude.{
  String, List, [], ◌∷◌, ◌++◌, Option, none, some, not, ◌==◌, get_or_empty, if◌then◌else◌,
}
use azure_admission_controll.Error.{
  mutator_cluster_label_not_found, not_found, release_label_not_found,
  azure_operator_version_label_not_found, component_not_found_in_release,
}
use azure_admission_controll.Result.{Result, ok, err, ◌>>=◌, ◌>>◌, reject_if}
use azure_admission_controll.Objects.{ObjectMeta, Object}
use azure_admission_controll.Platform.{Platform, found, missing, failed}
use azure_admission_controll.Key.{to_spark_ptr}
use azure_admission_controll.Patch.{
  PatchOperation, text, patch_add, escape_json_patch_string, sort_patches,
}
use azure_admission_controll.Release.{get_component_versions_from_release}

abbrev pub label_path : String → String
label_path label = String.◌++◌ "/metadata/labels/" (escape_json_patch_string label)

-- A patch, or none for nil.
abbrev pub MaybePatch : Type 0
MaybePatch = Result (Option PatchOperation)

-- The steps of a handler in order: `if err != nil { return … }; if patch != nil { append }`.
abbrev pub collect : List MaybePatch → Result (List PatchOperation)
collect [] = ok []
collect (step ∷ steps) = do
  patch ← step
  rest ← collect steps
  ok (elim patch [ none ↦ rest | some a ↦ a ∷ rest ])

module _ (p : Platform) where
  unfoldable pub get_label_value_from_azure_cluster : ObjectMeta → String → Result String
  unfolding get_or_empty
  get_label_value_from_azure_cluster meta label = do
    let cluster_id = get_or_empty p.names.cluster_label meta.labels
    reject_if (cluster_id == "") mutator_cluster_label_not_found
    elim (p.client.get_azure_cluster meta.namespace cluster_id) [
      | missing ↦ err not_found
      | failed e ↦ err e
      | found c ↦ ok (get_or_empty label c.meta.labels)
    ]

  unfoldable pub get_release_label_value_from_azure_cluster : ObjectMeta → Result String
  unfolding get_label_value_from_azure_cluster
  get_release_label_value_from_azure_cluster meta =
      get_label_value_from_azure_cluster meta p.names.release_version

  unfoldable pub ensure_release_version_label : ObjectMeta → MaybePatch
  unfolding get_or_empty
  ensure_release_version_label meta =
      if not (get_or_empty p.names.release_version meta.labels == "") then ok none else do
        release ← get_release_label_value_from_azure_cluster meta
        reject_if (release == "") release_label_not_found
        ok (some (patch_add (label_path p.names.release_version) (text release)))

  unfoldable pub copy_azure_operator_version_label_from_azure_cluster_cr : ObjectMeta → MaybePatch
  unfolding get_or_empty
  copy_azure_operator_version_label_from_azure_cluster_cr meta =
      if not (get_or_empty p.names.azure_operator_version meta.labels == "") then ok none else do
        version ← get_label_value_from_azure_cluster meta p.names.azure_operator_version
        reject_if (version == "") azure_operator_version_label_not_found
        ok (some (patch_add (label_path p.names.azure_operator_version) (text version)))

  unfoldable pub ensure_component_version_label_from_release :
      ObjectMeta → (component label : String) → MaybePatch
  unfolding get_or_empty
  ensure_component_version_label_from_release meta component label = do
    let release = get_or_empty p.names.release_version meta.labels
    reject_if (release == "") release_label_not_found
    versions ← get_component_versions_from_release p release
    reject_if (get_or_empty component versions == "") component_not_found_in_release
    if get_or_empty label meta.labels == get_or_empty component versions
        then ok none
        else ok (some (patch_add (label_path label) (text (get_or_empty component versions))))

  -- `Default()` on a copy, and `GenerateFromObjectDiff` of the two.
  unfoldable pub generate_from_object_diff : Object → Result (List PatchOperation)
  generate_from_object_diff object = do
    patches ← p.vendor.default_patches object
    ok (sort_patches patches)

  -- A handler's own patches, and after them those of the defaults.
  abbrev pub with_defaults :
      List MaybePatch
      → Object
      → (List PatchOperation → List PatchOperation)
      → Result (List PatchOperation)
  with_defaults steps object skip = do
    own ← collect steps
    capi ← generate_from_object_diff object
    ok (own ++ skip capi)

  -- pkg/spark
  unfoldable pub on_create_mutate : Object → Result (List PatchOperation)
  unfolding to_spark_ptr
  on_create_mutate object = do
    s ← to_spark_ptr object
    collect (ensure_release_version_label s.meta ∷ [])
