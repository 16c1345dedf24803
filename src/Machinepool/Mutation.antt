-- ===== src/Machinepool/Mutation.antt =====
-- The handlers of the mutating webhook of MachinePools (mutate_create.go, mutate_update.go,
-- autoscaling.go, defaults.go).
use Prim.Native.String
use azure_admission_controll.Prelude.{
  String, List, [], ◌∷◌, ◌++◌, Option, none, some, ◌==◌, ℤ, pos, ltb_ℤ, get_or_empty, if◌then◌else◌,
}
use azure_admission_controll.Result.{Result, ok, ◌>>=◌}
use azure_admission_controll.Objects.{MachinePool, Object, machine_pool}
use azure_admission_controll.Platform.{Platform}
use azure_admission_controll.Key.{to_machine_pool_ptr}
use azure_admission_controll.Decimal.{parse_int32}
use azure_admission_controll.Patch.{
  PatchOperation, decimal, patch_add, patch_replace, escape_json_patch_string,
}
use azure_admission_controll.Mutator.{
  collect, generate_from_object_diff, ensure_release_version_label,
  copy_azure_operator_version_label_from_azure_cluster_cr,
}

abbrev pub default_replicas : ℤ
default_replicas = pos 1

abbrev pub replicas_of : Option ℤ → ℤ
replicas_of none = default_replicas
replicas_of (some r) = r

abbrev pub annotation_path : String → String
annotation_path key = String.◌++◌ "/metadata/annotations/" (escape_json_patch_string key)

-- The lower bound: the patch for it, if any, and the bound that holds afterwards.
abbrev pub kept_or_replaced : String → ℤ → Option ℤ → List PatchOperation × ℤ
kept_or_replaced key replicas none =
    (patch_replace (annotation_path key) (decimal replicas) ∷ [], replicas)
kept_or_replaced key replicas (some min) =
    if ltb_ℤ min (pos 0)
    then (patch_replace (annotation_path key) (decimal replicas) ∷ [], replicas)
    else ([], min)

unfoldable pub min_step : (key value : String) → ℤ → List PatchOperation × ℤ
min_step key value replicas =
    if value == ""
    then (patch_add (annotation_path key) (decimal replicas) ∷ [], replicas)
    else kept_or_replaced key replicas (parse_int32 value)

abbrev pub raised : String → ℤ → Option ℤ → List PatchOperation
raised key min none = patch_replace (annotation_path key) (decimal min) ∷ []
raised key min (some max) =
    if ltb_ℤ max min then patch_replace (annotation_path key) (decimal min) ∷ [] else []

-- The upper bound, not below the lower one.
unfoldable pub max_step : (key value : String) → ℤ → List PatchOperation
max_step key value min =
    if value == ""
    then patch_add (annotation_path key) (decimal min) ∷ []
    else raised key min (parse_int32 value)

module _ (p : Platform) where
  unfoldable pub ensure_autoscaling_annotations : MachinePool → List PatchOperation
  ensure_autoscaling_annotations mp =
      let (lower, min) =
        min_step p.names.node_pool_min_size
          (get_or_empty p.names.node_pool_min_size mp.meta.annotations) (replicas_of mp.replicas) in
      lower
      ++ max_step p.names.node_pool_max_size
          (get_or_empty p.names.node_pool_max_size mp.meta.annotations) min

  unfoldable pub on_create_mutate : Object → Result (List PatchOperation)
  unfolding to_machine_pool_ptr
  on_create_mutate object = do
    mp ← to_machine_pool_ptr object
    labels ← collect (
        ensure_release_version_label p mp.meta
        ∷ copy_azure_operator_version_label_from_azure_cluster_cr p mp.meta
        ∷ [])
    capi ← generate_from_object_diff p (machine_pool mp)
    ok (labels ++ ensure_autoscaling_annotations mp ++ capi)

  unfoldable pub on_update_mutate : Object → Result (List PatchOperation)
  unfolding to_machine_pool_ptr
  on_update_mutate object = do
    mp ← to_machine_pool_ptr object
    capi ← generate_from_object_diff p (machine_pool mp)
    ok (ensure_autoscaling_annotations mp ++ capi)
