-- ===== src/Machinepool/Autoscaling.antt =====
-- The bounds of the autoscaler that hold once the patches of `ensureAutoscalingAnnotations` are
-- applied.
use azure_admission_controll.Prelude.{
  String, List, [], ◌∷◌, Option, none, some, ◌==◌, ℤ, get_or_empty, if◌then◌else◌,
}
use azure_admission_controll.Objects.{MachinePool}
use azure_admission_controll.Platform.{Platform}
use azure_admission_controll.Decimal.{parse_int32}
use azure_admission_controll.Patch.{Value, PatchOperation, decimal}
use azure_admission_controll.Machinepool.Mutation.{annotation_path}

-- The number that a patch puts at a path.
abbrev number_at : Value → Option ℤ
number_at (decimal n) = some n
number_at _ = none

-- The bound at a path once the patches are applied to an annotation with a value.
abbrev pub bound_after : String → String → List PatchOperation → Option ℤ
bound_after path value [] = parse_int32 value
bound_after path value (a ∷ as_) =
    let rest = bound_after path value as_ in if a.path == path then number_at a.value else rest

module _ (p : Platform) (mp : MachinePool) where
  abbrev pub min_path : String
  min_path = annotation_path p.names.node_pool_min_size

  abbrev pub max_path : String
  max_path = annotation_path p.names.node_pool_max_size

  abbrev pub min_value : String
  min_value = get_or_empty p.names.node_pool_min_size mp.meta.annotations

  abbrev pub max_value : String
  max_value = get_or_empty p.names.node_pool_max_size mp.meta.annotations
