-- ===== src/Machinepool/Tests.antt =====
-- MachinePools that the webhook admits and refuses.
use mathlib.Core.List.{Perm}
use azure_admission_controll.Deleting.{DeletedOr}
use azure_admission_controll.Prelude.{
  some, Map, pos, get, get_or_empty, String, List, [], ◌∷◌, none, ◌≡◌, refl, ◌↔◌,
}
use azure_admission_controll.Error.{failure_domain_was_changed, unsupported_failure_domain}
use azure_admission_controll.Result.{err, accept}
use azure_admission_controll.Objects.{MachinePool, machine_pool}
use azure_admission_controll.Generic.{validate_organization_label_unchanged}
use azure_admission_controll.Machinepool.{
  check_zones, same_elements, check_availability_zones_unchanged, on_create_validate,
  on_update_validate,
}
use azure_admission_controll.Machinepool.Zones.{
  IsCreatable, on_create_validate-machine_pool, on_update_validate-machine_pool,
}
use azure_admission_controll.Machinepool.Mutation.{
  min_step, max_step, ensure_autoscaling_annotations, annotation_path,
}
use azure_admission_controll.Patch.{decimal, patch_add, patch_replace}
use azure_admission_controll.Decimal.{parse_int32}
use azure_admission_controll.Generic.Tests.{here, owned}
use azure_admission_controll.Example.{azure, cold, cold-IsFaithful}

abbrev pool : List String → MachinePool
pool zones = record {
  meta = owned;
  replicas = none;
  failure_domains = zones;
  infrastructure_ref = record { namespace = "org-giantswarm"; name = "np" };
}

zone_cases :
    (check_availability_zones_unchanged (pool ("1" ∷ "2" ∷ [])) (pool ("2" ∷ "1" ∷ [])) ≡ accept)
    × (check_availability_zones_unchanged (pool ("1" ∷ "2" ∷ [])) (pool ("2" ∷ "2" ∷ []))
        ≡ err failure_domain_was_changed)
    × (check_availability_zones_unchanged (pool ("1" ∷ [])) (pool [])
        ≡ err failure_domain_was_changed)
    × (check_zones ("1" ∷ "3" ∷ []) ("1" ∷ "2" ∷ []) ≡ err unsupported_failure_domain)
unfolding check_availability_zones_unchanged same_elements check_zones
zone_cases = (refl, refl, refl, refl)

on_create_validate-machine_pool_example :
    ((on_create_validate here azure (machine_pool (pool ("1" ∷ []))) cold).0 ≡ accept)
    ↔ IsCreatable here azure (pool ("1" ∷ []))
on_create_validate-machine_pool_example =
    on_create_validate-machine_pool here azure (pool ("1" ∷ [])) cold cold-IsFaithful

on_update_validate-machine_pool_example :
    (on_update_validate here (machine_pool (pool ("1" ∷ []))) (machine_pool (pool [])) ≡ accept)
    ↔ DeletedOr (pool []).meta (
        (here.vendor.validate_update_machine_pool (pool []) (pool ("1" ∷ [])) ≡ accept)
        × (validate_organization_label_unchanged here owned owned ≡ accept)
        × Perm {A = String} ("1" ∷ []) [])
on_update_validate-machine_pool_example =
    on_update_validate-machine_pool here (pool ("1" ∷ [])) (pool [])

abbrev autoscaled : Map String → MachinePool
autoscaled annotations = record (pool []) {
  meta = record owned { annotations = annotations };
  replicas = some (pos 3);
}

abbrev min_key : String
min_key = "cluster.k8s.io/cluster-api-autoscaler-node-group-min-size"

abbrev max_key : String
max_key = "cluster.k8s.io/cluster-api-autoscaler-node-group-max-size"

scaling_cases :
    (ensure_autoscaling_annotations here (autoscaled [])
      ≡ patch_add (annotation_path min_key) (decimal (pos 3))
        ∷ patch_add (annotation_path max_key) (decimal (pos 3))
        ∷ [])
    × (ensure_autoscaling_annotations here (autoscaled ((min_key, "5") ∷ (max_key, "4") ∷ []))
        ≡ patch_replace (annotation_path max_key) (decimal (pos 5)) ∷ [])
    × (ensure_autoscaling_annotations here (autoscaled ((min_key, "-1") ∷ (max_key, "4") ∷ []))
        ≡ patch_replace (annotation_path min_key) (decimal (pos 3)) ∷ [])
unfolding ensure_autoscaling_annotations min_step max_step parse_int32 get get_or_empty
scaling_cases = (refl, refl, refl)
