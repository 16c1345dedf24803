-- ===== src/Machinepool.antt =====
-- pkg/machinepool: the checks of a MachinePool and the handlers of its validating webhook.
pub mod Handler
pub mod Zones
pub mod Mutation
pub mod Autoscaling
mod Tests
use azure_admission_controll.Prelude.{
  ℕ, String, List, [], ◌∷◌, Option, Bool, true, false, not, ◌==◌, ◌||◌, eqb, length, any,
  if◌then◌else◌, sort, texts,
}
use azure_admission_controll.Error.{
  Error, azure_machine_pool_not_found, unsupported_failure_domain, failure_domain_was_changed,
}
use azure_admission_controll.Result.{Result, Check, ok, err, panic, accept, reject_if}
use azure_admission_controll.Result
use azure_admission_controll.Exec.{Exec, lift, pure, ◌>>=◌, ◌>>◌}
use azure_admission_controll.Objects.{MachinePool, AzureMachinePool, Object, is_zero_time}
use azure_admission_controll.Platform.{Platform, Lookup, found, missing, failed}
use azure_admission_controll.Key.{to_machine_pool_ptr}
use azure_admission_controll.Generic.{
  validate_organization_label_matches_cluster, validate_organization_label_unchanged,
}
use azure_admission_controll.Vmcapabilities.{Cache, Skus, supported_azs}

abbrev pub in_slice : String → List String → Bool
in_slice needle haystack = any (λ supported. needle == supported) haystack

-- The loop of `checkAvailabilityZones`.
unfoldable pub check_zones : List String → List String → Check
check_zones [] supported = accept
check_zones (zone ∷ zones) supported =
    let rest = check_zones zones supported in
    if not (in_slice zone supported) then err unsupported_failure_domain else rest

-- The loop over the indices of the old zones: an index that the new ones lack is out of range.
unfoldable pub same_elements : List String → List String → Check
same_elements [] m = accept
same_elements (a ∷ l) [] = panic
same_elements (a ∷ l) (b ∷ m) =
    let rest = same_elements l m in if not (a == b) then err failure_domain_was_changed else rest

unfoldable pub check_availability_zones_unchanged : MachinePool → MachinePool → Check
unfolding same_elements
check_availability_zones_unchanged old new =
    if not (eqb (length old.failure_domains) (length new.failure_domains))
    then err failure_domain_was_changed
    else same_elements (sort texts old.failure_domains) (sort texts new.failure_domains)

-- Every error of the client is reported as a missing AzureMachinePool.
abbrev found_pool : Lookup AzureMachinePool → Result AzureMachinePool
found_pool (found amp) = ok amp
found_pool missing = err azure_machine_pool_not_found
found_pool (failed _) = err azure_machine_pool_not_found

module _ (p : Platform) where
  abbrev pub referenced_pool : MachinePool → Result AzureMachinePool
  referenced_pool mp =
      found_pool
        (p.client.get_azure_machine_pool mp.infrastructure_ref.namespace mp.infrastructure_ref.name)

  abbrev pub lacks_reference : MachinePool → Bool
  lacks_reference mp = mp.infrastructure_ref.namespace == "" || mp.infrastructure_ref.name == ""

module _ (p : Platform) (azure : String → Result Cache) where
  unfoldable pub check_availability_zones : MachinePool → Exec Skus (Unit {0})
  unfolding check_zones
  check_availability_zones mp = do
    lift (reject_if (lacks_reference p mp) azure_machine_pool_not_found)
    amp ← lift (referenced_pool p mp)
    supported ← supported_azs azure amp.location amp.vm_size
    lift (check_zones mp.failure_domains supported)

  unfoldable pub create_checks : MachinePool → Exec Skus (Unit {0})
  create_checks mp = do
    lift (p.vendor.validate_create_machine_pool mp)
    lift (validate_organization_label_matches_cluster p mp.meta)
    check_availability_zones mp

  unfoldable pub on_create_validate : Object → Exec Skus (Unit {0})
  unfolding to_machine_pool_ptr create_checks
  on_create_validate object = do mp ← lift (to_machine_pool_ptr object); create_checks mp

module _ (p : Platform) where
  abbrev pub update_checks : MachinePool → MachinePool → Check
  update_checks old new = Result.◌>>◌ (p.vendor.validate_update_machine_pool new old) (
      Result.◌>>◌ (validate_organization_label_unchanged p old.meta new.meta)
        (check_availability_zones_unchanged old new))

  unfoldable pub on_update_validate : Object → Object → Check
  unfolding to_machine_pool_ptr
  on_update_validate old_object object = Result.◌>>=◌ (to_machine_pool_ptr object) λ new.
      if not (is_zero_time new.meta.deletion_timestamp)
      then accept
      else Result.◌>>=◌ (to_machine_pool_ptr old_object) λ old. update_checks old new
