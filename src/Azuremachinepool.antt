-- ===== src/Azuremachinepool.antt =====
-- pkg/azuremachinepool: the checks of an AzureMachinePool and the handlers of its validating
-- webhook. `azure` is what the Azure API lists for a location (Vmcapabilities).
pub mod Handler
pub mod Direct
pub mod Requirements
pub mod Create
pub mod Resizing
pub mod Update
pub mod Mutation
pub mod Patching
pub mod Completing
pub mod Defaults
pub mod Bypass
pub mod Tests
use azure_admission_controll.Prelude.{
  String, List, [], ◌∷◌, Option, none, some, Bool, true, false, not, ◌&&◌, ◌||◌, ◌==◌, ℤ, pos,
  eqb_ℤ, ltb_ℤ, if◌then◌else◌,
}
use azure_admission_controll.Error.{
  unexpected_location, location_was_changed, ssh_field_is_set, datadisks_field_is_set,
  accelerated_networking_was_changed, vmsize_does_not_support_accelerated_networking,
  switch_to_vm_size_that_does_not_support_accelerated_networking, insufficient_cpu,
  insufficient_memory, invalid_storage_account_type, premium_storage_not_supported_by_vmsize,
  spot_vm_options_was_changed, storage_account_was_changed,
}
use azure_admission_controll.Result.{Result, Check, accept, reject_if}
use azure_admission_controll.Exec.{Exec, lift, pure, ◌>>=◌, ◌>>◌}
use azure_admission_controll.Objects.{
  DataDisk, SpotVmOptions, AzureMachinePool, Object, is_zero_time,
}
use azure_admission_controll.Platform.{Platform}
use azure_admission_controll.Key.{to_azure_machine_pool_ptr}
use azure_admission_controll.Generic.{
  is_capi_release, validate_organization_label_matches_cluster,
  validate_organization_label_unchanged,
}
use azure_admission_controll.Vmcapabilities.{
  Cache, Skus, capability_accelerated_networking, capability_premium_io, cpus, memory,
  has_capability,
}

abbrev disk : String → ℤ → DataDisk
disk suffix lun = record {
  name_suffix = suffix;
  disk_size_gb = pos 100;
  lun = some lun;
  rest_is_zero = true;
}

abbrev pub desired_data_disks : List DataDisk
desired_data_disks = disk "docker" (pos 21) ∷ disk "kubelet" (pos 22) ∷ []

abbrev eqb_lun : Option ℤ → Option ℤ → Bool
eqb_lun none none = true
eqb_lun (some a) (some b) = eqb_ℤ a b
eqb_lun _ _ = false

-- `DeepEqual` of a disk with one of `desiredDataDisks`, whose unnamed fields are zero.
abbrev eqb_disk : DataDisk → DataDisk → Bool
eqb_disk a b =
    a.name_suffix == b.name_suffix
    && eqb_ℤ a.disk_size_gb b.disk_size_gb
    && eqb_lun a.lun b.lun
    && a.rest_is_zero

abbrev pub eqb_disks : List DataDisk → List DataDisk → Bool
eqb_disks [] [] = true
eqb_disks (a ∷ l) (b ∷ m) = eqb_disk a b && eqb_disks l m
eqb_disks _ _ = false

abbrev pub min_memory : ℤ
min_memory = pos 16

abbrev pub min_cpus : ℤ
min_cpus = pos 4

abbrev is_set : Option Bool → Bool
is_set (some b) = b
is_set none = false

abbrev networking_changed : Option Bool → Option Bool → Bool
networking_changed (some a) (some b) = if a then not b else b
networking_changed (some a) none = true
networking_changed none (some b) = true
networking_changed none none = false

unfoldable pub has_accelerated_networking_property_changed :
    AzureMachinePool → AzureMachinePool → Bool
has_accelerated_networking_property_changed old new =
    networking_changed old.accelerated_networking new.accelerated_networking

unfoldable pub check_data_disks : AzureMachinePool → Check
check_data_disks mp =
    reject_if (not (eqb_disks mp.data_disks desired_data_disks)) datadisks_field_is_set

unfoldable pub check_location : AzureMachinePool → String → Check
check_location mp expected = reject_if (not (mp.location == expected)) unexpected_location

unfoldable pub check_location_unchanged : AzureMachinePool → AzureMachinePool → Check
check_location_unchanged old new =
    reject_if (not (old.location == new.location)) location_was_changed

unfoldable pub check_ssh_key_is_empty : AzureMachinePool → Check
check_ssh_key_is_empty mp = reject_if (not (mp.ssh_public_key == "")) ssh_field_is_set

unfoldable pub check_storage_account_type_unchanged : AzureMachinePool → AzureMachinePool → Check
check_storage_account_type_unchanged old new =
    reject_if (not (old.storage_account_type == new.storage_account_type))
      storage_account_was_changed

module _ (p : Platform) where
  -- The `switch` of `checkSpotVMOptionsUnchanged`, on the options and then on the prices.
  abbrev price_changed : Option String → Option String → Bool
  price_changed none none = false
  price_changed (some a) (some b) = not (p.vendor.quantity_eq a b)
  price_changed _ _ = true

  abbrev spot_changed : Option SpotVmOptions → Option SpotVmOptions → Bool
  spot_changed none none = false
  spot_changed (some a) (some b) = price_changed a.max_price b.max_price
  spot_changed _ _ = true

  unfoldable pub check_spot_vm_options_unchanged : AzureMachinePool → AzureMachinePool → Check
  check_spot_vm_options_unchanged old new =
      reject_if (spot_changed old.spot_vm_options new.spot_vm_options) spot_vm_options_was_changed

module _ (azure : String → Result Cache) where
  unfoldable pub check_accelerated_networking : AzureMachinePool → Exec Skus (Unit {0})
  check_accelerated_networking mp = if not (is_set mp.accelerated_networking) then pure tt else do
    supported ← has_capability azure mp.location mp.vm_size capability_accelerated_networking
    lift (reject_if (not supported) vmsize_does_not_support_accelerated_networking)

  unfoldable pub check_instance_type_is_valid : AzureMachinePool → Exec Skus (Unit {0})
  check_instance_type_is_valid mp = do
    memory_gb ← memory azure mp.location mp.vm_size
    cpu ← cpus azure mp.location mp.vm_size
    lift (reject_if (ltb_ℤ memory_gb min_memory) insufficient_memory)
    lift (reject_if (ltb_ℤ cpu min_cpus) insufficient_cpu)

  unfoldable pub check_accelerated_networking_update_is_valid :
      AzureMachinePool → AzureMachinePool → Exec Skus (Unit {0})
  unfolding has_accelerated_networking_property_changed
  check_accelerated_networking_update_is_valid old new = do
    lift (
        reject_if (has_accelerated_networking_property_changed old new)
          accelerated_networking_was_changed)
    if old.vm_size == new.vm_size then pure tt else check_accelerated_networking new

  unfoldable pub check_instance_type_change_is_valid :
      AzureMachinePool → AzureMachinePool → Exec Skus (Unit {0})
  check_instance_type_change_is_valid old new = if old.vm_size == new.vm_size then pure tt else do
    old_premium ← has_capability azure old.location old.vm_size capability_premium_io
    new_premium ← has_capability azure new.location new.vm_size capability_premium_io
    lift (
        reject_if (old_premium && not new_premium)
          switch_to_vm_size_that_does_not_support_accelerated_networking)

module _ (p : Platform) (azure : String → Result Cache) where
  unfoldable pub check_storage_account_type_is_valid : AzureMachinePool → Exec Skus (Unit {0})
  check_storage_account_type_is_valid mp = do
    lift (
        reject_if
          (not (mp.storage_account_type == p.names.standard_lrs)
            && not (mp.storage_account_type == p.names.premium_lrs))
          invalid_storage_account_type)
    if not (mp.storage_account_type == p.names.premium_lrs) then pure tt else do
      supported ← has_capability azure mp.location mp.vm_size capability_premium_io
      lift (reject_if (not supported) premium_storage_not_supported_by_vmsize)

  unfoldable pub create_checks : AzureMachinePool → Exec Skus (Unit {0})
  create_checks mp = do
    lift (p.vendor.validate_create_azure_machine_pool mp)
    lift (validate_organization_label_matches_cluster p mp.meta)
    check_instance_type_is_valid azure mp
    check_accelerated_networking azure mp
    check_storage_account_type_is_valid mp
    lift (check_ssh_key_is_empty mp)
    lift (check_data_disks mp)
    lift (check_location mp p.location)

  unfoldable pub on_create_validate : Object → Exec Skus (Unit {0})
  unfolding to_azure_machine_pool_ptr
  on_create_validate object = do mp ← lift (to_azure_machine_pool_ptr object); create_checks mp

  unfoldable pub update_checks : AzureMachinePool → AzureMachinePool → Exec Skus (Unit {0})
  update_checks old new = do
    lift (p.vendor.validate_update_azure_machine_pool new old)
    lift (validate_organization_label_unchanged p old.meta new.meta)
    check_instance_type_is_valid azure new
    check_accelerated_networking_update_is_valid azure old new
    check_instance_type_change_is_valid azure old new
    lift (check_spot_vm_options_unchanged p old new)
    lift (check_storage_account_type_unchanged old new)
    lift (check_ssh_key_is_empty new)
    lift (check_data_disks new)
    lift (check_location_unchanged old new)

  unfoldable pub on_update_validate : Object → Object → Exec Skus (Unit {0})
  unfolding to_azure_machine_pool_ptr
  on_update_validate old_object object = do
    new ← lift (to_azure_machine_pool_ptr object)
    if not (is_zero_time new.meta.deletion_timestamp) then pure tt else do
      old ← lift (to_azure_machine_pool_ptr old_object)
      capi ← lift (is_capi_release p new.meta)
      if capi then pure tt else update_checks old new
