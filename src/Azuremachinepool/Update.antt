-- ===== src/Azuremachinepool/Update.antt =====
-- Which updates of an AzureMachinePool the webhook admits.
use azure_admission_controll.Prelude.{true, false, String, ◌≡◌}
use azure_admission_controll.Result.{Result, ok, Check, accept, ◌>>◌}
use azure_admission_controll.Objects.{AzureMachinePool, is_zero_time}
use azure_admission_controll.Platform.{Platform}
use azure_admission_controll.Generic.{is_capi_release, validate_organization_label_unchanged}
use azure_admission_controll.Vmcapabilities.{Cache}
use azure_admission_controll.Azuremachinepool.{
  spot_changed, desired_data_disks, check_spot_vm_options_unchanged,
  check_storage_account_type_unchanged, check_ssh_key_is_empty, check_data_disks,
  check_location_unchanged,
}
use azure_admission_controll.Azuremachinepool.Direct.{
  direct_instance_type, direct_networking_update, direct_type_change,
}
use azure_admission_controll.Azuremachinepool.Requirements.{IsLargeEnough}
use azure_admission_controll.Azuremachinepool.Resizing.{HasSuitableSize}

module _ (p : Platform) (azure : String → Result Cache) (old new : AzureMachinePool) where
  pub record IsUpdatable : Type 0 where
    pub vendor : p.vendor.validate_update_azure_machine_pool new old ≡ accept
    pub organization : validate_organization_label_unchanged p old.meta new.meta ≡ accept
    pub size : IsLargeEnough azure new
    pub networking : old.accelerated_networking ≡ new.accelerated_networking
    pub suitable : HasSuitableSize azure old new
    pub spot : spot_changed p old.spot_vm_options new.spot_vm_options ≡ false
    pub storage : old.storage_account_type ≡ new.storage_account_type
    pub no_ssh_key : new.ssh_public_key ≡ ""
    pub disks : new.data_disks ≡ desired_data_disks
    pub location : old.location ≡ new.location

  direct_update : Check
  direct_update = do
    p.vendor.validate_update_azure_machine_pool new old
    validate_organization_label_unchanged p old.meta new.meta
    direct_instance_type azure new
    direct_networking_update azure old new
    direct_type_change azure old new
    check_spot_vm_options_unchanged p old new
    check_storage_account_type_unchanged old new
    check_ssh_key_is_empty new
    check_data_disks new
    check_location_unchanged old new

  -- The AzureMachinePool is being deleted, or is of a Cluster API release, or changes as it may.
  pub data IsAdmitted : Type 0 where
    deleted : is_zero_time new.meta.deletion_timestamp ≡ false → IsAdmitted
    capi : is_capi_release p new.meta ≡ ok true → IsAdmitted
    updated : is_capi_release p new.meta ≡ ok false → IsUpdatable → IsAdmitted
