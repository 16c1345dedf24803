-- ===== src/Azuremachinepool/Tests.antt =====
-- AzureMachinePools that the webhook admits and refuses.
use azure_admission_controll.Prelude.{List, [], ◌∷◌, none, some, ◌≡◌, refl, ◌↔◌, true, false}
use azure_admission_controll.Error.{
  insufficient_memory, datadisks_field_is_set, ssh_field_is_set, wrong_type,
  accelerated_networking_was_changed, location_was_changed,
}
use azure_admission_controll.Result.{Result, ok, err, accept}
use azure_admission_controll.Objects.{AzureMachinePool, azure_machine_pool, other}
use azure_admission_controll.Generic.{
  validate_organization_label_unchanged, validate_organization_label_matches_cluster,
  is_capi_release, is_capi_version, release_version,
}
use azure_admission_controll.Vmcapabilities.Tests
use azure_admission_controll.Azuremachinepool.{
  check_data_disks, check_location, check_location_unchanged, check_ssh_key_is_empty,
  check_storage_account_type_unchanged, check_spot_vm_options_unchanged,
  check_accelerated_networking, check_instance_type_is_valid,
  check_accelerated_networking_update_is_valid, check_instance_type_change_is_valid,
  check_storage_account_type_is_valid, create_checks, on_create_validate, update_checks,
  on_update_validate, has_accelerated_networking_property_changed, desired_data_disks,
}
use azure_admission_controll.Azuremachinepool.Create.{IsCreatable, on_create_validate_iff}
use azure_admission_controll.Platform.{Platform}
use azure_admission_controll.Patch.{PatchOperation, text, disks, patch_add}
use azure_admission_controll.Generic.Tests.{here, owned}
use azure_admission_controll.Example.{azure, cold, cold-IsFaithful}

abbrev pub pool : AzureMachinePool
pool = record {
  meta = owned;
  location = "westeurope";
  vm_size = "Standard_D4s_v3";
  accelerated_networking = some true;
  data_disks = desired_data_disks;
  spot_vm_options = none;
  storage_account_type = "Premium_LRS";
  ssh_public_key = "";
}

abbrev small : AzureMachinePool
small = record pool { vm_size = "Standard_A2_v2" }

abbrev slow : AzureMachinePool
slow = record pool { accelerated_networking = some false }

abbrev created : AzureMachinePool → Result (Unit {0})
created mp = (on_create_validate here azure (azure_machine_pool mp) cold).0

abbrev updated : AzureMachinePool → AzureMachinePool → Result (Unit {0})
updated old new =
    (on_update_validate here azure (azure_machine_pool old) (azure_machine_pool new) cold).0

abbrev deleting : AzureMachinePool
deleting = record small { meta = record owned { deletion_timestamp = some 1 } }

abbrev capi : AzureMachinePool
capi = record small {
  meta = record owned { labels = ("release.giantswarm.io/version", "20.0.0") ∷ [] };
}

runs : Unit {0}
unfolding azure_admission_controll.Vmcapabilities.Tests.runs
    azure_admission_controll.Generic.Tests.runs check_data_disks check_location
    check_location_unchanged check_ssh_key_is_empty check_storage_account_type_unchanged
    check_spot_vm_options_unchanged check_accelerated_networking check_instance_type_is_valid
    check_accelerated_networking_update_is_valid check_instance_type_change_is_valid
    check_storage_account_type_is_valid create_checks on_create_validate update_checks
    on_update_validate has_accelerated_networking_property_changed
runs = tt

creation_cases :
    (created pool ≡ accept)
    × (created small ≡ err insufficient_memory)
    × (created (record pool { data_disks = [] }) ≡ err datadisks_field_is_set)
    × (created (record pool { ssh_public_key = "key" }) ≡ err ssh_field_is_set)
    × ((on_create_validate here azure other cold).0 ≡ err wrong_type)
unfolding runs
creation_cases = (refl, refl, refl, refl, refl)

update_cases :
    (updated pool pool ≡ accept)
    × (updated pool slow ≡ err accelerated_networking_was_changed)
    × (updated pool small ≡ err insufficient_memory)
    × (updated (record pool { location = "northeurope" }) pool ≡ err location_was_changed)
    × (updated pool deleting ≡ accept)
unfolding runs
update_cases = (refl, refl, refl, refl, refl)

on_create_validate_iff_example :
    ((on_create_validate here azure (azure_machine_pool pool) cold).0 ≡ accept)
    ↔ IsCreatable here azure pool
on_create_validate_iff_example = on_create_validate_iff here azure pool cold cold-IsFaithful

legacy : is_capi_release here pool.meta ≡ ok false
unfolding runs
legacy = refl

capi_release : is_capi_release here capi.meta ≡ ok true
unfolding runs
capi_release = refl

-- Both version labels are set, so that the handler adds none.
abbrev bare : AzureMachinePool
bare = record pool {
  meta = record owned {
    labels =
        ("release.giantswarm.io/version", "11.3.0")
        ∷ ("azure-operator.giantswarm.io/version", "5.0.0")
        ∷ [];
  };
  location = "";
  storage_account_type = "";
  data_disks = [];
}

-- The provider's own defaults set an identity.
abbrev default_patch : PatchOperation
default_patch = patch_add "/spec/identity" (text "None")

abbrev installed : Platform
installed = record here {
  vendor = record here.vendor { default_patches = λ _. ok (default_patch ∷ []) };
}

abbrev patches : List PatchOperation
patches =
    patch_add "/spec/location" (text "westeurope")
    ∷ patch_add "/spec/template/osDisk/managedDisk/storageAccountType" (text "Premium_LRS")
    ∷ patch_add "/spec/template/dataDisks" (disks desired_data_disks)
    ∷ default_patch
    ∷ []
