-- ===== src/Azuremachinepool/Mutation.antt =====
-- The handlers of the mutating webhook of AzureMachinePools (mutate_create.go, mutate_update.go).
use azure_admission_controll.Prelude.{
  String, List, [], ◌∷◌, Option, none, some, Bool, not, ◌==◌, if◌then◌else◌,
}
use azure_admission_controll.Result.{Result, ok}
use azure_admission_controll.Result
use azure_admission_controll.Exec.{Exec, lift, pure, ◌>>=◌}
use azure_admission_controll.Objects.{DataDisk, AzureMachinePool, Object, azure_machine_pool}
use azure_admission_controll.Platform.{Platform}
use azure_admission_controll.Key.{to_azure_machine_pool_ptr}
use azure_admission_controll.Vmcapabilities.{Cache, Skus, capability_premium_io, has_capability}
use azure_admission_controll.Patch.{PatchOperation, text, disks, patch_add, skip_for_path}
use azure_admission_controll.Mutator.{
  with_defaults, ensure_release_version_label,
  copy_azure_operator_version_label_from_azure_cluster_cr,
}
use azure_admission_controll.Azuremachinepool.{desired_data_disks}

abbrev pub storage_path : String
storage_path = "/spec/template/osDisk/managedDisk/storageAccountType"

-- Disks that are there stay.
abbrev pub missing_disks : List DataDisk → Option PatchOperation
missing_disks [] = some (patch_add "/spec/template/dataDisks" (disks desired_data_disks))
missing_disks (d ∷ ds) = none

unfoldable pub ensure_data_disks : AzureMachinePool → Option PatchOperation
ensure_data_disks mp = missing_disks mp.data_disks

module _ (p : Platform) where
  unfoldable pub ensure_location : AzureMachinePool → Option PatchOperation
  ensure_location mp =
      if not (mp.location == "") then none else some (patch_add "/spec/location" (text p.location))

  -- The location that `ensureLocation` sets, where there is none.
  abbrev pub location_of : AzureMachinePool → String
  location_of mp = if mp.location == "" then p.location else mp.location

  abbrev pub account_type : Bool → String
  account_type premium = if premium then p.names.premium_lrs else p.names.standard_lrs

module _ (p : Platform) (azure : String → Result Cache) where
  unfoldable pub ensure_storage_account_type : AzureMachinePool → Exec Skus (Option PatchOperation)
  ensure_storage_account_type mp = if not (mp.storage_account_type == "") then pure none else do
    premium ← has_capability azure (location_of p mp) mp.vm_size capability_premium_io
    pure (some (patch_add storage_path (text (account_type p premium))))

  unfoldable pub on_create_mutate : Object → Exec Skus (List PatchOperation)
  unfolding to_azure_machine_pool_ptr
  on_create_mutate object = do
    mp ← lift (to_azure_machine_pool_ptr object)
    storage ← ensure_storage_account_type mp
    lift (
        with_defaults p
          (ok (ensure_location p mp)
            ∷ ok storage
            ∷ ok (ensure_data_disks mp)
            ∷ ensure_release_version_label p mp.meta
            ∷ copy_azure_operator_version_label_from_azure_cluster_cr p mp.meta
            ∷ [])
          (azure_machine_pool mp) (skip_for_path "/spec/template/sshPublicKey"))

module _ (p : Platform) where
  unfoldable pub on_update_mutate : Object → Result (List PatchOperation)
  unfolding to_azure_machine_pool_ptr
  on_update_mutate object =
      Result.◌>>=◌ (to_azure_machine_pool_ptr object) λ mp.
        with_defaults p [] (azure_machine_pool mp) (skip_for_path "/spec/template/sshPublicKey")
