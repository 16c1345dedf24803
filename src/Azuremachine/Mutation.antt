-- ===== src/Azuremachine/Mutation.antt =====
-- The handlers of the mutating webhook of AzureMachines (mutate_create.go, mutate_update.go).
use azure_admission_controll.Prelude.{List, [], ◌∷◌, Option, none, some, ◌==◌, if◌then◌else◌}
use azure_admission_controll.Result.{Result, ok, ◌>>=◌}
use azure_admission_controll.Objects.{AzureMachine, Object, azure_machine}
use azure_admission_controll.Platform.{Platform}
use azure_admission_controll.Key.{os_disk_caching_type, to_azure_machine_ptr}
use azure_admission_controll.Patch.{PatchOperation, text, patch_add, skip_for_path}
use azure_admission_controll.Mutator.{
  with_defaults, copy_azure_operator_version_label_from_azure_cluster_cr,
}

-- `len(…) < 1` of a text.
unfoldable pub ensure_os_disk_caching_type : AzureMachine → Option PatchOperation
ensure_os_disk_caching_type m =
    if m.caching_type == ""
    then some (patch_add "/spec/osDisk/cachingType" (text os_disk_caching_type))
    else none

module _ (p : Platform) where
  unfoldable pub ensure_location : AzureMachine → Option PatchOperation
  ensure_location m =
      if m.location == "" then some (patch_add "/spec/location" (text p.location)) else none

  unfoldable pub on_create_mutate : Object → Result (List PatchOperation)
  unfolding to_azure_machine_ptr
  on_create_mutate object = do
    m ← to_azure_machine_ptr object
    with_defaults p
        (ok (ensure_location m)
          ∷ ok (ensure_os_disk_caching_type m)
          ∷ copy_azure_operator_version_label_from_azure_cluster_cr p m.meta
          ∷ [])
        (azure_machine m) (skip_for_path "/spec/sshPublicKey")

  unfoldable pub on_update_mutate : Object → Result (List PatchOperation)
  unfolding to_azure_machine_ptr
  on_update_mutate object = do
    m ← to_azure_machine_ptr object
    with_defaults p (ok (ensure_os_disk_caching_type m) ∷ []) (azure_machine m)
        (skip_for_path "/spec/sshPublicKey")
