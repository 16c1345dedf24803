-- ===== src/Azuremachinepool/Bypass.antt =====
-- Updates of an AzureMachinePool that the webhook admits with no check of what changed.
use azure_admission_controll.Prelude.{String, ◌≡◌, true, false, arith}
use azure_admission_controll.Result.{Result, ok, accept}
use azure_admission_controll.Objects.{AzureMachinePool, Object, azure_machine_pool, is_zero_time}
use azure_admission_controll.Platform.{Platform}
use azure_admission_controll.Generic.{is_capi_release}
use azure_admission_controll.Vmcapabilities.{Cache, Skus}
use azure_admission_controll.Azuremachinepool.{on_update_validate}

module _ (p : Platform) (azure : String → Result Cache) where
  -- An AzureMachinePool that is being deleted is admitted whatever the old object is, with no question
  -- to Azure.
  pub on_update_validate-deleting :
      (skus : Skus) (any : Object) (new : AzureMachinePool)
      → is_zero_time new.meta.deletion_timestamp ≡ false
      → on_update_validate p azure any (azure_machine_pool new) skus ≡ (accept, skus)
  unfolding on_update_validate
  on_update_validate-deleting skus any new e = rw e

  -- An AzureMachinePool of a Cluster API release is admitted next to any old AzureMachinePool, with no
  -- question to Azure: no field is compared with the old one.
  pub on_update_validate-capi :
      (skus : Skus) (old new : AzureMachinePool)
      → is_capi_release p new.meta ≡ ok true
      → on_update_validate p azure (azure_machine_pool old) (azure_machine_pool new) skus
        ≡ (accept, skus)
  unfolding on_update_validate
  on_update_validate-capi skus old new e = ground arith
