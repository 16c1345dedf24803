-- ===== src/Azuremachinepool/Direct.antt =====
-- The checks that ask about VM sizes, without the cache: what each decides from what Azure lists.
use azure_admission_controll.Prelude.{String, not, ◌&&◌, ◌==◌, ltb_ℤ, if◌then◌else◌}
use azure_admission_controll.Error.{
  vmsize_does_not_support_accelerated_networking, insufficient_cpu, insufficient_memory,
  invalid_storage_account_type, premium_storage_not_supported_by_vmsize,
  accelerated_networking_was_changed,
  switch_to_vm_size_that_does_not_support_accelerated_networking,
}
use azure_admission_controll.Result.{Result, Check, accept, reject_if, ◌>>=◌, ◌>>◌}
use azure_admission_controll.Objects.{AzureMachinePool}
use azure_admission_controll.Platform.{Platform}
use azure_admission_controll.Vmcapabilities.{
  Cache, capability_accelerated_networking, capability_premium_io,
}
use azure_admission_controll.Vmcapabilities.Caching.{
  direct_cpus, direct_memory, direct_has_capability, Answers, Answers-lift, Answers-bind,
  Answers-seq, Answers-if, cpus-Answers, memory-Answers, has_capability-Answers,
}
use azure_admission_controll.Azuremachinepool.{
  is_set, min_memory, min_cpus, check_accelerated_networking, check_instance_type_is_valid,
  networking_changed, check_storage_account_type_is_valid,
  check_accelerated_networking_update_is_valid, check_instance_type_change_is_valid,
}

module _ (azure : String → Result Cache) where
  unfoldable pub direct_instance_type : AzureMachinePool → Check
  direct_instance_type mp = do
    memory_gb ← direct_memory azure mp.location mp.vm_size
    cpu ← direct_cpus azure mp.location mp.vm_size
    reject_if (ltb_ℤ memory_gb min_memory) insufficient_memory
    reject_if (ltb_ℤ cpu min_cpus) insufficient_cpu

  unfoldable pub direct_networking : AzureMachinePool → Check
  direct_networking mp = if not (is_set mp.accelerated_networking) then accept else do
    supported ← direct_has_capability azure mp.location mp.vm_size capability_accelerated_networking
    reject_if (not supported) vmsize_does_not_support_accelerated_networking

  unfoldable pub direct_networking_update : AzureMachinePool → AzureMachinePool → Check
  direct_networking_update old new = do
    reject_if (networking_changed old.accelerated_networking new.accelerated_networking)
        accelerated_networking_was_changed
    if old.vm_size == new.vm_size then accept else direct_networking new

  unfoldable pub direct_type_change : AzureMachinePool → AzureMachinePool → Check
  direct_type_change old new = if old.vm_size == new.vm_size then accept else do
    old_premium ← direct_has_capability azure old.location old.vm_size capability_premium_io
    new_premium ← direct_has_capability azure new.location new.vm_size capability_premium_io
    reject_if (old_premium && not new_premium)
        switch_to_vm_size_that_does_not_support_accelerated_networking

  pub instance_type-Answers :
      (mp : AzureMachinePool)
      → Answers azure (check_instance_type_is_valid azure mp) (direct_instance_type mp)
  unfolding check_instance_type_is_valid direct_instance_type
  instance_type-Answers mp = Answers-bind azure (memory-Answers azure mp.location mp.vm_size) λ m.
      Answers-bind azure (cpus-Answers azure mp.location mp.vm_size) λ c.
        Answers-seq azure (Answers-lift azure (reject_if (ltb_ℤ m min_memory) insufficient_memory))
          (Answers-lift azure (reject_if (ltb_ℤ c min_cpus) insufficient_cpu))

  pub networking-Answers :
      (mp : AzureMachinePool)
      → Answers azure (check_accelerated_networking azure mp) (direct_networking mp)
  unfolding check_accelerated_networking direct_networking
  networking-Answers mp =
      Answers-if azure (not (is_set mp.accelerated_networking)) (Answers-lift azure accept) (
        Answers-bind azure
          (has_capability-Answers azure mp.location mp.vm_size capability_accelerated_networking)
          λ s.
            Answers-lift azure (reject_if (not s) vmsize_does_not_support_accelerated_networking))

  pub networking_update-Answers :
      (old new : AzureMachinePool)
      → Answers azure
          (check_accelerated_networking_update_is_valid azure old new)
          (direct_networking_update old new)
  unfolding check_accelerated_networking_update_is_valid direct_networking_update
  networking_update-Answers old new =
      Answers-seq azure
        (Answers-lift azure (
          reject_if (networking_changed old.accelerated_networking new.accelerated_networking)
            accelerated_networking_was_changed))
        (Answers-if azure (old.vm_size == new.vm_size) (Answers-lift azure accept)
          (networking-Answers new))

  pub type_change-Answers :
      (old new : AzureMachinePool)
      → Answers azure
          (check_instance_type_change_is_valid azure old new)
          (direct_type_change old new)
  unfolding check_instance_type_change_is_valid direct_type_change
  type_change-Answers old new =
      Answers-if azure (old.vm_size == new.vm_size) (Answers-lift azure accept) (
        Answers-bind azure
          (has_capability-Answers azure old.location old.vm_size capability_premium_io)
          λ a.
            Answers-bind azure
              (has_capability-Answers azure new.location new.vm_size capability_premium_io)
              λ b. Answers-lift azure (
                reject_if (a && not b)
                  switch_to_vm_size_that_does_not_support_accelerated_networking))

module _ (p : Platform) (azure : String → Result Cache) where
  unfoldable pub direct_storage : AzureMachinePool → Check
  direct_storage mp = do
    reject_if
        (not (mp.storage_account_type == p.names.standard_lrs)
          && not (mp.storage_account_type == p.names.premium_lrs))
        invalid_storage_account_type
    if not (mp.storage_account_type == p.names.premium_lrs) then accept else do
      supported ← direct_has_capability azure mp.location mp.vm_size capability_premium_io
      reject_if (not supported) premium_storage_not_supported_by_vmsize

  pub storage-Answers :
      (mp : AzureMachinePool)
      → Answers azure (check_storage_account_type_is_valid p azure mp) (direct_storage mp)
  unfolding check_storage_account_type_is_valid direct_storage
  storage-Answers mp =
      Answers-seq azure
        (Answers-lift azure (
          reject_if
            (not (mp.storage_account_type == p.names.standard_lrs)
              && not (mp.storage_account_type == p.names.premium_lrs))
            invalid_storage_account_type))
        (Answers-if azure (not (mp.storage_account_type == p.names.premium_lrs))
          (Answers-lift azure accept)
          (Answers-bind azure
            (has_capability-Answers azure mp.location mp.vm_size capability_premium_io)
            λ s. Answers-lift azure (reject_if (not s) premium_storage_not_supported_by_vmsize)))
