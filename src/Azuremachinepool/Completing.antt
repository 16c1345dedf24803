-- ===== src/Azuremachinepool/Completing.antt =====
-- The first three patches of the mutating webhook of AzureMachinePools, and the checks that they meet.
use azure_admission_controll.Patch.Applying.{apply_maybe}
use azure_admission_controll.Prelude.{
  String, [], Option, some, Bool, true, false, ◌==◌, ◌≡◌, refl, ◌≢◌, ◌⊎◌, inl, inr, arith, eq_iff,
  eq_refl, Bool-cases, sym, ◌∙◌,
}
use azure_admission_controll.Result.{Result, ok, accept, ◌>>=◌, >>=-eq-ok}
use azure_admission_controll.Objects.{AzureMachinePool}
use azure_admission_controll.Platform.{Platform}
use azure_admission_controll.Vmcapabilities.{Cache, Skus, capability_premium_io}
use azure_admission_controll.Vmcapabilities.Caching.{
  IsFaithful, Answers, Answers-lift, Answers-bind, direct_has_capability, has_capability-Answers,
}
use azure_admission_controll.Patch.{PatchOperation, text, patch_add}
use azure_admission_controll.Azuremachinepool.{
  desired_data_disks, check_data_disks, check_location, check_storage_account_type_is_valid,
}
use azure_admission_controll.Azuremachinepool.Requirements.{
  check_data_disks_iff, HasStorage, storage_iff,
}
use azure_admission_controll.Azuremachinepool.Direct.{storage-Answers}
use azure_admission_controll.Azuremachinepool.Mutation.{
  ensure_data_disks, ensure_location, location_of, account_type, storage_path,
  ensure_storage_account_type,
}
use azure_admission_controll.Azuremachinepool.Patching.{apply}

module _ (p : Platform) (azure : String → Result Cache) (mp : AzureMachinePool) where
  -- The AzureMachinePool with the handler's first three patches, for its location, its storage account
  -- type and its data disks.
  abbrev pub defaulted : Option PatchOperation → AzureMachinePool
  defaulted storage =
      apply_maybe apply (ensure_data_disks mp)
        (apply_maybe apply storage (apply_maybe apply (ensure_location p mp) mp))

  storage_default : Result (Option PatchOperation)
  storage_default =
      direct_has_capability azure (location_of p mp) mp.vm_size capability_premium_io >>= λ premium.
      ok (some (patch_add storage_path (text (account_type p premium))))

  default-Answers :
      mp.storage_account_type ≡ ""
      → Answers azure (ensure_storage_account_type p azure mp) storage_default
  unfolding ensure_storage_account_type storage_default
  default-Answers blank = rw blank (
      Answers-bind azure
        (has_capability-Answers azure (location_of p mp) mp.vm_size capability_premium_io)
        λ premium.
          Answers-lift azure (ok (some (patch_add storage_path (text (account_type p premium))))))

  -- What is set for the storage account type is what Azure lists for the location and the VM size.
  premium_known :
      (skus : Skus) (storage : Option PatchOperation)
      → IsFaithful azure skus
      → mp.storage_account_type ≡ ""
      → (ensure_storage_account_type p azure mp skus).0 ≡ ok storage
      → (premium : Bool) × (direct_has_capability azure
            (location_of p mp)
            mp.vm_size
            capability_premium_io
          ≡ ok premium)
        × (storage ≡ some (patch_add storage_path (text (account_type p premium))))
  unfolding storage_default
  premium_known skus storage f blank h =
      let (premium, known, e) =
        >>=-eq-ok (direct_has_capability azure (location_of p mp) mp.vm_size capability_premium_io)
          _ (sym ((default-Answers blank).result skus f) ∙ h) in
      (premium, known, cc)

  location_known : (mp.location ≡ "") ⊎ (mp.location ≡ p.location) → location_of p mp ≡ p.location
  location_known (inl blank) = ground (arith, eq_iff mp.location "")
  location_known (inr right) = elim (Bool-cases (mp.location == "")) [
    | inl blank ↦ ground arith
    | inr named ↦ ground arith
  ]

  abbrev completed : Bool → AzureMachinePool
  completed premium = record mp {
    location = p.location;
    storage_account_type = account_type p premium;
    data_disks = desired_data_disks;
  }

  defaulted_as :
      (premium : Bool)
      → mp.data_disks ≡ []
      → (mp.location ≡ "") ⊎ (mp.location ≡ p.location)
      → defaulted (some (patch_add storage_path (text (account_type p premium))))
        ≡ completed premium
  unfolding ensure_data_disks ensure_location
  defaulted_as premium bare given = elim (Bool-cases (mp.location == "")) [
    | inl blank ↦ ground arith
    | inr named ↦ ground (arith, eq_iff mp.location "")
  ]

  storage_allowed :
      (premium : Bool)
      → p.names.standard_lrs ≢ p.names.premium_lrs
      → direct_has_capability azure p.location mp.vm_size capability_premium_io ≡ ok premium
      → HasStorage p azure (completed premium)
  storage_allowed true differ known = inr (refl, known)
  storage_allowed false differ known = inl (refl, differ)

  pub ensure_storage_account_type-check_storage_account_type_is_valid :
      (skus skus' : Skus) (storage : Option PatchOperation)
      → IsFaithful azure skus
      → IsFaithful azure skus'
      → p.names.standard_lrs ≢ p.names.premium_lrs
      → mp.data_disks ≡ []
      → mp.storage_account_type ≡ ""
      → (mp.location ≡ "") ⊎ (mp.location ≡ p.location)
      → (ensure_storage_account_type p azure mp skus).0 ≡ ok storage
      → (check_data_disks (defaulted storage) ≡ accept)
        × (check_location (defaulted storage) p.location ≡ accept)
        × ((check_storage_account_type_is_valid p azure (defaulted storage) skus').0 ≡ accept)
  unfolding check_location
  ensure_storage_account_type-check_storage_account_type_is_valid skus skus' storage f f' differ
        bare blank given h =
      let (premium, known, e) = premium_known skus storage f blank h in
      let known' : direct_has_capability azure p.location mp.vm_size capability_premium_io
          ≡ ok premium =
        rw (← location_known given) known in
      let whole : defaulted storage ≡ completed premium = rw e (defaulted_as premium bare given) in
      (
        rw whole ((check_data_disks_iff (completed premium)).1 refl),
        rw whole (location_accepted (completed premium) refl),
        rw whole (
            (storage-Answers p azure (completed premium)).result skus' f'
            ∙ (storage_iff p azure (completed premium)).1 (storage_allowed premium differ known')),
      )
    where
      location_accepted :
          (m : AzureMachinePool) → m.location ≡ p.location → check_location m p.location ≡ accept
      location_accepted m e = ground (arith, eq_refl p.location)
