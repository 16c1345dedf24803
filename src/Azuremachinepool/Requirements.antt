-- ===== src/Azuremachinepool/Requirements.antt =====
-- What the checks of an AzureMachinePool's data disks, VM size, network and storage ask for.
use azure_admission_controll.Prelude.{
  String, List, [], ◌∷◌, Option, none, some, Bool, true, not, ◌==◌, ◌≡◌, refl, ◌↔◌, ◌⊎◌, inl, inr,
  ◌≢◌, ℤ, pos, eqb_ℤ_iff, ◌≤ℤ◌, arith, eq_iff, Bool-cases,
}
use azure_admission_controll.Error.{
  vmsize_does_not_support_accelerated_networking, datadisks_field_is_set,
  premium_storage_not_supported_by_vmsize,
}
use azure_admission_controll.Result.{Result, ok, accept, reject_if, >>=-eq-ok, confirmed}
use azure_admission_controll.Objects.{AzureMachinePool, DataDisk}
use azure_admission_controll.Platform.{Platform}
use azure_admission_controll.Vmcapabilities.{
  Cache, capability_accelerated_networking, capability_premium_io,
}
use azure_admission_controll.Vmcapabilities.Caching.{
  direct_cpus, direct_memory, direct_has_capability,
}
use azure_admission_controll.Azuremachinepool.{
  is_set, desired_data_disks, eqb_lun, eqb_disk, eqb_disks, check_data_disks,
}
use azure_admission_controll.Azuremachinepool.Direct.{
  direct_instance_type, direct_networking, direct_storage,
}

eqb_lun_iff : (a b : Option ℤ) → (eqb_lun a b ≡ true) ↔ (a ≡ b)
eqb_lun_iff none none = ground arith
eqb_lun_iff none (some b) = ground arith
eqb_lun_iff (some a) none = ground arith
eqb_lun_iff (some a) (some b) = ground (arith, eqb_ℤ_iff a b)

eqb_disk_iff : (a b : DataDisk) → b.rest_is_zero ≡ true → (eqb_disk a b ≡ true) ↔ (a ≡ b)
eqb_disk_iff a b z = ground (
  arith,
  eq_iff a.name_suffix b.name_suffix,
  eqb_ℤ_iff a.disk_size_gb b.disk_size_gb,
  eqb_lun_iff a.lun b.lun,
)

abbrev AllPlain : List DataDisk → Type 0
AllPlain [] = Unit
AllPlain (d ∷ ds) = (d.rest_is_zero ≡ true) × AllPlain ds

eqb_disks_iff : (l m : List DataDisk) → AllPlain m → (eqb_disks l m ≡ true) ↔ (l ≡ m)
eqb_disks_iff [] [] z = ground arith
eqb_disks_iff [] (b ∷ m) z = ground arith
eqb_disks_iff (a ∷ l) [] z = ground arith
eqb_disks_iff (a ∷ l) (b ∷ m) (z, zs) = ground (arith, eqb_disk_iff a b z, eqb_disks_iff l m zs)

-- The check of the data disks accepts the two that the operator expects and nothing else.
pub check_data_disks_iff :
    (mp : AzureMachinePool) → (check_data_disks mp ≡ accept) ↔ (mp.data_disks ≡ desired_data_disks)
unfolding check_data_disks
check_data_disks_iff mp =
    let same = eqb_disks_iff mp.data_disks desired_data_disks (refl, (refl, tt)) in
    (λ h. same.0 (eq_true h), λ e. rw (same.1 e))
  where
    eq_true : {b : Bool} → reject_if (not b) datadisks_field_is_set ≡ accept → b ≡ true
    eq_true {b} h = ground arith

module _ (azure : String → Result Cache) (mp : AzureMachinePool) where
  -- The VM size has at least 16 GB of memory and 4 CPUs.
  pub record IsLargeEnough : Type 0 where
    pub memory_gb : ℤ
    pub memory_known : direct_memory azure mp.location mp.vm_size ≡ ok memory_gb
    pub memory_enough : pos 16 ≤ℤ memory_gb
    pub cpu : ℤ
    pub cpu_known : direct_cpus azure mp.location mp.vm_size ≡ ok cpu
    pub cpu_enough : pos 4 ≤ℤ cpu

  pub instance_type_iff : (direct_instance_type azure mp ≡ accept) ↔ IsLargeEnough
  unfolding direct_instance_type
  instance_type_iff = (
    λ h.
        let (m, known, h₁) = >>=-eq-ok (direct_memory azure mp.location mp.vm_size) _ h in
        let (c, known', h₂) = >>=-eq-ok (direct_cpus azure mp.location mp.vm_size) _ h₁ in
        record {
          memory_gb = m;
          memory_known = known;
          memory_enough = ground arith;
          cpu = c;
          cpu_known = known';
          cpu_enough = ground arith;
        },
    λ l. ground (arith, l.memory_known, l.memory_enough, l.cpu_known, l.cpu_enough),
  )

  -- Accelerated networking is not asked for, or the VM size supports it.
  abbrev pub HasNetworking : Type 0
  HasNetworking =
      (mp.accelerated_networking ≢ some true)
      ⊎ (direct_has_capability azure mp.location mp.vm_size capability_accelerated_networking
          ≡ ok true)

  pub networking_iff : (direct_networking azure mp ≡ accept) ↔ HasNetworking
  unfolding direct_networking
  networking_iff = (
    λ h. elim (Bool-cases (is_set mp.accelerated_networking)) [
      | inr off ↦ inl (ground arith)
      | inl on ↦ inr (
          confirmed
            (direct_has_capability azure mp.location mp.vm_size capability_accelerated_networking)
            vmsize_does_not_support_accelerated_networking (ground arith))
    ],
    λ n. ground arith,
  )

module _ (p : Platform) (azure : String → Result Cache) (mp : AzureMachinePool) where
  -- The storage account type is one of two, and Premium only where the VM size supports it.
  abbrev pub HasStorage : Type 0
  HasStorage =
      ((mp.storage_account_type ≡ p.names.standard_lrs)
        × (mp.storage_account_type ≢ p.names.premium_lrs))
      ⊎ ((mp.storage_account_type ≡ p.names.premium_lrs)
          × (direct_has_capability azure mp.location mp.vm_size capability_premium_io ≡ ok true))

  pub storage_iff : (direct_storage p azure mp ≡ accept) ↔ HasStorage
  unfolding direct_storage
  storage_iff = (
    λ h. elim (Bool-cases (mp.storage_account_type == p.names.premium_lrs)) [
      | inl premium ↦ inr (
        (eq_iff _ _).0 premium,
        confirmed (direct_has_capability azure mp.location mp.vm_size capability_premium_io)
            premium_storage_not_supported_by_vmsize (ground arith),
      )
      | inr other ↦ inl (
        ground (
          arith,
          eq_iff mp.storage_account_type p.names.standard_lrs,
          eq_iff mp.storage_account_type p.names.premium_lrs,
        ),
        ground (arith, eq_iff mp.storage_account_type p.names.premium_lrs),
      )
    ],
    λ s. ground (
      arith,
      eq_iff mp.storage_account_type p.names.standard_lrs,
      eq_iff mp.storage_account_type p.names.premium_lrs,
    ),
  )
