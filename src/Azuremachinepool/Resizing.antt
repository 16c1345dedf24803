-- ===== src/Azuremachinepool/Resizing.antt =====
-- Which changes of an AzureMachinePool's VM size and network are accepted.
use azure_admission_controll.Prelude.{
  String, Option, none, some, Bool, true, false, not, ◌&&◌, ◌==◌, ◌≡◌, ◌↔◌, ◌⊎◌, inl, inr, arith,
  eq_iff, Bool-cases,
}
use azure_admission_controll.Error.{switch_to_vm_size_that_does_not_support_accelerated_networking}
use azure_admission_controll.Result.{Result, ok, accept, reject_if, >>=-eq-ok}
use azure_admission_controll.Objects.{AzureMachinePool}
use azure_admission_controll.Vmcapabilities.{Cache, capability_premium_io}
use azure_admission_controll.Vmcapabilities.Caching.{direct_has_capability}
use azure_admission_controll.Azuremachinepool.{networking_changed}
use azure_admission_controll.Azuremachinepool.Direct.{direct_networking_update, direct_type_change}
use azure_admission_controll.Azuremachinepool.Requirements.{HasNetworking, networking_iff}

networking_changed_iff : (a b : Option Bool) → (networking_changed a b ≡ false) ↔ (a ≡ b)
networking_changed_iff none none = ground arith
networking_changed_iff none (some b) = ground arith
networking_changed_iff (some a) none = ground arith
networking_changed_iff (some true) (some b) = ground arith
networking_changed_iff (some false) (some b) = ground arith

module _ (azure : String → Result Cache) (old new : AzureMachinePool) where
  -- The new VM size supports Premium storage, or the old one did not.
  pub record KeepsPremium : Type 0 where
    pub before : Bool
    pub before_known :
        direct_has_capability azure old.location old.vm_size capability_premium_io ≡ ok before
    pub after : Bool
    pub after_known :
        direct_has_capability azure new.location new.vm_size capability_premium_io ≡ ok after
    pub kept : (before ≡ false) ⊎ (after ≡ true)

  -- The VM size is the same, or it changes to one with the capabilities that are needed.
  abbrev pub HasSuitableSize : Type 0
  HasSuitableSize = (old.vm_size ≡ new.vm_size) ⊎ (HasNetworking azure new × KeepsPremium)

  pub premium_iff :
      old.vm_size == new.vm_size ≡ false
      → (direct_type_change azure old new ≡ accept) ↔ KeepsPremium
  unfolding direct_type_change
  premium_iff other = (
    λ h.
        let (a, known, h₁) =
          >>=-eq-ok (direct_has_capability azure old.location old.vm_size capability_premium_io) _
            (rw other at h) in
        let (b, known', h₂) =
          >>=-eq-ok (direct_has_capability azure new.location new.vm_size capability_premium_io) _
            h₁ in
        record {
          before = a;
          before_known = known;
          after = b;
          after_known = known';
          kept = kept_of a b h₂;
        },
    λ k. ground (arith, k.before_known, k.after_known, k.kept),
  )
    where
      kept_of :
          (a b : Bool)
          → reject_if (a && not b) switch_to_vm_size_that_does_not_support_accelerated_networking
            ≡ accept
          → (a ≡ false) ⊎ (b ≡ true)
      kept_of a b h = ground arith

  pub networking_of :
      direct_networking_update azure old new ≡ accept
      → old.accelerated_networking ≡ new.accelerated_networking
  unfolding direct_networking_update
  networking_of h =
      (networking_changed_iff old.accelerated_networking new.accelerated_networking).0
        (ground arith)

  pub suitable_sound :
      direct_networking_update azure old new ≡ accept
      → direct_type_change azure old new ≡ accept
      → HasSuitableSize
  unfolding direct_networking_update
  suitable_sound h k = elim (Bool-cases (old.vm_size == new.vm_size)) [
    | inl same ↦ inl ((eq_iff _ _).0 same)
    | inr other ↦ inr ((networking_iff azure new).0 (ground arith), (premium_iff other).0 k)
  ]

  pub suitable_complete :
      old.accelerated_networking ≡ new.accelerated_networking
      → HasSuitableSize
      → (direct_networking_update azure old new ≡ accept)
        × (direct_type_change azure old new ≡ accept)
  unfolding direct_networking_update direct_type_change
  suitable_complete n s = elim (Bool-cases (old.vm_size == new.vm_size)) [
    | inl same ↦
        ground (
          arith,
          (networking_changed_iff old.accelerated_networking new.accelerated_networking).1 n,
        )
    | inr other ↦ go other s
  ]
    where
      unchanged : networking_changed old.accelerated_networking new.accelerated_networking ≡ false
      unchanged = (networking_changed_iff old.accelerated_networking new.accelerated_networking).1 n

      go :
          old.vm_size == new.vm_size ≡ false
          → HasSuitableSize
          → (direct_networking_update azure old new ≡ accept)
            × (direct_type_change azure old new ≡ accept)
      go other (inl same) = absurd (ground (arith, eq_iff old.vm_size new.vm_size))
      go other (inr (n, k)) =
          ground (arith, unchanged, (networking_iff azure new).1 n, (premium_iff other).1 k)
