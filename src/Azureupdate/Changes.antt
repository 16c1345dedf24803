-- ===== src/Azureupdate/Changes.antt =====
-- Which changes of an AzureConfig and of an AzureClusterConfig are admitted.
use mathlib.Core.List.{Perm}
use azure_admission_controll.Prelude.{
  List, [], ◌∷◌, true, not, ◌≡◌, ◌≢◌, ◌↔◌, ◌⊎◌, inl, inr, arith, eq_iff, Bool-cases, ℤ, Ordering,
  sort, ints, sort-eq_iff, eqb_ints, eqb_ints_iff, if◌then◌else◌,
}
use azure_admission_controll.Error.{parsing_failed}
use azure_admission_controll.Deleting.{DeletedOr, unless_deleted}
use azure_admission_controll.Result.{ok, accept, or_else, >>=-eq-ok}
use azure_admission_controll.Objects.{
  AzureClusterConfig, AzureConfig, azure_cluster_config, azure_config,
}
use azure_admission_controll.Platform.{Platform}
use azure_admission_controll.Semverhelper.{get_semver_from_labels}
use azure_admission_controll.Scheduledupgrades.Window.{or_else-eq-ok}
use azure_admission_controll.Releaseversion.{validate, equals}
use azure_admission_controll.Releaseversion.Spec.{Allowed}
use azure_admission_controll.Releaseversion.Refinement.{validate-Allowed}
use azure_admission_controll.Azureupdate.{
  is_empty, validate_master_cidr_unchanged, validate_availability_zones_unchanged, get_semver,
  on_update_validate_cluster_config, config_checks, on_update_validate_config,
}

abbrev pub KeepsMasterCidr : AzureConfig → AzureConfig → Type 0
KeepsMasterCidr old new =
    (old.master_subnet_cidr ≡ "") ⊎ (old.master_subnet_cidr ≡ new.master_subnet_cidr)

abbrev pub KeepsZones : AzureConfig → AzureConfig → Type 0
KeepsZones old new =
    (old.availability_zones ≡ []) ⊎ Perm old.availability_zones new.availability_zones

master_cidr_iff :
    (old new : AzureConfig)
    → (validate_master_cidr_unchanged old new ≡ accept) ↔ KeepsMasterCidr old new
unfolding validate_master_cidr_unchanged
master_cidr_iff old new =
    ground (
      arith,
      eq_iff old.master_subnet_cidr "",
      eq_iff old.master_subnet_cidr new.master_subnet_cidr,
    )

is_empty_iff : (zs : List ℤ) → (is_empty zs ≡ true) ↔ (zs ≡ [])
is_empty_iff [] = ground arith
is_empty_iff (z ∷ zs) = ground arith

zones_iff :
    (old new : AzureConfig)
    → (validate_availability_zones_unchanged old new ≡ accept) ↔ KeepsZones old new
unfolding validate_availability_zones_unchanged
zones_iff old new = (
  λ h. elim (Bool-cases (is_empty old.availability_zones)) [
    | inl bare ↦ inl ((is_empty_iff old.availability_zones).0 bare)
    | inr full ↦ inr (same.0 (ground arith))
  ],
  complete,
)
  where
    same :
        (eqb_ints (sort ints old.availability_zones) (sort ints new.availability_zones) ≡ true)
        ↔ Perm old.availability_zones new.availability_zones
    same = sort-eq_iff ints eqb_ints eqb_ints_iff old.availability_zones new.availability_zones

    complete : KeepsZones old new → validate_availability_zones_unchanged old new ≡ accept
    complete (inl e) = ground (arith, (is_empty_iff old.availability_zones).1 e)
    complete (inr q) = ground (arith, same.1 q)

module _ (p : Platform) (old new : AzureConfig) where
  -- The release changes as the specification allows, or it stays and so do CIDR and zones.
  pub record MayChange : Type 0 where
    pub old_version : p.Version
    pub old_known : get_semver_from_labels p old.meta.labels ≡ ok old_version
    pub new_version : p.Version
    pub new_known : get_semver_from_labels p new.meta.labels ≡ ok new_version
    pub change :
        ((p.compare old_version new_version ≢ Ordering.eq) × Allowed p old_version new_version)
        ⊎ ((p.compare old_version new_version ≡ Ordering.eq)
            × KeepsMasterCidr old new
            × KeepsZones old new)

  config_checks_iff : (config_checks p old new ≡ accept) ↔ MayChange
  config_checks_iff =
      let cidr = master_cidr_iff old new in
      let zones = zones_iff old new in
      (
        λ h.
            let (v, v_known, h₁) =
              >>=-eq-ok (or_else (get_semver_from_labels p old.meta.labels) parsing_failed) _ h in
            let (w, w_known, h₂) =
              >>=-eq-ok (or_else (get_semver_from_labels p new.meta.labels) parsing_failed) _ h₁ in
            record {
              old_version = v;
              old_known = or_else-eq-ok p _ _ v_known;
              new_version = w;
              new_known = or_else-eq-ok p _ _ w_known;
              change = elim (Bool-cases (equals p v w)) [
                | inl same ↦ inr (ground arith, cidr.0 (ground arith), zones.0 (ground arith))
                | inr differ ↦ inl ((λ e. ground arith), (validate-Allowed p v w).0 (ground arith))
              ];
            },
        λ m. complete m m.change,
      )
    where
      complete :
          (m : MayChange)
          → ((p.compare m.old_version m.new_version ≢ Ordering.eq)
              × Allowed p m.old_version m.new_version)
            ⊎ ((p.compare m.old_version m.new_version ≡ Ordering.eq)
                × KeepsMasterCidr old new
                × KeepsZones old new)
          → config_checks p old new ≡ accept
      complete m (inl (differ, allowed)) =
          elim (Bool-cases (equals p m.old_version m.new_version)) [
            | inl same ↦ absurd (differ (ground arith))
            | inr other ↦ ground (
              arith,
              m.old_known,
              m.new_known,
              (validate-Allowed p m.old_version m.new_version).1 allowed,
            )
          ]
      complete m (inr (same, cidr, zones)) = ground (
        arith,
        m.old_known,
        m.new_known,
        same,
        (master_cidr_iff old new).1 cidr,
        (zones_iff old new).1 zones,
      )

  -- The webhook admits the update of an AzureConfig exactly when it is being deleted, or its release
  -- changes as the specification allows, or stays and the master's CIDR, if it was set, is kept and
  -- the zones, if there were any, are a permutation of the old ones. With a change of release neither
  -- CIDR nor zones are compared.
  pub on_update_validate_config-MayChange :
      (on_update_validate_config p (azure_config old) (azure_config new) ≡ accept)
      ↔ DeletedOr new.meta MayChange
  unfolding on_update_validate_config
  on_update_validate_config-MayChange = unless_deleted new.meta _ config_checks_iff

module _ (p : Platform) (old new : AzureClusterConfig) where
  -- The webhook admits the update of an AzureClusterConfig exactly when it is being deleted, or both
  -- versions can be read and the specification allows the change.
  pub on_update_validate_cluster_config-Allowed :
      (on_update_validate_cluster_config p (azure_cluster_config old) (azure_cluster_config new)
        ≡ accept)
      ↔ DeletedOr new.meta (
          (v : p.Version) × (w : p.Version) × (get_semver p old.release_version ≡ ok v)
          × (get_semver p new.release_version ≡ ok w)
          × Allowed p v w)
  unfolding on_update_validate_cluster_config
  on_update_validate_cluster_config-Allowed = unless_deleted new.meta _ (
    λ h.
        let (v, v_known, h₁) =
          >>=-eq-ok (or_else (get_semver p old.release_version) parsing_failed) _ h in
        let (w, w_known, h₂) =
          >>=-eq-ok (or_else (get_semver p new.release_version) parsing_failed) _ h₁ in
        (v, w, or_else-eq-ok p _ _ v_known, or_else-eq-ok p _ _ w_known, allowed_of v w h₂),
    λ (v, w, a, b, allowed). ground (arith, a, b, (validate-Allowed p v w).1 allowed),
  )
    where
      allowed_of :
          (v w : p.Version)
          → (if not (equals p v w) then validate p v w else accept) ≡ accept
          → Allowed p v w
      allowed_of v w h = elim (Bool-cases (equals p v w)) [
        | inl same ↦ Allowed.unchanged (ground arith)
        | inr differ ↦ (validate-Allowed p v w).0 (ground arith)
      ]
