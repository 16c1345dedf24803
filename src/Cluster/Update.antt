-- ===== src/Cluster/Update.antt =====
-- Which updates of a Cluster the webhook admits.
use azure_admission_controll.Prelude.{
  some, false, ◌≡◌, ◌↔◌, ◌⊎◌, inl, inr, arith, Ordering, Bool-cases, not, if◌then◌else◌,
}
use azure_admission_controll.Error.{parsing_failed}
use azure_admission_controll.Deleting.{DeletedOr, unless_deleted}
use azure_admission_controll.Result.{ok, accept, >>=-eq-ok, >>-eq-accept, or_else}
use azure_admission_controll.Objects.{Cluster, Object, cluster, is_zero_time}
use azure_admission_controll.Platform.{Platform}
use azure_admission_controll.Semverhelper.{get_semver_from_labels}
use azure_admission_controll.Generic.{validate_organization_label_unchanged}
use azure_admission_controll.Conditions.{validate_cluster_conditions}
use azure_admission_controll.Scheduledupgrades.{Clock}
use azure_admission_controll.Scheduledupgrades.Window.{
  TimeAllowed, ReleaseAllowed, validate_cluster_annotation_upgrade_time_iff,
  validate_cluster_annotation_upgrade_release_iff, or_else-eq-ok,
}
use azure_admission_controll.Releaseversion.{equals}
use azure_admission_controll.Releaseversion.Spec.{Allowed}
use azure_admission_controll.Releaseversion.Refinement.{validate-Allowed}
use azure_admission_controll.Cluster.{
  validate_control_plane_endpoint_unchanged, check_idle, validate_release, update_checks,
  on_update_validate,
}
use azure_admission_controll.Cluster.Network.{
  NetworkKept, validate_cluster_network_unchanged_iff, eqb_endpoint_iff,
}

validate_control_plane_endpoint_unchanged_iff :
    (old new : Cluster)
    → (validate_control_plane_endpoint_unchanged old new ≡ accept)
      ↔ (old.control_plane_endpoint ≡ new.control_plane_endpoint)
unfolding validate_control_plane_endpoint_unchanged
validate_control_plane_endpoint_unchanged_iff old new =
    ground (arith, eqb_endpoint_iff old.control_plane_endpoint new.control_plane_endpoint)

module _ (p : Platform) (old new : Cluster) where
  -- Neither Creating nor Upgrading is true.
  abbrev pub IsIdle : Type 0
  IsIdle =
      (p.vendor.is_condition_true old p.names.creating_condition ≡ false)
      × (p.vendor.is_condition_true old p.names.upgrading_condition ≡ false)

  -- The cluster may change from its release to the new one, and is idle if the two differ.
  pub record MayChange : Type 0 where
    pub old_version : p.Version
    pub old_known : get_semver_from_labels p old.meta.labels ≡ ok old_version
    pub new_version : p.Version
    pub new_known : get_semver_from_labels p new.meta.labels ≡ ok new_version
    pub idle : (p.compare new_version old_version ≡ Ordering.eq) ⊎ IsIdle
    pub allowed : Allowed p old_version new_version

  idle_of :
      (v w : p.Version)
      → (if not (equals p w v) then check_idle p old else accept) ≡ accept
      → (p.compare w v ≡ Ordering.eq) ⊎ IsIdle
  idle_of v w h = elim (Bool-cases (equals p w v)) [
    | inl same ↦ inl (ground arith)
    | inr differ ↦ inr (ground arith, ground arith)
  ]

  -- The check of the release accepts exactly when both versions can be read, the change is one that
  -- the specification allows, and a cluster whose release changes is neither being created nor being
  -- upgraded.
  pub validate_release_iff : (validate_release p old new ≡ accept) ↔ MayChange
  unfolding validate_release
  validate_release_iff = (
    λ h.
        let (v, v_known, h₁) =
          >>=-eq-ok (or_else (get_semver_from_labels p old.meta.labels) parsing_failed) _ h in
        let (w, w_known, h₂) =
          >>=-eq-ok (or_else (get_semver_from_labels p new.meta.labels) parsing_failed) _ h₁ in
        let (quiet, valid) =
          >>-eq-accept (if not (equals p w v) then check_idle p old else accept) _ h₂ in
        record {
          old_version = v;
          old_known = or_else-eq-ok p _ _ v_known;
          new_version = w;
          new_known = or_else-eq-ok p _ _ w_known;
          idle = idle_of v w quiet;
          allowed = (validate-Allowed p v w).0 valid;
        },
    λ m. ground (
      arith,
      m.old_known,
      m.new_known,
      m.idle,
      (validate-Allowed p m.old_version m.new_version).1 m.allowed,
    ),
  )

module _ (p : Platform) (clock : Clock) (old new : Cluster) where
  pub record IsUpdatable : Type 0 where
    pub vendor : p.vendor.validate_update_cluster new old ≡ accept
    pub organization : validate_organization_label_unchanged p old.meta new.meta ≡ accept
    pub network : NetworkKept old.cluster_network new.cluster_network
    pub endpoint : old.control_plane_endpoint ≡ new.control_plane_endpoint
    pub conditions : validate_cluster_conditions p old new ≡ accept
    pub schedule : TimeAllowed p clock (some old) new
    pub target : ReleaseAllowed p new
    pub release : MayChange p old new

  update_checks_iff : (update_checks p clock old new ≡ accept) ↔ IsUpdatable
  unfolding update_checks
  update_checks_iff =
      let network = validate_cluster_network_unchanged_iff old new in
      let endpoint = validate_control_plane_endpoint_unchanged_iff old new in
      let time = validate_cluster_annotation_upgrade_time_iff p clock (some old) new in
      let target = validate_cluster_annotation_upgrade_release_iff p new in
      let release = validate_release_iff p old new in
      (
        λ h. record {
          vendor = ground arith;
          organization = ground arith;
          network = network.0 (ground arith);
          endpoint = endpoint.0 (ground arith);
          conditions = ground arith;
          schedule = time.0 (ground arith);
          target = target.0 (ground arith);
          release = release.0 (ground arith);
        },
        λ i. ground (
          arith,
          i.vendor,
          i.organization,
          network.1 i.network,
          endpoint.1 i.endpoint,
          i.conditions,
          time.1 i.schedule,
          target.1 i.target,
          release.1 i.release,
        ),
      )

  -- The webhook admits the update of a Cluster exactly when it is being deleted, or: Cluster API admits
  -- it, organization, endpoint and the network's port, service domain and services are kept, the conditions make allowed steps, a new
  -- schedule is ahead and goes to a release that may be changed to, and a change of release is one
  -- that the specification allows, of a cluster that is neither being created nor being upgraded.
  pub on_update_validate-cluster :
      (on_update_validate p clock (cluster old) (cluster new) ≡ accept)
      ↔ DeletedOr new.meta IsUpdatable
  unfolding on_update_validate
  on_update_validate-cluster = unless_deleted new.meta _ update_checks_iff

-- A Cluster that is being deleted is admitted next to any old object.
pub on_update_validate-deleted_cluster :
    (p : Platform) (clock : Clock) (any : Object) (new : Cluster)
    → is_zero_time new.meta.deletion_timestamp ≡ false
    → on_update_validate p clock any (cluster new) ≡ accept
unfolding on_update_validate
on_update_validate-deleted_cluster p clock any new e = rw e
