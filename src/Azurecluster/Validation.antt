-- ===== src/Azurecluster/Validation.antt =====
-- Which AzureClusters the webhook admits.
use azure_admission_controll.Prelude.{
  [], ◌∷◌, Option, none, some, ◌≡◌, ap, ◌∙◌, ◌↔◌, ◌⊎◌, inl, inr, eqb_ℤ_iff, arith, eq_iff, Ordering,
  Bool-cases, not, if◌then◌else◌,
}
use azure_admission_controll.Errors.Chain.{Passes, ignore_each-Passes}
use azure_admission_controll.Error.{parsing_failed}
use azure_admission_controll.Deleting.{DeletedOr, unless_deleted}
use azure_admission_controll.Result.{ok, accept, >>=-eq-ok, >>-eq-accept, or_else, deref}
use azure_admission_controll.Objects.{Cluster, AzureCluster, azure_cluster}
use azure_admission_controll.Platform.{Platform}
use azure_admission_controll.Key.{control_plane_endpoint_port, get_control_plane_endpoint_host}
use azure_admission_controll.Semverhelper.{get_semver_from_labels}
use azure_admission_controll.Generic.{
  validate_organization_label_contains_existing_organization, validate_organization_label_unchanged,
}
use azure_admission_controll.Scheduledupgrades.Window.{or_else-eq-ok}
use azure_admission_controll.Releaseversion.{equals}
use azure_admission_controll.Releaseversion.Spec.{Allowed}
use azure_admission_controll.Releaseversion.Refinement.{validate-Allowed}
use azure_admission_controll.Cluster.Network.{eqb_endpoint_iff}
use azure_admission_controll.Azurecluster.{
  validate_control_plane_endpoint, validate_control_plane_endpoint_unchanged, validate_location,
  check_owner, validate_release, create_checks, on_create_validate, update_checks,
  on_update_validate,
}

module _ (p : Platform) (c : AzureCluster) where
  pub record IsCreatable : Type 0 where
    pub vendor :
        Passes
          ("metadata.Name" ∷ "spec.networkSpec.subnets" ∷ "spec.SubscriptionID" ∷ [])
          (p.vendor.validate_create_azure_cluster c)
    pub organization : validate_organization_label_contains_existing_organization p c.meta ≡ accept
    pub host :
        c.control_plane_endpoint.host ≡ get_control_plane_endpoint_host c.meta.name p.base_domain
    pub port : c.control_plane_endpoint.port ≡ control_plane_endpoint_port
    pub location : c.location ≡ p.location

  -- The webhook admits the creation of an AzureCluster exactly when: the provider has no error, or one
  -- whose causes are all about the name, the subnets or the subscription and whose message can be
  -- rewritten for what is left after each of the three; its organization exists, its endpoint has the host that
  -- its name and the base domain give, with port 443, and its location is the installation's.
  pub on_create_validate-azure_cluster :
      (on_create_validate p (azure_cluster c) ≡ accept) ↔ IsCreatable
  unfolding on_create_validate create_checks validate_control_plane_endpoint validate_location
  on_create_validate-azure_cluster =
      let host =
        eq_iff c.control_plane_endpoint.host
          (get_control_plane_endpoint_host c.meta.name p.base_domain) in
      let port = eqb_ℤ_iff c.control_plane_endpoint.port control_plane_endpoint_port in
      let location = eq_iff c.location p.location in
      let vendor =
        ignore_each-Passes "metadata.Name" ("spec.networkSpec.subnets" ∷ "spec.SubscriptionID" ∷ [])
          (p.vendor.validate_create_azure_cluster c) in
      (
        λ h. record {
          vendor = vendor.0 (ground arith);
          organization = ground arith;
          host = ground (arith, host);
          port = ground (arith, port);
          location = ground (arith, location);
        },
        λ i. ground (
          arith,
          vendor.1 i.vendor,
          i.organization,
          i.host,
          i.port,
          i.location,
          host,
          port,
          location,
        ),
      )

module _ (p : Platform) (old new : AzureCluster) where
  -- The owner is found, and its labels name a release equal to the version.
  pub record IsOwnersRelease (version : p.Version) : Type 0 where
    pub owner : Cluster
    pub owned : p.client.get_owner_cluster new.meta ≡ ok (some owner)
    pub owner_version : p.Version
    pub owner_known : get_semver_from_labels p owner.meta.labels ≡ ok owner_version
    pub equal : p.compare version owner_version ≡ Ordering.eq

  deref-eq-ok : {A : Type 0} (o : Option A) {a : A} → deref o ≡ ok a → o ≡ some a
  deref-eq-ok none h = cc
  deref-eq-ok (some b) h = cc

  owner_sound : (w : p.Version) → check_owner p new w ≡ accept → IsOwnersRelease w
  owner_sound w h =
      let (found, answered, h₀) = >>=-eq-ok (p.client.get_owner_cluster new.meta) _ h in
      let (o, there, h₁) = >>=-eq-ok (deref found) _ h₀ in
      let (v, known, h₂) = >>=-eq-ok (get_semver_from_labels p o.meta.labels) _ h₁ in
      record {
        owner = o;
        owned = answered ∙ ap ok (deref-eq-ok found there);
        owner_version = v;
        owner_known = known;
        equal = ground arith;
      }

  pub record MayChange : Type 0 where
    pub old_version : p.Version
    pub old_known : get_semver_from_labels p old.meta.labels ≡ ok old_version
    pub new_version : p.Version
    pub new_known : get_semver_from_labels p new.meta.labels ≡ ok new_version
    pub follows : (p.compare new_version old_version ≡ Ordering.eq) ⊎ IsOwnersRelease new_version
    pub allowed : Allowed p old_version new_version

  follows_of :
      (v w : p.Version)
      → (if not (equals p w v) then check_owner p new w else accept) ≡ accept
      → (p.compare w v ≡ Ordering.eq) ⊎ IsOwnersRelease w
  follows_of v w h = elim (Bool-cases (equals p w v)) [
    | inl same ↦ inl (ground arith)
    | inr differ ↦ inr (owner_sound w (ground arith))
  ]

  follows_complete :
      (v w : p.Version)
      → (p.compare w v ≡ Ordering.eq) ⊎ IsOwnersRelease w
      → (if not (equals p w v) then check_owner p new w else accept) ≡ accept
  follows_complete v w (inl e) = ground arith
  follows_complete v w (inr o) = elim (Bool-cases (equals p w v)) [
    | inl same ↦ ground arith
    | inr differ ↦ ground (arith, o.owned, o.owner_known, o.equal)
  ]

  validate_release_iff : (validate_release p old new ≡ accept) ↔ MayChange
  unfolding validate_release
  validate_release_iff = (
    λ h.
        let (v, v_known, h₁) =
          >>=-eq-ok (or_else (get_semver_from_labels p old.meta.labels) parsing_failed) _ h in
        let (w, w_known, h₂) =
          >>=-eq-ok (or_else (get_semver_from_labels p new.meta.labels) parsing_failed) _ h₁ in
        let (follow, valid) =
          >>-eq-accept (if not (equals p w v) then check_owner p new w else accept) _ h₂ in
        record {
          old_version = v;
          old_known = or_else-eq-ok p _ _ v_known;
          new_version = w;
          new_known = or_else-eq-ok p _ _ w_known;
          follows = follows_of v w follow;
          allowed = (validate-Allowed p v w).0 valid;
        },
    λ m.
        rw (m.old_known, m.new_known, follows_complete m.old_version m.new_version m.follows)
          ((validate-Allowed p m.old_version m.new_version).1 m.allowed),
  )

  pub record IsUpdatable : Type 0 where
    pub vendor :
        Passes
          ("metadata.Name" ∷ "spec.networkSpec.subnets" ∷ "spec.networkSpec.apiServerLB"
            ∷ "spec.SubscriptionID" ∷ [])
          (p.vendor.validate_update_azure_cluster new old)
    pub organization : validate_organization_label_unchanged p old.meta new.meta ≡ accept
    pub endpoint : old.control_plane_endpoint ≡ new.control_plane_endpoint
    pub release : MayChange

  -- The webhook admits the update of an AzureCluster exactly when it is being deleted, or: the
  -- provider has no error, or one whose causes are all about the name, the subnets, the load balancer or
  -- the subscription and whose message can be rewritten for what is left after each of the four; its
  -- organization and endpoint are kept, and a change of release is one that the specification allows,
  -- to the release of the Cluster that owns it. The location is not compared.
  pub on_update_validate-azure_cluster :
      (on_update_validate p (azure_cluster old) (azure_cluster new) ≡ accept)
      ↔ DeletedOr new.meta IsUpdatable
  unfolding on_update_validate update_checks validate_control_plane_endpoint_unchanged
  on_update_validate-azure_cluster =
      let endpoint = eqb_endpoint_iff old.control_plane_endpoint new.control_plane_endpoint in
      let vendor =
        ignore_each-Passes "metadata.Name"
          ("spec.networkSpec.subnets" ∷ "spec.networkSpec.apiServerLB" ∷ "spec.SubscriptionID" ∷ [])
          (p.vendor.validate_update_azure_cluster new old) in
      unless_deleted new.meta _ (
        λ h. record {
          vendor = vendor.0 (ground arith);
          organization = ground arith;
          endpoint = ground (arith, endpoint);
          release = validate_release_iff.0 (ground arith);
        },
        λ i. ground (
          arith,
          vendor.1 i.vendor,
          i.organization,
          i.endpoint,
          endpoint,
          validate_release_iff.1 i.release,
        ),
      )
