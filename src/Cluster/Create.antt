-- ===== src/Cluster/Create.antt =====
-- Which Clusters the webhook admits on creation.
use azure_admission_controll.Prelude.{String, none, ◌≡◌, ◌↔◌, eqb_ℤ_iff, arith, eq_iff}
use azure_admission_controll.Result.{accept}
use azure_admission_controll.Objects.{Cluster, cluster}
use azure_admission_controll.Platform.{Platform}
use azure_admission_controll.Key.{control_plane_endpoint_port, get_control_plane_endpoint_host}
use azure_admission_controll.Generic.{validate_organization_label_contains_existing_organization}
use azure_admission_controll.Scheduledupgrades.{Clock}
use azure_admission_controll.Scheduledupgrades.Window.{
  TimeAllowed, ReleaseAllowed, validate_cluster_annotation_upgrade_time_iff,
  validate_cluster_annotation_upgrade_release_iff,
}
use azure_admission_controll.Cluster.{
  validate_control_plane_endpoint, create_checks, on_create_validate,
}
use azure_admission_controll.Cluster.Network.{HasExpectedNetwork, validate_cluster_network_iff}

abbrev pub HasExpectedEndpoint : Cluster → String → Type 0
HasExpectedEndpoint c domain =
    (c.control_plane_endpoint.host ≡ get_control_plane_endpoint_host c.meta.name domain)
    × (c.control_plane_endpoint.port ≡ control_plane_endpoint_port)

-- The check of a new Cluster's endpoint accepts exactly the host that the cluster's name and the base
-- domain give, with port 443.
pub validate_control_plane_endpoint_iff :
    (c : Cluster) (domain : String)
    → (validate_control_plane_endpoint c domain ≡ accept) ↔ HasExpectedEndpoint c domain
unfolding validate_control_plane_endpoint
validate_control_plane_endpoint_iff c domain = ground (
  arith,
  eq_iff c.control_plane_endpoint.host (get_control_plane_endpoint_host c.meta.name domain),
  eqb_ℤ_iff c.control_plane_endpoint.port control_plane_endpoint_port,
)

module _ (p : Platform) (clock : Clock) (c : Cluster) where
  pub record IsCreatable : Type 0 where
    pub vendor : p.vendor.validate_create_cluster c ≡ accept
    pub organization : validate_organization_label_contains_existing_organization p c.meta ≡ accept
    pub network : HasExpectedNetwork c
    pub endpoint : HasExpectedEndpoint c p.base_domain
    pub schedule : TimeAllowed p clock none c
    pub target : ReleaseAllowed p c

  -- The webhook admits the creation of a Cluster exactly when: Cluster API admits it, its organization
  -- exists, its network has port 443, the service domain cluster.local and 172.31.0.0/16 as the one range
  -- of services, its endpoint is the expected one, and an upgrade that it schedules is ahead and goes to
  -- a release that may be changed to.
  pub on_create_validate-cluster : (on_create_validate p clock (cluster c) ≡ accept) ↔ IsCreatable
  unfolding on_create_validate create_checks
  on_create_validate-cluster =
      let network = validate_cluster_network_iff c in
      let endpoint = validate_control_plane_endpoint_iff c p.base_domain in
      let time = validate_cluster_annotation_upgrade_time_iff p clock none c in
      let target = validate_cluster_annotation_upgrade_release_iff p c in
      (
        λ h. record {
          vendor = ground arith;
          organization = ground arith;
          network = network.0 (ground arith);
          endpoint = endpoint.0 (ground arith);
          schedule = time.0 (ground arith);
          target = target.0 (ground arith);
        },
        λ i. ground (
          arith,
          i.vendor,
          i.organization,
          network.1 i.network,
          endpoint.1 i.endpoint,
          time.1 i.schedule,
          target.1 i.target,
        ),
      )
