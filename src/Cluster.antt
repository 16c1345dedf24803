-- ===== src/Cluster.antt =====
-- pkg/cluster: the checks of a Cluster and the handlers of its validating webhook.
pub mod Handler
pub mod Network
pub mod Create
pub mod Update
pub mod History
pub mod Mutation
pub mod Patching
pub mod Defaults
pub mod Tests
use azure_admission_controll.Prelude.{
  String, List, [], ◌∷◌, Option, none, some, Bool, true, false, not, ◌&&◌, ◌||◌, ◌==◌, ℤ, eqb_ℤ,
  if◌then◌else◌, eqb_texts,
}
use azure_admission_controll.Error.{
  empty_cluster_network, unexpected_api_server_port, unexpected_service_domain,
  empty_cluster_network_services, unexpected_cidr_blocks, invalid_control_plane_endpoint_host,
  invalid_control_plane_endpoint_port, control_plane_endpoint_was_changed,
  cluster_network_was_changed, parsing_failed, invalid_operation,
}
use azure_admission_controll.Result.{
  Result, Check, ok, err, accept, reject_if, deref, or_else, ◌>>=◌, ◌>>◌,
}
use azure_admission_controll.Objects.{
  ApiEndpoint, NetworkRanges, ClusterNetwork, Cluster, Object, is_zero_time,
}
use azure_admission_controll.Platform.{Platform}
use azure_admission_controll.Key.{
  control_plane_endpoint_port, service_domain, cluster_network_service_cidr,
  get_control_plane_endpoint_host, to_cluster_ptr,
}
use azure_admission_controll.Semverhelper.{get_semver_from_labels}
use azure_admission_controll.Generic.{
  validate_organization_label_contains_existing_organization, validate_organization_label_unchanged,
}
use azure_admission_controll.Conditions.{validate_cluster_conditions}
use azure_admission_controll.Scheduledupgrades.{
  Clock, validate_cluster_annotation_upgrade_time, validate_cluster_annotation_upgrade_release,
}
use azure_admission_controll.Releaseversion.{validate, equals}

-- `DeepEqual` of slices of strings that may be nil.
abbrev pub eqb_blocks : Option (List String) → Option (List String) → Bool
eqb_blocks none none = true
eqb_blocks (some l) (some m) = eqb_texts l m
eqb_blocks _ _ = false

abbrev pub eqb_endpoint : ApiEndpoint → ApiEndpoint → Bool
eqb_endpoint a b = a.host == b.host && eqb_ℤ a.port b.port

abbrev pub check_services : Option NetworkRanges → Check
check_services none = err empty_cluster_network_services
check_services (some ranges) =
    reject_if (not (eqb_blocks ranges.cidr_blocks (some (cluster_network_service_cidr ∷ []))))
      unexpected_cidr_blocks

-- The port is dereferenced before it is compared.
abbrev pub check_network : Option ClusterNetwork → Check
check_network none = err empty_cluster_network
check_network (some network) = do
  port ← deref network.api_server_port
  reject_if (not (eqb_ℤ port control_plane_endpoint_port)) unexpected_api_server_port
  reject_if (not (network.service_domain == service_domain)) unexpected_service_domain
  check_services network.services

unfoldable pub validate_cluster_network : Cluster → Check
validate_cluster_network cluster = check_network cluster.cluster_network

unfoldable pub validate_control_plane_endpoint : Cluster → (base_domain : String) → Check
validate_control_plane_endpoint cluster base_domain = do
  reject_if
      (not (
        cluster.control_plane_endpoint.host
        == get_control_plane_endpoint_host cluster.meta.name base_domain))
      invalid_control_plane_endpoint_host
  reject_if (not (eqb_ℤ cluster.control_plane_endpoint.port control_plane_endpoint_port))
      invalid_control_plane_endpoint_port

unfoldable pub validate_control_plane_endpoint_unchanged : Cluster → Cluster → Check
validate_control_plane_endpoint_unchanged old new =
    reject_if (not (eqb_endpoint old.control_plane_endpoint new.control_plane_endpoint))
      control_plane_endpoint_was_changed

abbrev pub services_unchanged : Option NetworkRanges → Option NetworkRanges → Check
services_unchanged none none = accept
services_unchanged (some a) (some b) =
    reject_if (not (eqb_blocks a.cidr_blocks b.cidr_blocks)) cluster_network_was_changed
services_unchanged _ _ = err cluster_network_was_changed

abbrev pub network_unchanged : Option ClusterNetwork → Option ClusterNetwork → Check
network_unchanged none none = accept
network_unchanged (some old) (some new) = do
  old_port ← deref old.api_server_port
  new_port ← deref new.api_server_port
  reject_if (not (eqb_ℤ old_port new_port) || not (old.service_domain == new.service_domain))
      cluster_network_was_changed
  services_unchanged old.services new.services
network_unchanged _ _ = err cluster_network_was_changed

unfoldable pub validate_cluster_network_unchanged : Cluster → Cluster → Check
validate_cluster_network_unchanged old new =
    network_unchanged old.cluster_network new.cluster_network

module _ (p : Platform) where
  -- An upgrade does not start while the cluster is created or upgraded.
  abbrev pub check_idle : Cluster → Check
  check_idle old = do
    reject_if (p.vendor.is_condition_true old p.names.creating_condition) invalid_operation
    reject_if (p.vendor.is_condition_true old p.names.upgrading_condition) invalid_operation

  unfoldable pub validate_release : Cluster → Cluster → Check
  validate_release old new = do
    old_version ← or_else (get_semver_from_labels p old.meta.labels) parsing_failed
    new_version ← or_else (get_semver_from_labels p new.meta.labels) parsing_failed
    if not (equals p new_version old_version) then check_idle old else accept
    validate p old_version new_version

module _ (p : Platform) (clock : Clock) where
  unfoldable pub create_checks : Cluster → Check
  create_checks cluster = do
    p.vendor.validate_create_cluster cluster
    validate_organization_label_contains_existing_organization p cluster.meta
    validate_cluster_network cluster
    validate_control_plane_endpoint cluster p.base_domain
    validate_cluster_annotation_upgrade_time p clock none cluster
    validate_cluster_annotation_upgrade_release p cluster

  unfoldable pub on_create_validate : Object → Check
  unfolding to_cluster_ptr create_checks
  on_create_validate object = do cluster ← to_cluster_ptr object; create_checks cluster

  unfoldable pub update_checks : Cluster → Cluster → Check
  update_checks old new = do
    p.vendor.validate_update_cluster new old
    validate_organization_label_unchanged p old.meta new.meta
    validate_cluster_network_unchanged old new
    validate_control_plane_endpoint_unchanged old new
    validate_cluster_conditions p old new
    validate_cluster_annotation_upgrade_time p clock (some old) new
    validate_cluster_annotation_upgrade_release p new
    validate_release p old new

  unfoldable pub on_update_validate : Object → Object → Check
  unfolding to_cluster_ptr update_checks
  on_update_validate old_object object = do
    new ← to_cluster_ptr object
    if not (is_zero_time new.meta.deletion_timestamp)
        then accept
        else do old ← to_cluster_ptr old_object; update_checks old new
