-- ===== src/Azurecluster.antt =====
-- pkg/azurecluster: the checks of an AzureCluster and the handlers of its validating webhook.
pub mod Handler
pub mod Validation
pub mod Panics
pub mod Mutation
mod Tests
use azure_admission_controll.Prelude.{String, Bool, true, false, not, ◌==◌, eqb_ℤ, if◌then◌else◌}
use azure_admission_controll.Error.{
  invalid_control_plane_endpoint_host, invalid_control_plane_endpoint_port,
  control_plane_endpoint_was_changed, unexpected_location, parsing_failed, invalid_operation,
}
use azure_admission_controll.Result.{Result, Check, accept, reject_if, or_else, deref, ◌>>=◌, ◌>>◌}
use azure_admission_controll.Objects.{AzureCluster, Object, is_zero_time}
use azure_admission_controll.Platform.{Platform}
use azure_admission_controll.Key.{
  control_plane_endpoint_port, get_control_plane_endpoint_host, to_azure_cluster_ptr,
}
use azure_admission_controll.Semverhelper.{get_semver_from_labels}
use azure_admission_controll.Generic.{
  validate_organization_label_contains_existing_organization, validate_organization_label_unchanged,
}
use azure_admission_controll.Errors.{ignore_capi_error_for_field}
use azure_admission_controll.Cluster.{eqb_endpoint}
use azure_admission_controll.Releaseversion.{validate, equals}

unfoldable pub validate_control_plane_endpoint : AzureCluster → (base_domain : String) → Check
validate_control_plane_endpoint c base_domain = do
  reject_if
      (not
        (c.control_plane_endpoint.host == get_control_plane_endpoint_host c.meta.name base_domain))
      invalid_control_plane_endpoint_host
  reject_if (not (eqb_ℤ c.control_plane_endpoint.port control_plane_endpoint_port))
      invalid_control_plane_endpoint_port

unfoldable pub validate_control_plane_endpoint_unchanged : AzureCluster → AzureCluster → Check
validate_control_plane_endpoint_unchanged old new =
    reject_if (not (eqb_endpoint old.control_plane_endpoint new.control_plane_endpoint))
      control_plane_endpoint_was_changed

unfoldable pub validate_location : AzureCluster → (expected : String) → Check
validate_location c expected = reject_if (not (c.location == expected)) unexpected_location

-- What is let pass of the errors of the provider's own validation.
abbrev pub ignore_on_create : Check → Check
ignore_on_create r = ignore_capi_error_for_field "spec.SubscriptionID" (
    ignore_capi_error_for_field "spec.networkSpec.subnets"
      (ignore_capi_error_for_field "metadata.Name" r))

abbrev pub ignore_on_update : Check → Check
ignore_on_update r = ignore_capi_error_for_field "spec.SubscriptionID" (
    ignore_capi_error_for_field "spec.networkSpec.apiServerLB" (
      ignore_capi_error_for_field "spec.networkSpec.subnets"
        (ignore_capi_error_for_field "metadata.Name" r)))

module _ (p : Platform) where
  -- A changed release is the one of the Cluster that owns the AzureCluster.
  abbrev pub check_owner : AzureCluster → p.Version → Check
  check_owner new version = do
    found ← p.client.get_owner_cluster new.meta
    owner ← deref found
    owner_version ← get_semver_from_labels p owner.meta.labels
    reject_if (not (equals p version owner_version)) invalid_operation

  unfoldable pub validate_release : AzureCluster → AzureCluster → Check
  validate_release old new = do
    old_version ← or_else (get_semver_from_labels p old.meta.labels) parsing_failed
    new_version ← or_else (get_semver_from_labels p new.meta.labels) parsing_failed
    if not (equals p new_version old_version) then check_owner new new_version else accept
    validate p old_version new_version

  unfoldable pub create_checks : AzureCluster → Check
  create_checks c = do
    ignore_on_create (p.vendor.validate_create_azure_cluster c)
    validate_organization_label_contains_existing_organization p c.meta
    validate_control_plane_endpoint c p.base_domain
    validate_location c p.location

  unfoldable pub on_create_validate : Object → Check
  unfolding to_azure_cluster_ptr create_checks
  on_create_validate object = do c ← to_azure_cluster_ptr object; create_checks c

  unfoldable pub update_checks : AzureCluster → AzureCluster → Check
  update_checks old new = do
    ignore_on_update (p.vendor.validate_update_azure_cluster new old)
    validate_organization_label_unchanged p old.meta new.meta
    validate_control_plane_endpoint_unchanged old new
    validate_release old new

  unfoldable pub on_update_validate : Object → Object → Check
  unfolding to_azure_cluster_ptr update_checks
  on_update_validate old_object object = do
    new ← to_azure_cluster_ptr object
    if not (is_zero_time new.meta.deletion_timestamp)
        then accept
        else do old ← to_azure_cluster_ptr old_object; update_checks old new
