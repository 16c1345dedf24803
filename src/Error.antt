-- ===== src/Error.antt =====
-- The errors that the components return. `microerror.Mask` and `Maskf` keep the cause of an error
-- (an `Is…` matcher compares the cause), so an error is its cause; message texts are left out.
use azure_admission_controll.Prelude.{String, List, Option}

-- metav1.StatusCause and metav1.Status, as internal/errors/errors.go reads them.
pub record StatusCause : Type 0 where
  pub field : String
  pub message : String

pub record Status : Type 0 where
  pub reason : String
  pub message : String
  pub details : Option (List StatusCause)

-- One constructor for each name of a `microerror.Error` variable (packages that declare one of the
-- same name and meaning share it), a status of the API machinery, and any other error of code
-- outside the repository.
pub data Error : Type 0 where
  -- internal/errors
  invalid_condition_modification invalid_operation invalid_release not_found : Error
  parsing_failed wrong_type : Error
  -- internal/releaseversion
  release_not_found downgrading_is_not_allowed upgrading_to_or_from_alpha_release : Error
  skipping_release : Error
  -- internal/scheduledupgrades
  not_allowed : Error
  -- internal/vmcapabilities
  invalid_request invalid_upstream_response sku_not_found : Error
  -- pkg/generic
  cluster_label_not_found cluster_not_found organization_label_not_found : Error
  organization_label_was_changed organization_not_found : Error
  nodepool_org_does_not_match_cluster_org generic_parsing_failed : Error
  -- pkg/release
  release_cr_not_found : Error
  -- pkg/mutator
  azure_operator_version_label_not_found mutator_cluster_label_not_found : Error
  component_not_found_in_release release_label_not_found : Error
  -- pkg/cluster
  cluster_network_was_changed empty_cluster_network empty_cluster_network_services : Error
  unexpected_api_server_port unexpected_service_domain unexpected_cidr_blocks : Error
  -- pkg/cluster and pkg/azurecluster
  invalid_control_plane_endpoint_host invalid_control_plane_endpoint_port : Error
  control_plane_endpoint_was_changed : Error
  -- pkg/azurecluster, pkg/azuremachine, pkg/azuremachinepool, pkg/machinepool
  unexpected_location location_was_changed ssh_field_is_set : Error
  failure_domain_was_changed unsupported_failure_domain : Error
  location_with_no_failure_domain_support : Error
  -- pkg/azuremachinepool
  accelerated_networking_was_changed vmsize_does_not_support_accelerated_networking : Error
  switch_to_vm_size_that_does_not_support_accelerated_networking : Error
  datadisks_field_is_set insufficient_cpu insufficient_memory : Error
  invalid_storage_account_type premium_storage_not_supported_by_vmsize : Error
  spot_vm_options_was_changed storage_account_was_changed : Error
  -- pkg/machinepool
  azure_machine_pool_not_found : Error
  -- pkg/azureupdate
  availability_zones_change master_cidr_change : Error
  -- pkg/*: constructors of handlers
  invalid_config : Error
  -- code outside the repository
  api_status : Status → Error
  external : String → Error
