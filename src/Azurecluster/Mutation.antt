-- ===== src/Azurecluster/Mutation.antt =====
-- The handlers of the mutating webhook of AzureClusters (mutate_create.go, mutate_update.go,
-- api_server_lb.go).
use azure_admission_controll.Prelude.{
  String, List, [], ◌∷◌, Option, none, some, Bool, true, false, ◌&&◌, ◌==◌, eqb_ℤ, pos,
  if◌then◌else◌,
}
use azure_admission_controll.Result.{Result, ok, ◌>>=◌}
use azure_admission_controll.Objects.{
  FrontendIp, LoadBalancerSpec, AzureCluster, Object, azure_cluster,
}
use azure_admission_controll.Platform.{Platform}
use azure_admission_controll.Key.{
  control_plane_endpoint_port, get_control_plane_endpoint_host, to_azure_cluster_ptr,
  api_server_lb_name, api_server_lb_sku, api_server_lb_type, api_server_lb_frontend_ip_name,
}
use azure_admission_controll.Patch.{
  PatchOperation, text, number, load_balancer, patch_add, skip_for_path,
}
use azure_admission_controll.Mutator.{with_defaults, ensure_component_version_label_from_release}

abbrev pub desired_lb : String → LoadBalancerSpec
desired_lb name = record {
  name = api_server_lb_name name;
  sku = api_server_lb_sku;
  type = api_server_lb_type;
  frontend_ips = record { name = api_server_lb_frontend_ip_name name; rest_is_zero = true } ∷ [];
  rest_is_zero = true;
}

abbrev pub is_only_frontend : List FrontendIp → String → Bool
is_only_frontend (ip ∷ []) name = ip.name == name && ip.rest_is_zero
is_only_frontend _ name = false

-- `DeepEqual` of the load balancer with the one that `ensureAPIServerLB` builds.
abbrev pub is_desired_lb : String → LoadBalancerSpec → Bool
is_desired_lb name lb =
    lb.name == api_server_lb_name name
    && lb.sku == api_server_lb_sku
    && lb.type == api_server_lb_type
    && is_only_frontend lb.frontend_ips (api_server_lb_frontend_ip_name name)
    && lb.rest_is_zero

unfoldable pub ensure_api_server_lb : AzureCluster → Option PatchOperation
ensure_api_server_lb c =
    if is_desired_lb c.meta.name c.api_server_lb
    then none
    else some (patch_add "/spec/networkSpec/apiServerLB" (load_balancer (desired_lb c.meta.name)))

abbrev skip_networks : List PatchOperation → List PatchOperation
skip_networks patches =
    skip_for_path "/spec/networkSpec/subnets" (skip_for_path "/spec/networkSpec/vnet" patches)

module _ (p : Platform) where
  unfoldable pub ensure_control_plane_endpoint_host : AzureCluster → Option PatchOperation
  ensure_control_plane_endpoint_host c =
      if c.control_plane_endpoint.host == ""
      then some (
          patch_add "/spec/controlPlaneEndpoint/host"
            (text (get_control_plane_endpoint_host c.meta.name p.base_domain)))
      else none

  unfoldable pub ensure_control_plane_endpoint_port : AzureCluster → Option PatchOperation
  ensure_control_plane_endpoint_port c =
      if eqb_ℤ c.control_plane_endpoint.port (pos 0)
      then some (patch_add "/spec/controlPlaneEndpoint/port" (number control_plane_endpoint_port))
      else none

  unfoldable pub ensure_location : AzureCluster → Option PatchOperation
  ensure_location c =
      if c.location == "" then some (patch_add "/spec/location" (text p.location)) else none

  unfoldable pub on_create_mutate : Object → Result (List PatchOperation)
  unfolding to_azure_cluster_ptr
  on_create_mutate object = do
    c ← to_azure_cluster_ptr object
    with_defaults p
        (ok (ensure_control_plane_endpoint_host c)
          ∷ ok (ensure_control_plane_endpoint_port c)
          ∷ ok (ensure_location c)
          ∷ ok (ensure_api_server_lb c)
          ∷ ensure_component_version_label_from_release p c.meta "azure-operator"
              p.names.azure_operator_version
          ∷ [])
        (azure_cluster c) skip_networks

  unfoldable pub on_update_mutate : Object → Result (List PatchOperation)
  unfolding to_azure_cluster_ptr
  on_update_mutate object = do
    c ← to_azure_cluster_ptr object
    with_defaults p
        (ok (ensure_api_server_lb c)
          ∷ ensure_component_version_label_from_release p c.meta "azure-operator"
              p.names.azure_operator_version
          ∷ ensure_component_version_label_from_release p c.meta "cluster-operator"
              p.names.cluster_operator_version
          ∷ [])
        (azure_cluster c) skip_networks
