-- ===== src/Cluster/Mutation.antt =====
-- The handlers of the mutating webhook of Clusters (mutate_create.go, mutate_update.go).
use azure_admission_controll.Prelude.{
  List, [], ◌∷◌, Option, none, some, ◌==◌, eqb_ℤ, pos, if◌then◌else◌,
}
use azure_admission_controll.Result.{Result, ok, ◌>>=◌}
use azure_admission_controll.Objects.{ClusterNetwork, Cluster, Object, cluster}
use azure_admission_controll.Platform.{Platform}
use azure_admission_controll.Key.{
  control_plane_endpoint_port, cluster_network_service_cidr, service_domain,
  get_control_plane_endpoint_host, to_cluster_ptr,
}
use azure_admission_controll.Patch.{PatchOperation, text, number, network, patch_add}
use azure_admission_controll.Mutator.{
  with_defaults, copy_azure_operator_version_label_from_azure_cluster_cr,
  ensure_component_version_label_from_release,
}

abbrev pub default_network : ClusterNetwork
default_network = record {
  api_server_port = some control_plane_endpoint_port;
  service_domain = service_domain;
  services = some (record { cidr_blocks = some (cluster_network_service_cidr ∷ []) });
  pods = none;
}

unfoldable pub ensure_cluster_network : Cluster → Option PatchOperation
ensure_cluster_network c = elim c.cluster_network [
  | none ↦ some (patch_add "/spec/clusterNetwork" (network default_network))
  | some _ ↦ none
]

module _ (p : Platform) where
  unfoldable pub ensure_control_plane_endpoint_host : Cluster → Option PatchOperation
  ensure_control_plane_endpoint_host c =
      if c.control_plane_endpoint.host == ""
      then some (
          patch_add "/spec/controlPlaneEndpoint/host"
            (text (get_control_plane_endpoint_host c.meta.name p.base_domain)))
      else none

  unfoldable pub ensure_control_plane_endpoint_port : Cluster → Option PatchOperation
  ensure_control_plane_endpoint_port c =
      if eqb_ℤ c.control_plane_endpoint.port (pos 0)
      then some (patch_add "/spec/controlPlaneEndpoint/port" (number control_plane_endpoint_port))
      else none

  unfoldable pub on_create_mutate : Object → Result (List PatchOperation)
  unfolding to_cluster_ptr
  on_create_mutate object = do
    c ← to_cluster_ptr object
    with_defaults p
        (ok (ensure_cluster_network c)
          ∷ ok (ensure_control_plane_endpoint_host c)
          ∷ ok (ensure_control_plane_endpoint_port c)
          ∷ copy_azure_operator_version_label_from_azure_cluster_cr p c.meta
          ∷ [])
        (cluster c) (λ patches. patches)

  unfoldable pub on_update_mutate : Object → Result (List PatchOperation)
  unfolding to_cluster_ptr
  on_update_mutate object = do
    c ← to_cluster_ptr object
    with_defaults p
        (ensure_component_version_label_from_release p c.meta "azure-operator"
            p.names.azure_operator_version
          ∷ ensure_component_version_label_from_release p c.meta "cluster-operator"
              p.names.cluster_operator_version
          ∷ [])
        (cluster c) (λ patches. patches)
