-- ===== src/Cluster/Defaults.antt =====
-- The defaults that the mutating webhook of Clusters sets are those that the validating one asks for.
use azure_admission_controll.Patch.Applying.{apply_maybe}
use azure_admission_controll.Objects.{Cluster}
use azure_admission_controll.Platform.{Platform}
use azure_admission_controll.Cluster.Mutation.{
  ensure_cluster_network, ensure_control_plane_endpoint_host, ensure_control_plane_endpoint_port,
}
use azure_admission_controll.Cluster.Patching.{apply}

module _ (p : Platform) (c : Cluster) where
  -- The Cluster with the handler's first three patches.
  abbrev defaulted : Cluster
  defaulted = apply_maybe apply (ensure_control_plane_endpoint_port p c) (
      apply_maybe apply (ensure_control_plane_endpoint_host p c)
        (apply_maybe apply (ensure_cluster_network c) c))
