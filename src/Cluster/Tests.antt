-- ===== src/Cluster/Tests.antt =====
-- Clusters that the webhook admits and refuses.
use azure_admission_controll.Deleting.{DeletedOr}
use azure_admission_controll.Cluster.History.{History, start, update, History-creation_completed}
use azure_admission_controll.Conditions.{
  validate_all, validate_new_status_unknown_is_not_allowed,
  validate_new_status_must_be_either_true_or_false, validate_removing_condition_is_not_allowed,
  validate_creating_condition, validate_upgrading_condition, validate_cluster_conditions,
}
use azure_admission_controll.Conditions.Transitions.{DistinctStatuses, HasStatus, creating}
use azure_admission_controll.Semverhelper.{get_semver_from_labels, get_semver_from_string}
use azure_admission_controll.Releaseversion.{validate}
use azure_admission_controll.Scheduledupgrades.{
  validate_cluster_annotation_upgrade_time, validate_cluster_annotation_upgrade_release,
}
use azure_admission_controll.Prelude.{
  List, arith, eq_iff, get, [], ◌∷◌, Option, none, some, ◌≡◌, refl, ◌↔◌, pos,
}
use azure_admission_controll.Error.{
  invalid_control_plane_endpoint_host, cluster_network_was_changed,
}
use azure_admission_controll.Result.{ok, err, panic, accept}
use azure_admission_controll.Objects.{ClusterNetwork, Cluster, cluster}
use azure_admission_controll.Key.{get_control_plane_endpoint_host}
use azure_admission_controll.Cluster.{
  validate_control_plane_endpoint_unchanged, validate_release, validate_cluster_network,
  validate_cluster_network_unchanged, validate_control_plane_endpoint, on_create_validate,
  on_update_validate,
}
use azure_admission_controll.Cluster.Network.{LacksPort, validate_cluster_network_unchanged-panic}
use azure_admission_controll.Cluster.Create.{IsCreatable, on_create_validate-cluster}
use azure_admission_controll.Cluster.Update.{IsUpdatable, on_update_validate-cluster}
use azure_admission_controll.Cluster.Mutation.{default_network}
use azure_admission_controll.Platform.{Platform}
use azure_admission_controll.Patch
use azure_admission_controll.Patch.{PatchOperation, text, number, patch_add}
use azure_admission_controll.Generic.Tests.{here, owned, runs}
use azure_admission_controll.Scheduledupgrades.Tests.{clock}

abbrev network : Option ClusterNetwork
network = some (record {
  api_server_port = some (pos 443);
  service_domain = "cluster.local";
  services = some (record { cidr_blocks = some ("172.31.0.0/16" ∷ []) });
  pods = none;
})

abbrev without_port : Option ClusterNetwork
without_port = some (record {
  api_server_port = none;
  service_domain = "cluster.local";
  services = none;
  pods = none;
})

abbrev pub sample : Cluster
sample = record {
  meta = record owned {
    labels =
        ("giantswarm.io/organization", "giantswarm")
        ∷ ("release.giantswarm.io/version", "11.3.0")
        ∷ [];
  };
  cluster_network = network;
  control_plane_endpoint = record { host = "api.abc12.k8s.example.io"; port = pos 443 };
  conditions = [];
}

abbrev pub portless : Cluster
portless = record sample { cluster_network = without_port }

abbrev deleted : Cluster
deleted = record portless { meta = record owned { deletion_timestamp = some 1 } }

network_cases :
    (validate_cluster_network sample ≡ accept)
    × (validate_cluster_network portless ≡ panic)
    × (validate_cluster_network_unchanged sample sample ≡ accept)
    × (validate_cluster_network_unchanged sample (record sample { cluster_network = none })
        ≡ err cluster_network_was_changed)
    × (validate_cluster_network_unchanged sample portless ≡ panic)
unfolding validate_cluster_network validate_cluster_network_unchanged
network_cases = (refl, refl, refl, refl, refl)

endpoint_cases :
    (validate_control_plane_endpoint sample "k8s.example.io" ≡ accept)
    × (validate_control_plane_endpoint sample "example.io"
        ≡ err invalid_control_plane_endpoint_host)
unfolding validate_control_plane_endpoint get_control_plane_endpoint_host
endpoint_cases = (refl, refl)

validate_cluster_network_unchanged-panic_example :
    (validate_cluster_network_unchanged sample portless ≡ panic) ↔ LacksPort network without_port
validate_cluster_network_unchanged-panic_example =
    validate_cluster_network_unchanged-panic sample portless

on_create_validate-cluster_example :
    (on_create_validate here clock (cluster sample) ≡ accept) ↔ IsCreatable here clock sample
on_create_validate-cluster_example = on_create_validate-cluster here clock sample

on_update_validate-cluster_example :
    (on_update_validate here clock (cluster sample) (cluster portless) ≡ accept)
    ↔ DeletedOr portless.meta (IsUpdatable here clock sample portless)
on_update_validate-cluster_example = on_update_validate-cluster here clock sample portless

abbrev created : Cluster
created = record sample { conditions = record { type = "Creating"; status = "False" } ∷ [] }

abbrev upgraded : Cluster
upgraded = record sample {
  conditions =
      record { type = "Creating"; status = "False" }
      ∷ record { type = "Upgrading"; status = "False" }
      ∷ [];
}

distinct : DistinctStatuses here
distinct = record {
  unknown_true = ground (arith, eq_iff "Unknown" "True");
  unknown_false = ground (arith, eq_iff "Unknown" "False");
}

completed : History here clock created upgraded
unfolding on_update_validate runs get_semver_from_labels get_semver_from_string get validate
    validate_cluster_network_unchanged validate_control_plane_endpoint_unchanged
    validate_cluster_conditions validate_creating_condition validate_upgrading_condition
    validate_all validate_new_status_unknown_is_not_allowed
    validate_new_status_must_be_either_true_or_false validate_removing_condition_is_not_allowed
    validate_cluster_annotation_upgrade_time validate_cluster_annotation_upgrade_release
    validate_release
completed = update start refl refl

History-creation_completed_example : HasStatus (creating here upgraded) here.names.condition_false
History-creation_completed_example =
    History-creation_completed here clock distinct {c = created} {d = upgraded} refl completed

abbrev bare : Cluster
bare = record sample {
  meta = record owned { labels = ("azure-operator.giantswarm.io/version", "5.0.0") ∷ [] };
  cluster_network = none;
  control_plane_endpoint = record { host = ""; port = pos 0 };
}

-- Cluster API's own defaults set the namespace of a reference.
abbrev default_patch : PatchOperation
default_patch = patch_add "/spec/infrastructureRef/namespace" (text "org-giantswarm")

abbrev installed : Platform
installed = record here {
  vendor = record here.vendor { default_patches = λ _. ok (default_patch ∷ []) };
}

abbrev patches : List PatchOperation
patches =
    patch_add "/spec/clusterNetwork" (Patch.network default_network)
    ∷ patch_add "/spec/controlPlaneEndpoint/host" (text "api.abc12.k8s.example.io")
    ∷ patch_add "/spec/controlPlaneEndpoint/port" (number (pos 443))
    ∷ default_patch
    ∷ []
