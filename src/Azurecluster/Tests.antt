-- ===== src/Azurecluster/Tests.antt =====
-- AzureClusters that the webhook admits and refuses.
use azure_admission_controll.Deleting.{DeletedOr}
use azure_admission_controll.Prelude.{String, ◌≢◌, [], ◌∷◌, ◌≡◌, refl, ◌↔◌, pos, true}
use azure_admission_controll.Error.{control_plane_endpoint_was_changed, unexpected_location}
use azure_admission_controll.Result.{panic, err, accept}
use azure_admission_controll.Objects.{AzureCluster, azure_cluster}
use azure_admission_controll.Azurecluster.{
  validate_release, validate_control_plane_endpoint_unchanged, validate_location,
  on_create_validate, on_update_validate,
}
use azure_admission_controll.Azurecluster.Panics.{IsOrphanUpgrade, validate_release-panic}
use azure_admission_controll.Azurecluster.Validation.{
  IsCreatable, IsUpdatable, on_create_validate-azure_cluster, on_update_validate-azure_cluster,
}
use azure_admission_controll.Example.{plain}
use azure_admission_controll.Generic.Tests.{here, owned}

abbrev sample : AzureCluster
sample = record {
  meta = owned;
  location = "westeurope";
  control_plane_endpoint = record { host = "api.abc12.k8s.example.io"; port = pos 443 };
  api_server_lb = record { name = ""; sku = ""; type = ""; frontend_ips = []; rest_is_zero = true };
}

abbrev moved : AzureCluster
moved = record sample { control_plane_endpoint = record { host = ""; port = pos 443 } }

field_cases :
    (validate_control_plane_endpoint_unchanged sample sample ≡ accept)
    × (validate_control_plane_endpoint_unchanged sample moved
        ≡ err control_plane_endpoint_was_changed)
    × (validate_location sample "northeurope" ≡ err unexpected_location)
unfolding validate_control_plane_endpoint_unchanged validate_location
field_cases = (refl, refl, refl)

on_create_validate-azure_cluster_example :
    (on_create_validate here (azure_cluster sample) ≡ accept) ↔ IsCreatable here sample
on_create_validate-azure_cluster_example = on_create_validate-azure_cluster here sample

on_update_validate-azure_cluster_example :
    (on_update_validate here (azure_cluster sample) (azure_cluster moved) ≡ accept)
    ↔ DeletedOr moved.meta (IsUpdatable here sample moved)
on_update_validate-azure_cluster_example = on_update_validate-azure_cluster here sample moved

abbrev released : String → AzureCluster
released v = record sample {
  meta = record (plain "org" "orphan") { labels = ("release.giantswarm.io/version", v) ∷ [] };
}

answers : here.client.list_releases ≢ panic
answers h = cc

validate_release-panic_example :
    (validate_release here (released "11.3.0") (released "11.4.0") ≡ panic)
    ↔ IsOrphanUpgrade here (released "11.3.0") (released "11.4.0")
validate_release-panic_example =
    validate_release-panic here answers (released "11.3.0") (released "11.4.0") (λ h. cc)
