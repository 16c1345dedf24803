-- ===== src/Generic/Tests.antt =====
-- The checks of the organization label on a platform with one organization and one cluster.
use azure_admission_controll.Prelude.{
  String, [], ◌∷◌, none, some, ◌≡◌, refl, ◌↔◌, get, pos, Map, true, false,
}
use azure_admission_controll.Error.{
  organization_label_was_changed, organization_not_found, nodepool_org_does_not_match_cluster_org,
}
use azure_admission_controll.Result.{ok, err, accept}
use azure_admission_controll.Objects.{ObjectMeta, Cluster}
use azure_admission_controll.Platform.{Platform}
use azure_admission_controll.Normalize.{
  as_dns_label_name, full_name, strip_both, strip, collect, append_rune,
}
use azure_admission_controll.Generic.{
  validate_organization_label_unchanged, validate_organization_label_matches_cluster,
  validate_organization_label_contains_existing_organization, is_capi_release, is_capi_version,
  release_version,
}
use azure_admission_controll.Generic.Organization.{
  organization_of, validate_organization_label_matches_cluster_iff,
}
use azure_admission_controll.Example.{platform, empty, plain}

abbrev labelled : String → Map String → ObjectMeta
labelled name labels = record (plain "org-giantswarm" name) { labels = labels }

abbrev pub owned : ObjectMeta
owned =
    labelled "abc12"
      (("giantswarm.io/organization", "giantswarm") ∷ ("giantswarm.io/cluster", "abc12") ∷ [])

abbrev moved : ObjectMeta
moved =
    labelled "abc12"
      (("giantswarm.io/organization", "other") ∷ ("giantswarm.io/cluster", "abc12") ∷ [])

abbrev cluster : Cluster
cluster = record {
  meta = owned;
  cluster_network = none;
  control_plane_endpoint = record { host = ""; port = pos 0 };
  conditions = [];
}

abbrev pub here : Platform
here = platform (record empty { clusters = cluster ∷ []; organizations = "giantswarm" ∷ [] })

unfoldable pub runs : Unit {0}
unfolding validate_organization_label_unchanged validate_organization_label_matches_cluster
    validate_organization_label_contains_existing_organization as_dns_label_name full_name
    strip_both strip collect append_rune is_capi_release is_capi_version release_version
runs = tt

organization_cases :
    (validate_organization_label_unchanged here owned owned ≡ accept)
    × (validate_organization_label_unchanged here owned moved ≡ err organization_label_was_changed)
    × (validate_organization_label_matches_cluster here owned ≡ accept)
    × (validate_organization_label_matches_cluster here moved
        ≡ err nodepool_org_does_not_match_cluster_org)
    × (validate_organization_label_contains_existing_organization here owned ≡ accept)
    × (validate_organization_label_contains_existing_organization here moved
        ≡ err organization_not_found)
unfolding runs
organization_cases = (refl, refl, refl, refl, refl, refl)

capi_cases :
    (is_capi_release here (labelled "a" (("release.giantswarm.io/version", "v20.0.0") ∷ []))
      ≡ ok true)
    × (is_capi_release here (labelled "a" (("release.giantswarm.io/version", "19.1.0") ∷ []))
        ≡ ok false)
    × (is_capi_release here (labelled "a" []) ≡ ok false)
unfolding runs
capi_cases = (refl, refl, refl)

validate_organization_label_matches_cluster_iff_example :
    (validate_organization_label_matches_cluster here owned ≡ accept) ↔ (
      (org : String) × (name : String) × (c : Cluster) × (organization_of here owned ≡ some org)
      × (get here.names.cluster_label owned.labels ≡ some name)
      × (here.client.list_clusters name ≡ ok (c ∷ []))
      × (organization_of here c.meta ≡ some org))
validate_organization_label_matches_cluster_iff_example =
    validate_organization_label_matches_cluster_iff here owned
