-- ===== src/Generic.antt =====
-- pkg/generic: the labels that every resource carries (meta.go, capi.go and
-- validate_organization_label.go).
pub mod Organization
pub mod Tests
use azure_admission_controll.Prelude.{
  String, List, [], ◌∷◌, Option, none, some, Bool, true, false, not, ◌==◌, Ordering, codes, get,
  get_or_empty, if◌then◌else◌, ℕ, starts_with, slice, len, ◌-◌,
}
use azure_admission_controll.Error.{
  Error, organization_label_not_found, organization_label_was_changed, organization_not_found,
  cluster_label_not_found, cluster_not_found, nodepool_org_does_not_match_cluster_org,
  generic_parsing_failed, external,
}
use azure_admission_controll.Result.{
  Result, ok, err, Check, accept, ◌>>=◌, ◌>>◌, reject_if, require, or_else,
}
use azure_admission_controll.Objects.{ObjectMeta, Cluster}
use azure_admission_controll.Platform.{Platform, Lookup, found, missing, failed}
use azure_admission_controll.Normalize.{as_dns_label_name}

-- `FirstCAPIRelease`
abbrev pub first_capi_release : String
first_capi_release = "20.0.0-v1alpha3"

-- `strings.TrimPrefix(s, "v")`
abbrev trim_v : String → String
trim_v s = if starts_with s "v" then slice s 1 (len s) else s

module _ (p : Platform) where
  unfoldable pub is_capi_version : p.Version → Result Bool
  is_capi_version version = do
    capi ← require (p.parse first_capi_release) generic_parsing_failed
    ok (elim (p.compare version capi) [ Ordering.lt ↦ false | _ ↦ true ])

  unfoldable pub release_version : ObjectMeta → Result p.Version
  unfolding get
  release_version meta = do
    version ← require (get p.names.release_version meta.labels) generic_parsing_failed
    require (p.parse (trim_v version)) (external "semver")

  unfoldable pub is_capi_release : ObjectMeta → Result Bool
  unfolding is_capi_version release_version get_or_empty
  is_capi_release meta =
      if get_or_empty p.names.release_version meta.labels == "" then ok false else do
        version ← or_else (release_version meta) generic_parsing_failed
        is_capi_version version

  -- A nil map of labels reads like an empty one.
  unfoldable pub try_get_cluster_name : ObjectMeta → Option String
  unfolding get_or_empty
  try_get_cluster_name meta =
      let capi_name = get_or_empty p.names.capi_cluster_name meta.labels in
      let name =
        if capi_name == "" then get_or_empty p.names.cluster_label meta.labels else capi_name in
      if name == "" then none else some name

  unfoldable pub try_get_owner_cluster : ObjectMeta → Result (Option Cluster)
  try_get_owner_cluster meta = elim (try_get_cluster_name meta) [
    | none ↦ ok none
    | some name ↦ elim (p.client.get_cluster meta.namespace name) [
      | found c ↦ ok (some c)
      | missing ↦ ok none
      | failed e ↦ err e
    ]
  ]

  unfoldable pub validate_organization_label_unchanged : ObjectMeta → ObjectMeta → Check
  validate_organization_label_unchanged old new = do
    old_org ← require (get p.names.organization old.labels) organization_label_not_found
    new_org ← require (get p.names.organization new.labels) organization_label_not_found
    reject_if (not (old_org == new_org)) organization_label_was_changed

  -- `AsDNSLabelName` at a text; the name that is looked up is compared as code points.
  unfoldable pub validate_organization_label_contains_existing_organization : ObjectMeta → Check
  validate_organization_label_contains_existing_organization meta = do
    organization ← require (get p.names.organization meta.labels) organization_label_not_found
    elim (p.client.get_organization (as_dns_label_name p (codes organization))) [
      | found _ ↦ accept
      | missing ↦ err organization_not_found
      | failed e ↦ err e
    ]

  abbrev exactly_one : List Cluster → Result Cluster
  exactly_one (c ∷ []) = ok c
  exactly_one _ = err cluster_not_found

  unfoldable pub validate_organization_label_matches_cluster : ObjectMeta → Check
  validate_organization_label_matches_cluster meta = do
    organization ← require (get p.names.organization meta.labels) organization_label_not_found
    cluster_name ← require (get p.names.cluster_label meta.labels) cluster_label_not_found
    clusters ← p.client.list_clusters cluster_name
    cluster ← exactly_one clusters
    cluster_org ←
        require (get p.names.organization cluster.meta.labels) organization_label_not_found
    reject_if (not (cluster_org == organization)) nodepool_org_does_not_match_cluster_org
