-- ===== src/Release.antt =====
-- pkg/release and pkg/filter: the Release CR of an object, and whether the object belongs to a release
-- that has an azure-operator, which is what these webhooks look after.
pub mod Legacy
mod Tests
use Prim.Native.String
use azure_admission_controll.Prelude.{
  String, List, [], ◌∷◌, Option, none, some, Bool, true, false, not, ◌==◌, starts_with, Map, put,
  get_or_empty, if◌then◌else◌,
}
use azure_admission_controll.Error.{Error, release_cr_not_found}
use azure_admission_controll.Result.{Result, ok, err, panic, ◌>>=◌}
use azure_admission_controll.Objects.{ObjectMeta, Cluster, Component, Release}
use azure_admission_controll.Platform.{Platform, found, missing, failed}

abbrev pub is_release_not_found_error : Error → Bool
is_release_not_found_error release_cr_not_found = true
is_release_not_found_error _ = false

abbrev azure_operator_component_name : String
azure_operator_component_name = "azure-operator"

-- The name of a Release CR starts with a "v".
abbrev pub release_name : String → String
release_name version = if starts_with version "v" then version else String.◌++◌ "v" version

abbrev pub add_components : Map String → List Component → Map String
add_components versions [] = versions
add_components versions (c ∷ cs) = add_components (put c.name c.version versions) cs

unfoldable pub get_component_versions_from_release_cr : Release → Map String
unfolding put
get_component_versions_from_release_cr release = add_components [] release.components

unfoldable pub contains_azure_operator : Release → Bool
contains_azure_operator release = not (
    get_or_empty azure_operator_component_name (get_component_versions_from_release_cr release)
    == "")

unfoldable pub is_legacy : Release → Bool
is_legacy release = contains_azure_operator release

-- `ok && cluster.Labels != nil && …`: a nil map reads like an empty one.
abbrev pub owner_label : Platform → Option Cluster → String
owner_label p none = ""
owner_label p (some c) = get_or_empty p.names.release_version c.meta.labels

module _ (p : Platform) where
  unfoldable pub find_release : String → Result Release
  find_release version = elim (p.client.get_release (release_name version)) [
    | found r ↦ ok r
    | missing ↦ err release_cr_not_found
    | failed e ↦ err e
  ]

  unfoldable pub get_component_versions_from_release : String → Result (Map String)
  get_component_versions_from_release version = do
    release ← find_release version
    ok (get_component_versions_from_release_cr release)

  -- The release label of the object, or else that of the Cluster that owns it.
  abbrev pub release_label : ObjectMeta → Result (Option Cluster) → Result String
  release_label meta owner =
      if not (get_or_empty p.names.release_version meta.labels == "")
      then ok (get_or_empty p.names.release_version meta.labels)
      else owner >>= λ c. ok (owner_label p c)

  abbrev pub found_release : String → Result (Option Release)
  found_release label = if label == "" then ok none else find_release label >>= λ r. ok (some r)

  unfoldable pub try_find_release_for_object :
      ObjectMeta → (owner : Result (Option Cluster)) → Result (Option Release)
  unfolding get_or_empty
  try_find_release_for_object meta owner = do label ← release_label meta owner; found_release label

  abbrev pub legacy_of : Result (Option Release) → Result Bool
  legacy_of (ok none) = ok false
  legacy_of (ok (some r)) = ok (is_legacy r)
  legacy_of (err e) = if is_release_not_found_error e then ok false else err e
  legacy_of panic = panic

  unfoldable pub is_object_reconciled_by_legacy_release :
      ObjectMeta → (owner : Result (Option Cluster)) → Result Bool
  is_object_reconciled_by_legacy_release meta owner =
      legacy_of (try_find_release_for_object meta owner)
