-- ===== src/Release/Tests.antt =====
-- Objects of a legacy release and others.
use azure_admission_controll.Prelude.{
  String, [], ◌∷◌, none, true, false, ◌≡◌, refl, ◌↔◌, get, put, get_or_empty,
}
use azure_admission_controll.Error.{parsing_failed}
use azure_admission_controll.Result.{ok, err}
use azure_admission_controll.Objects.{ObjectMeta, Release}
use azure_admission_controll.Platform.{Platform}
use azure_admission_controll.Release.{
  find_release, is_legacy, contains_azure_operator, get_component_versions_from_release_cr,
  try_find_release_for_object, is_object_reconciled_by_legacy_release,
}
use azure_admission_controll.Release.Legacy.{
  IsLegacyObject, is_object_reconciled_by_legacy_release-IsLegacyObject,
}
use azure_admission_controll.Example.{platform, empty, plain, release}

abbrev capi : Release
capi = record (release "v20.0.0" false "active") { components = [] }

abbrev here : Platform
here = platform (record empty { releases = release "v11.3.0" false "active" ∷ capi ∷ [] })

abbrev labelled : String → ObjectMeta
labelled v = record (plain "org" "abc12") { labels = ("release.giantswarm.io/version", v) ∷ [] }

legacy_cases :
    (is_object_reconciled_by_legacy_release here (labelled "11.3.0") (ok none) ≡ ok true)
    × (is_object_reconciled_by_legacy_release here (labelled "v20.0.0") (ok none) ≡ ok false)
    × (is_object_reconciled_by_legacy_release here (labelled "12.0.0") (ok none) ≡ ok false)
    × (is_object_reconciled_by_legacy_release here (plain "org" "x") (ok none) ≡ ok false)
    × (is_object_reconciled_by_legacy_release here (plain "org" "x") (err parsing_failed)
        ≡ err parsing_failed)
unfolding find_release is_legacy contains_azure_operator get_component_versions_from_release_cr
    try_find_release_for_object is_object_reconciled_by_legacy_release get put get_or_empty
legacy_cases = (refl, refl, refl, refl, refl)

is_object_reconciled_by_legacy_release-IsLegacyObject_example :
    (is_object_reconciled_by_legacy_release here (labelled "11.3.0") (ok none) ≡ ok true)
    ↔ IsLegacyObject here (labelled "11.3.0") (ok none)
is_object_reconciled_by_legacy_release-IsLegacyObject_example =
    is_object_reconciled_by_legacy_release-IsLegacyObject here (labelled "11.3.0") (ok none)
