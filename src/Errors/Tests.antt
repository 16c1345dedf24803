-- ===== src/Errors/Tests.antt =====
-- Errors of Cluster API, with some of their causes let pass.
use azure_admission_controll.Prelude.{String, List, [], ◌∷◌, some, ◌≡◌, refl, ◌↔◌, ◌⊎◌}
use azure_admission_controll.Error.{Status, StatusCause, api_status, parsing_failed}
use azure_admission_controll.Result.{Check, err, panic, accept}
use azure_admission_controll.Errors.{
  longest_prefix, first_group, joined, with_causes, ignore_capi_error_for_field,
}
use azure_admission_controll.Errors.Ignoring.{IsOnlyAbout, ignore_capi_error_for_field_iff}

abbrev subnets : StatusCause
subnets = record { field = "spec.networkSpec.subnets[0]"; message = "bad" }

abbrev location : StatusCause
location = record { field = "spec.location"; message = "missing" }

abbrev invalid : String → List StatusCause → Check
invalid message causes =
    err (api_status (record { reason = "Invalid"; message = message; details = some causes }))

abbrev ignored : Check → Check
ignored r = ignore_capi_error_for_field "spec.networkSpec.subnets" r

runs : Unit {0}
unfolding longest_prefix first_group joined with_causes ignore_capi_error_for_field
runs = tt

ignoring_cases :
    (ignored (invalid "AzureCluster \"x\" is invalid: spec: bad" (subnets ∷ [])) ≡ accept)
    × (ignored (invalid "AzureCluster \"x\" is invalid: [a: b, c: d]" (subnets ∷ location ∷ []))
        ≡ invalid "AzureCluster \"x\" is invalid: [spec.location: missing]" (location ∷ []))
    × (ignored (invalid "is invalid: a is invalid: b" (location ∷ location ∷ []))
        ≡ invalid "is invalid: a is invalid: [spec.location: missing, spec.location: missing]"
            (location ∷ location ∷ []))
    × (ignored (invalid "no such phrase" (location ∷ [])) ≡ panic)
    × (ignored (err parsing_failed) ≡ err parsing_failed)
unfolding runs
ignoring_cases = (refl, refl, refl, refl, refl)

ignore_capi_error_for_field_iff_example :
    (ignored (invalid "x is invalid: y" (subnets ∷ [])) ≡ accept) ↔ (
      (invalid "x is invalid: y" (subnets ∷ []) ≡ accept)
      ⊎ ((status : Status) × (invalid "x is invalid: y" (subnets ∷ []) ≡ err (api_status status))
          × IsOnlyAbout "spec.networkSpec.subnets" status))
ignore_capi_error_for_field_iff_example =
    ignore_capi_error_for_field_iff "spec.networkSpec.subnets"
      (invalid "x is invalid: y" (subnets ∷ []))
