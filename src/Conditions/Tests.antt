-- ===== src/Conditions/Tests.antt =====
-- Cases of the conditions' checks, and the theorems at them.
use azure_admission_controll.Prelude.{
  String, List, [], ◌∷◌, Option, none, some, ◌≡◌, refl, ◌≢◌, ◌↔◌, inl, inr, get, arith, eq_iff,
}
use azure_admission_controll.Error.{invalid_condition_modification}
use azure_admission_controll.Result.{err, accept}
use azure_admission_controll.Objects.{Cluster}
use azure_admission_controll.Platform.{Platform}
use azure_admission_controll.Conditions.{
  validate_all, validate_new_status_unknown_is_not_allowed,
  validate_new_status_must_be_either_true_or_false, validate_removing_condition_is_not_allowed,
  validate_creating_condition, validate_upgrading_condition, validate_cluster_conditions,
}
use azure_admission_controll.Conditions.Transitions.{DistinctStatuses}
use azure_admission_controll.Example.{platform, empty, plain}

abbrev here : Platform
here = platform empty

-- A Cluster with a status for Creating and one for Upgrading.
abbrev cluster : String → String → Cluster
cluster c u = record {
  meta = plain "org" "abc12";
  cluster_network = none;
  control_plane_endpoint = record { host = ""; port = azure_admission_controll.Prelude.pos 0 };
  conditions =
      record { type = "Creating"; status = c } ∷ record { type = "Upgrading"; status = u } ∷ [];
}

runs : Unit {0}
unfolding validate_cluster_conditions validate_creating_condition validate_upgrading_condition
    validate_all validate_new_status_unknown_is_not_allowed
    validate_new_status_must_be_either_true_or_false validate_removing_condition_is_not_allowed
runs = tt

conditions_cases :
    (validate_cluster_conditions here (cluster "True" "False") (cluster "False" "True") ≡ accept)
    × (validate_cluster_conditions here (cluster "False" "False") (cluster "True" "False")
        ≡ err invalid_condition_modification)
    × (validate_cluster_conditions here (cluster "True" "False") (cluster "True" "Unknown")
        ≡ err invalid_condition_modification)
unfolding runs
conditions_cases = (refl, refl, refl)

distinct : DistinctStatuses here
distinct = record {
  unknown_true = ground (arith, eq_iff "Unknown" "True");
  unknown_false = ground (arith, eq_iff "Unknown" "False");
}
