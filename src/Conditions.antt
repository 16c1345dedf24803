-- ===== src/Conditions.antt =====
-- internal/conditions: which changes of the conditions Creating and Upgrading a Cluster may make.
-- The controller validates a step of the condition's state: absent, or present with a status.
pub mod Transitions
mod Tests
use azure_admission_controll.Prelude.{
  String, List, [], ◌∷◌, Option, none, some, Bool, true, false, not, ◌&&◌, ◌==◌,
}
use azure_admission_controll.Error.{invalid_condition_modification}
use azure_admission_controll.Result.{Check, accept, reject_if, ◌>>◌, ◌>>=◌}
use azure_admission_controll.Objects.{Condition, Cluster}
use azure_admission_controll.Platform.{Platform}

module _ (p : Platform) where
  abbrev pub has_status : Option Condition → String → Bool
  has_status none status = false
  has_status (some c) status = c.status == status

  unfoldable pub validate_new_status_unknown_is_not_allowed :
      Option Condition → Option Condition → Check
  validate_new_status_unknown_is_not_allowed _ new =
      reject_if (has_status new p.names.condition_unknown) invalid_condition_modification

  unfoldable pub validate_new_status_must_be_either_true_or_false :
      Option Condition → Option Condition → Check
  validate_new_status_must_be_either_true_or_false _ none = accept
  validate_new_status_must_be_either_true_or_false _ (some new) =
      reject_if
        (not (new.status == p.names.condition_true) && not (new.status == p.names.condition_false))
        invalid_condition_modification

  unfoldable pub validate_removing_condition_is_not_allowed :
      Option Condition → Option Condition → Check
  validate_removing_condition_is_not_allowed (some _) none =
      reject_if true invalid_condition_modification
  validate_removing_condition_is_not_allowed _ _ = accept

  unfoldable pub validate_all :
      Option Condition
      → Option Condition
      → List (Option Condition → Option Condition → Check)
      → Check
  validate_all old new [] = accept
  validate_all old new (validation ∷ validations) = do
    validation old new
    validate_all old new validations

  -- The list `validations` of both conditions.
  abbrev validations : List (Option Condition → Option Condition → Check)
  validations =
      validate_new_status_unknown_is_not_allowed ∷ validate_new_status_must_be_either_true_or_false
      ∷ validate_removing_condition_is_not_allowed ∷ []

  -- `creationWasCompleted && nowIsInCreation`
  abbrev pub restarts : Option Condition → Option Condition → Bool
  restarts old new = has_status old p.names.condition_false && has_status new p.names.condition_true

  unfoldable pub validate_creating_condition : Cluster → Cluster → Check
  validate_creating_condition old new = do
    let old_creating = p.vendor.get_condition old p.names.creating_condition
    let new_creating = p.vendor.get_condition new p.names.creating_condition
    validate_all old_creating new_creating validations
    reject_if (restarts old_creating new_creating) invalid_condition_modification

  unfoldable pub validate_upgrading_condition : Cluster → Cluster → Check
  validate_upgrading_condition old new = do
    let old_upgrading = p.vendor.get_condition old p.names.upgrading_condition
    let new_upgrading = p.vendor.get_condition new p.names.upgrading_condition
    validate_all old_upgrading new_upgrading validations

  unfoldable pub validate_cluster_conditions : Cluster → Cluster → Check
  validate_cluster_conditions old new = do
    validate_creating_condition old new
    validate_upgrading_condition old new
