-- ===== src/Azuremachine.antt =====
-- pkg/azuremachine: the checks of an AzureMachine and the handlers of its validating webhook.
pub mod Handler
pub mod Domains
pub mod Update
pub mod Mutation
mod Tests
use azure_admission_controll.Prelude.{
  String, List, [], ◌∷◌, Option, none, some, Bool, true, false, not, ◌==◌, any, if◌then◌else◌,
}
use azure_admission_controll.Error.{
  Error, location_with_no_failure_domain_support, unsupported_failure_domain,
  failure_domain_was_changed, unexpected_location, location_was_changed, ssh_field_is_set,
  parsing_failed,
}
use azure_admission_controll.Result.{Result, Check, err, accept, reject_if, or_else}
use azure_admission_controll.Result
use azure_admission_controll.Exec.{Exec, lift, pure, ◌>>=◌, ◌>>◌}
use azure_admission_controll.Objects.{AzureMachine, Object, is_zero_time}
use azure_admission_controll.Platform.{Platform}
use azure_admission_controll.Key.{to_azure_machine_ptr}
use azure_admission_controll.Semverhelper.{get_semver_from_labels}
use azure_admission_controll.Generic.{
  validate_organization_label_contains_existing_organization, validate_organization_label_unchanged,
}
use azure_admission_controll.Errors.{ignore_capi_error_for_field}
use azure_admission_controll.Vmcapabilities.{Cache, Skus, supported_azs}
use azure_admission_controll.Releaseversion.{validate}

-- What is said of a domain that is not among the supported ones.
abbrev unsupported : List String → Check
unsupported [] = err location_with_no_failure_domain_support
unsupported (az ∷ azs) = err unsupported_failure_domain

abbrev pub check_domain : Option String → List String → Check
check_domain none azs = accept
check_domain (some domain) azs =
    if domain == ""
    then accept
    else if any (λ az. domain == az) azs
    then accept
    else unsupported azs

unfoldable pub validate_failure_domain : AzureMachine → List String → Check
validate_failure_domain m supported = check_domain m.failure_domain supported

-- nil and "" are synonyms.
abbrev pub domain_unchanged : Option String → Option String → Check
domain_unchanged none none = accept
domain_unchanged none (some b) = reject_if (not (b == "")) failure_domain_was_changed
domain_unchanged (some a) none = reject_if (not (a == "")) failure_domain_was_changed
domain_unchanged (some a) (some b) = reject_if (not (a == b)) failure_domain_was_changed

unfoldable pub validate_failure_domain_unchanged : AzureMachine → AzureMachine → Check
validate_failure_domain_unchanged old new = domain_unchanged old.failure_domain new.failure_domain

unfoldable pub validate_location : AzureMachine → (expected : String) → Check
validate_location m expected = reject_if (not (m.location == expected)) unexpected_location

unfoldable pub validate_location_unchanged : AzureMachine → AzureMachine → Check
validate_location_unchanged old new =
    reject_if (not (old.location == new.location)) location_was_changed

unfoldable pub check_ssh_key_is_empty : AzureMachine → Check
check_ssh_key_is_empty m = reject_if (not (m.ssh_public_key == "")) ssh_field_is_set

module _ (p : Platform) (azure : String → Result Cache) where
  unfoldable pub create_checks : AzureMachine → Exec Skus (Unit {0})
  create_checks m = do
    lift (ignore_capi_error_for_field "sshPublicKey" (p.vendor.validate_create_azure_machine m))
    lift (validate_organization_label_contains_existing_organization p m.meta)
    lift (check_ssh_key_is_empty m)
    lift (validate_location m p.location)
    supported ← supported_azs azure m.location m.vm_size
    lift (validate_failure_domain m supported)

  unfoldable pub on_create_validate : Object → Exec Skus (Unit {0})
  unfolding to_azure_machine_ptr create_checks
  on_create_validate object = do m ← lift (to_azure_machine_ptr object); create_checks m

module _ (p : Platform) where
  -- The tail of `OnUpdateValidate`.
  abbrev pub release_checks : AzureMachine → AzureMachine → Check
  release_checks old new =
      Result.◌>>=◌ (or_else (get_semver_from_labels p old.meta.labels) parsing_failed) λ v.
        Result.◌>>=◌ (or_else (get_semver_from_labels p new.meta.labels) parsing_failed)
          λ w. validate p v w

  abbrev pub update_checks : AzureMachine → AzureMachine → Check
  update_checks old new =
      Result.◌>>◌
        (ignore_capi_error_for_field "sshPublicKey"
          (p.vendor.validate_update_azure_machine new old))
        (Result.◌>>◌ (check_ssh_key_is_empty new) (
          Result.◌>>◌ (validate_organization_label_unchanged p old.meta new.meta) (
            Result.◌>>◌ (validate_location_unchanged old new)
              (Result.◌>>◌ (validate_failure_domain_unchanged old new) (release_checks old new)))))

  unfoldable pub on_update_validate : Object → Object → Check
  unfolding to_azure_machine_ptr
  on_update_validate old_object object = Result.◌>>=◌ (to_azure_machine_ptr object) λ new.
      if not (is_zero_time new.meta.deletion_timestamp)
      then accept
      else Result.◌>>=◌ (to_azure_machine_ptr old_object) λ old. update_checks old new
