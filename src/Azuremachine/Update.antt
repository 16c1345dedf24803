-- ===== src/Azuremachine/Update.antt =====
-- Which updates of an AzureMachine the webhook admits.
use azure_admission_controll.Prelude.{◌≡◌, ◌↔◌, arith, eq_iff}
use azure_admission_controll.Error.{parsing_failed}
use azure_admission_controll.Deleting.{DeletedOr, unless_deleted}
use azure_admission_controll.Result.{ok, accept, >>=-eq-ok, or_else}
use azure_admission_controll.Objects.{AzureMachine, azure_machine}
use azure_admission_controll.Platform.{Platform}
use azure_admission_controll.Semverhelper.{get_semver_from_labels}
use azure_admission_controll.Generic.{validate_organization_label_unchanged}
use azure_admission_controll.Errors.{ignore_capi_error_for_field}
use azure_admission_controll.Scheduledupgrades.Window.{or_else-eq-ok}
use azure_admission_controll.Releaseversion.Spec.{Allowed}
use azure_admission_controll.Releaseversion.Refinement.{validate-Allowed}
use azure_admission_controll.Azuremachine.{
  validate_location_unchanged, check_ssh_key_is_empty, release_checks, on_update_validate,
}
use azure_admission_controll.Azuremachine.Domains.{asked, validate_failure_domain_unchanged_iff}

module _ (p : Platform) (old new : AzureMachine) where
  -- The machine may change from its release to the new one.
  pub record MayChange : Type 0 where
    pub old_version : p.Version
    pub old_known : get_semver_from_labels p old.meta.labels ≡ ok old_version
    pub new_version : p.Version
    pub new_known : get_semver_from_labels p new.meta.labels ≡ ok new_version
    pub allowed : Allowed p old_version new_version

  release_iff : (release_checks p old new ≡ accept) ↔ MayChange
  release_iff = (
    λ h.
        let (v, v_known, h₁) =
          >>=-eq-ok (or_else (get_semver_from_labels p old.meta.labels) parsing_failed) _ h in
        let (w, w_known, h₂) =
          >>=-eq-ok (or_else (get_semver_from_labels p new.meta.labels) parsing_failed) _ h₁ in
        record {
          old_version = v;
          old_known = or_else-eq-ok p _ _ v_known;
          new_version = w;
          new_known = or_else-eq-ok p _ _ w_known;
          allowed = (validate-Allowed p v w).0 h₂;
        },
    λ m. ground (
      arith,
      m.old_known,
      m.new_known,
      (validate-Allowed p m.old_version m.new_version).1 m.allowed,
    ),
  )

  pub record IsUpdatable : Type 0 where
    pub vendor :
        ignore_capi_error_for_field "sshPublicKey" (p.vendor.validate_update_azure_machine new old)
        ≡ accept
    pub no_ssh_key : new.ssh_public_key ≡ ""
    pub organization : validate_organization_label_unchanged p old.meta new.meta ≡ accept
    pub location : old.location ≡ new.location
    pub domain : asked old.failure_domain ≡ asked new.failure_domain
    pub release : MayChange

  -- The webhook admits the update of an AzureMachine exactly when it is being deleted, or: the
  -- provider has no error but for the SSH key, there is no SSH key, organization and location and the
  -- failure domain that is asked for are kept, and the specification allows the change of release.
  pub on_update_validate-azure_machine :
      (on_update_validate p (azure_machine old) (azure_machine new) ≡ accept)
      ↔ DeletedOr new.meta IsUpdatable
  unfolding on_update_validate check_ssh_key_is_empty validate_location_unchanged
  on_update_validate-azure_machine =
      let domain = validate_failure_domain_unchanged_iff old new in
      unless_deleted new.meta _ (
        λ h. record {
          vendor = ground arith;
          no_ssh_key = ground (arith, eq_iff new.ssh_public_key "");
          organization = ground arith;
          location = ground (arith, eq_iff old.location new.location);
          domain = domain.0 (ground arith);
          release = release_iff.0 (ground arith);
        },
        λ c. ground (
          arith,
          c.vendor,
          c.no_ssh_key,
          c.organization,
          c.location,
          domain.1 c.domain,
          release_iff.1 c.release,
          eq_iff new.ssh_public_key "",
          eq_iff old.location new.location,
        ),
      )
