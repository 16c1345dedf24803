-- ===== src/Azuremachine/Tests.antt =====
-- AzureMachines that the webhook admits and refuses.
use azure_admission_controll.Deleting.{DeletedOr}
use azure_admission_controll.Prelude.{String, [], ◌∷◌, Option, none, some, ◌≡◌, refl, ◌↔◌}
use azure_admission_controll.Error.{
  failure_domain_was_changed, unsupported_failure_domain, location_with_no_failure_domain_support,
}
use azure_admission_controll.Result.{err, accept}
use azure_admission_controll.Objects.{AzureMachine, azure_machine}
use azure_admission_controll.Azuremachine.{
  validate_failure_domain, validate_failure_domain_unchanged, on_create_validate,
  on_update_validate,
}
use azure_admission_controll.Azuremachine.Domains.{IsCreatable, on_create_validate-azure_machine}
use azure_admission_controll.Azuremachine.Update.{IsUpdatable, on_update_validate-azure_machine}
use azure_admission_controll.Generic.Tests.{here, owned}
use azure_admission_controll.Example.{azure, cold, cold-IsFaithful}

abbrev machine : Option String → AzureMachine
machine domain = record {
  meta = owned;
  location = "westeurope";
  vm_size = "Standard_D4s_v3";
  failure_domain = domain;
  ssh_public_key = "";
  caching_type = "";
}

domain_cases :
    (validate_failure_domain (machine (some "1")) ("1" ∷ "2" ∷ []) ≡ accept)
    × (validate_failure_domain (machine (some "3")) ("1" ∷ "2" ∷ [])
        ≡ err unsupported_failure_domain)
    × (validate_failure_domain (machine (some "3")) []
        ≡ err location_with_no_failure_domain_support)
    × (validate_failure_domain_unchanged (machine none) (machine (some "")) ≡ accept)
    × (validate_failure_domain_unchanged (machine (some "1")) (machine none)
        ≡ err failure_domain_was_changed)
unfolding validate_failure_domain validate_failure_domain_unchanged
domain_cases = (refl, refl, refl, refl, refl)

on_create_validate-azure_machine_example :
    ((on_create_validate here azure (azure_machine (machine (some "1"))) cold).0 ≡ accept)
    ↔ IsCreatable here azure (machine (some "1"))
on_create_validate-azure_machine_example =
    on_create_validate-azure_machine here azure (machine (some "1")) cold cold-IsFaithful

on_update_validate-azure_machine_example :
    (on_update_validate here (azure_machine (machine none)) (azure_machine (machine (some "")))
      ≡ accept)
    ↔ DeletedOr (machine (some "")).meta (IsUpdatable here (machine none) (machine (some "")))
on_update_validate-azure_machine_example =
    on_update_validate-azure_machine here (machine none) (machine (some ""))
