-- ===== src/Azuremachine/Domains.antt =====
-- Which AzureMachines the webhook admits, and what it says of their failure domains.
use azure_admission_controll.Prelude.{
  String, List, [], ◌∷◌, Option, none, some, true, ◌≡◌, refl, ◌↔◌, inl, inr, ◌==◌, arith, eq_iff,
  eq_refl, Memᴰ, any, any_sound, any_complete, Bool-cases, sym, ◌∙◌, if◌then◌else◌,
}
use azure_admission_controll.Result.{Result, ok, Check, accept, ◌>>=◌, ◌>>◌, >>=-eq-ok}
use azure_admission_controll.Objects.{AzureMachine, azure_machine}
use azure_admission_controll.Platform.{Platform}
use azure_admission_controll.Generic.{validate_organization_label_contains_existing_organization}
use azure_admission_controll.Errors.{ignore_capi_error_for_field}
use azure_admission_controll.Vmcapabilities.{Cache, Skus}
use azure_admission_controll.Vmcapabilities.Caching.{
  IsFaithful, Answers, Answers-lift, Answers-bind, Answers-guard, direct_supported_azs,
  supported_azs-Answers,
}
use azure_admission_controll.Azuremachine.{
  unsupported, check_domain, validate_failure_domain, domain_unchanged,
  validate_failure_domain_unchanged, validate_location, check_ssh_key_is_empty, create_checks,
  on_create_validate,
}

-- The domain that a machine asks for; nil and "" ask for none.
abbrev pub asked : Option String → Option String
asked none = none
asked (some d) = if d == "" then none else some d

-- Nothing is asked for, or one of the supported zones.
pub data DomainAllowed (m : AzureMachine) (azs : List String) : Type 0 where
  nothing : asked m.failure_domain ≡ none → DomainAllowed m azs
  one_of : (d : String) → asked m.failure_domain ≡ some d → Memᴰ d azs → DomainAllowed m azs

member_iff : (d : String) (azs : List String) → any (λ az. d == az) azs ≡ true → Memᴰ d azs
member_iff d azs h =
    let (az, listed, e) = any_sound (λ s. d == s) azs h in
    let same : d ≡ az = (eq_iff d az).0 e in rw same listed

not_unsupported : (azs : List String) → ¬ (unsupported azs ≡ accept)
not_unsupported [] h = cc
not_unsupported (az ∷ azs) h = cc

domain_sound :
    (m : AzureMachine) (azs : List String) (o : Option String)
    → m.failure_domain ≡ o
    → check_domain o azs ≡ accept
    → DomainAllowed m azs
domain_sound m azs none e h = nothing (ground arith)
domain_sound m azs (some d) e h = elim (Bool-cases (d == "")) [
  | inl blank ↦ nothing (ground arith)
  | inr named ↦ elim (Bool-cases (any (λ az. d == az) azs)) [
    | inl listed ↦ one_of d (ground arith) (member_iff d azs listed)
    | inr unlisted ↦ absurd (not_unsupported azs (ground arith))
  ]
]

domain_complete :
    (m : AzureMachine) (azs : List String) (o : Option String)
    → m.failure_domain ≡ o
    → DomainAllowed m azs
    → check_domain o azs ≡ accept
domain_complete m azs none e a = refl
domain_complete m azs (some d) e (nothing a) = ground arith
domain_complete m azs (some d) e (one_of x a listed) =
    ground (arith, any_complete (λ s. x == s) azs listed (eq_refl x))

-- The failure domain of an AzureMachine is accepted exactly when it asks for none or for one of the
-- supported zones.
pub validate_failure_domain_iff :
    (m : AzureMachine) (azs : List String)
    → (validate_failure_domain m azs ≡ accept) ↔ DomainAllowed m azs
unfolding validate_failure_domain
validate_failure_domain_iff m azs =
    (domain_sound m azs m.failure_domain refl, domain_complete m azs m.failure_domain refl)

-- An update keeps the failure domain that is asked for, where nil and "" ask for the same.
pub validate_failure_domain_unchanged_iff :
    (old new : AzureMachine)
    → (validate_failure_domain_unchanged old new ≡ accept)
      ↔ (asked old.failure_domain ≡ asked new.failure_domain)
unfolding validate_failure_domain_unchanged
validate_failure_domain_unchanged_iff old new = iff old.failure_domain new.failure_domain
  where
    iff : (a b : Option String) → (domain_unchanged a b ≡ accept) ↔ (asked a ≡ asked b)
    iff none none = ground arith
    iff none (some b) = ground (arith, eq_iff b "")
    iff (some a) none = ground (arith, eq_iff a "")
    iff (some a) (some b) = ground (arith, eq_iff a b, eq_iff a "", eq_iff b "")

module _ (p : Platform) (azure : String → Result Cache) (m : AzureMachine) where
  direct_create : Check
  direct_create = do
    ignore_capi_error_for_field "sshPublicKey" (p.vendor.validate_create_azure_machine m)
    validate_organization_label_contains_existing_organization p m.meta
    check_ssh_key_is_empty m
    validate_location m p.location
    supported ← direct_supported_azs azure m.location m.vm_size
    validate_failure_domain m supported

  create-Answers : Answers azure (create_checks p azure m) direct_create
  unfolding create_checks direct_create
  create-Answers =
      Answers-guard azure
        (ignore_capi_error_for_field "sshPublicKey" (p.vendor.validate_create_azure_machine m))
        (Answers-guard azure (validate_organization_label_contains_existing_organization p m.meta) (
          Answers-guard azure (check_ssh_key_is_empty m) (
            Answers-guard azure (validate_location m p.location) (
              Answers-bind azure (supported_azs-Answers azure m.location m.vm_size)
                λ azs. Answers-lift azure (validate_failure_domain m azs)))))

  pub record IsCreatable : Type 0 where
    pub vendor :
        ignore_capi_error_for_field "sshPublicKey" (p.vendor.validate_create_azure_machine m)
        ≡ accept
    pub organization : validate_organization_label_contains_existing_organization p m.meta ≡ accept
    pub no_ssh_key : m.ssh_public_key ≡ ""
    pub location : m.location ≡ p.location
    pub zones : List String
    pub known : direct_supported_azs azure m.location m.vm_size ≡ ok zones
    pub domain : DomainAllowed m zones

  zones_sound :
      (direct_supported_azs azure m.location m.vm_size >>= validate_failure_domain m) ≡ accept
      → (zs : List String) × (direct_supported_azs azure m.location m.vm_size ≡ ok zs)
        × DomainAllowed m zs
  zones_sound h =
      let (zs, known, h₁) =
        >>=-eq-ok (direct_supported_azs azure m.location m.vm_size) (validate_failure_domain m) h in
      (zs, known, (validate_failure_domain_iff m zs).0 h₁)

  -- Whatever the cache holds, if it is faithful to Azure, the webhook admits the creation of an
  -- AzureMachine exactly when: the provider has no error but for the SSH key, its organization exists,
  -- it has no SSH key, its location is the installation's, and it asks for no failure domain or for a
  -- zone that its VM size supports.
  pub on_create_validate-azure_machine :
      (skus : Skus)
      → IsFaithful azure skus
      → ((on_create_validate p azure (azure_machine m) skus).0 ≡ accept) ↔ IsCreatable
  unfolding on_create_validate direct_create check_ssh_key_is_empty validate_location
  on_create_validate-azure_machine skus f =
      let same = create-Answers.result skus f in
      (
        λ h.
            let direct : direct_create ≡ accept = sym same ∙ h in
            let (zs, known, allowed) = zones_sound (ground arith) in
            record {
              vendor = ground arith;
              organization = ground arith;
              no_ssh_key = ground (arith, eq_iff m.ssh_public_key "");
              location = ground (arith, eq_iff m.location p.location);
              zones = zs;
              known = known;
              domain = allowed;
            },
        λ c.
            same
            ∙ ground (
              arith,
              c.vendor,
              c.organization,
              c.no_ssh_key,
              c.location,
              c.known,
              (validate_failure_domain_iff m c.zones).1 c.domain,
              eq_iff m.ssh_public_key "",
              eq_iff m.location p.location,
            ),
      )
