-- ===== src/Errors/Ignoring.antt =====
-- What is let pass, and what is kept.
use azure_admission_controll.Prelude.{
  String, List, [], ◌∷◌, Option, none, some, true, not, ◌≡◌, refl, ◌↔◌, ◌⊎◌, inl, inr, starts_with,
  arith, eq_iff, keep_complete, Memᴰ, Bool-cases, ◌==◌,
}
use azure_admission_controll.Error.{Status, StatusCause, api_status}
use azure_admission_controll.Result.{Check, err, accept}
use azure_admission_controll.Errors.{
  first_group, is_for, with_causes, remaining, without_causes, ignore_status,
  ignore_capi_error_for_field,
}

-- The error is an Invalid status whose causes are all about the field.
pub record IsOnlyAbout (field : String) (status : Status) : Type 0 where
  pub invalid : status.reason ≡ "Invalid"
  pub causes : List StatusCause
  pub listed : status.details ≡ some causes
  pub about : (c : StatusCause) → Memᴰ c causes → starts_with c.field field ≡ true

module _ (field : String) where
  none_remaining :
      (causes : List StatusCause)
      → remaining field causes ≡ []
      → (c : StatusCause) → Memᴰ c causes
      → starts_with c.field field ≡ true
  none_remaining causes e c m = elim (Bool-cases (is_for field c)) [
    | inl about ↦ about
    | inr other ↦
        let still : Memᴰ c (remaining field causes) =
          keep_complete (λ d. not (is_for field d)) causes m (ground arith) in
        elim (rw e at still) [ ]
  ]

  all_about :
      (causes : List StatusCause)
      → ((c : StatusCause) → Memᴰ c causes → starts_with c.field field ≡ true)
      → remaining field causes ≡ []
  all_about [] h = refl
  all_about (c ∷ cs) h =
      ground (arith, h c (Memᴰ.head refl), all_about cs (λ d m. h d (Memᴰ.tail m)))

  without_causes_sound :
      (status : Status) (causes : List StatusCause)
      → without_causes field status causes ≡ accept
      → remaining field causes ≡ []
  unfolding with_causes
  without_causes_sound status causes h = go (remaining field causes) refl h
    where
      go :
          (left : List StatusCause)
          → remaining field causes ≡ left
          → without_causes field status causes ≡ accept
          → remaining field causes ≡ []
      go [] e h = e
      go (c ∷ cs) e h = elim (prefix_cases (first_group status.message)) [
        | inl p ↦ absurd (ground arith)
        | inr (t, p) ↦ absurd (ground arith)
      ]
        where
          prefix_cases : (o : Option String) → (o ≡ none) ⊎ ((t : String) × (o ≡ some t))
          prefix_cases none = inl refl
          prefix_cases (some t) = inr (t, refl)

  ignore_status_sound :
      (status : Status) → ignore_status field status ≡ accept → IsOnlyAbout field status
  ignore_status_sound status h = elim (Bool-cases (status.reason == "Invalid")) [
    | inl invalid ↦ with_details invalid status.details refl h
    | inr other ↦ absurd (ground arith)
  ]
    where
      with_details :
          status.reason == "Invalid" ≡ true
          → (details : Option (List StatusCause)) → status.details ≡ details
          → ignore_status field status ≡ accept
          → IsOnlyAbout field status
      with_details invalid none e h = absurd (ground arith)
      with_details invalid (some causes) e h = record {
        invalid = (eq_iff _ _).0 invalid;
        causes = causes;
        listed = e;
        about = none_remaining causes (without_causes_sound status causes (ground arith));
      }

  ignore_status_complete :
      (status : Status) → IsOnlyAbout field status → ignore_status field status ≡ accept
  ignore_status_complete status o =
      ground
        (arith, eq_iff status.reason "Invalid", o.invalid, o.listed, all_about o.causes o.about)

  -- `IgnoreCAPIErrorForField` returns no error exactly when it is given none, or an Invalid status
  -- with causes that are all about the field.
  pub ignore_capi_error_for_field_iff :
      (r : Check)
      → (ignore_capi_error_for_field field r ≡ accept) ↔ (
          (r ≡ accept)
          ⊎ ((status : Status) × (r ≡ err (api_status status)) × IsOnlyAbout field status))
  unfolding ignore_capi_error_for_field
  ignore_capi_error_for_field_iff r = (sound r, complete r)
    where
      sound :
          (r : Check)
          → ignore_capi_error_for_field field r ≡ accept
          → (r ≡ accept)
            ⊎ ((status : Status) × (r ≡ err (api_status status)) × IsOnlyAbout field status)
      sound (err (api_status status)) h = inr (status, refl, ignore_status_sound status h)
      sound r h = inl h

      complete :
          (r : Check)
          → (r ≡ accept)
            ⊎ ((status : Status) × (r ≡ err (api_status status)) × IsOnlyAbout field status)
          → ignore_capi_error_for_field field r ≡ accept
      complete r (inl e) = rw e
      complete r (inr (status, e, o)) = rw e (ignore_status_complete status o)
