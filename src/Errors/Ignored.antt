-- ===== src/Errors/Ignored.antt =====
-- What `IgnoreCAPIErrorForField` makes of an error with a status.
use azure_admission_controll.Prelude.{
  String, List, [], ◌∷◌, Option, none, some, ◌≡◌, ◌≢◌, refl, inl, inr, arith, eq_iff, Bool-cases,
  Option-cases, ◌==◌,
}
use azure_admission_controll.Error.{Status, StatusCause, api_status}
use azure_admission_controll.Result.{Check, err, panic, accept}
use azure_admission_controll.Errors.{
  first_group, with_causes, remaining, without_causes, ignore_capi_error_for_field, joined, ◌<>◌,
}

-- The status that is left of another.
abbrev pub cut : Status → String → List StatusCause → Status
cut status prefix causes = record status {
  message = prefix <> "[" <> joined causes <> "]";
  details = some causes;
}

-- What one field makes of an error: all is about it, or it stays, or some causes are left.
pub data Ignored (field : String) (status : Status) : Check → Type 0 where
  stays_other : status.reason ≢ "Invalid" → Ignored field status (err (api_status status))
  stays_bare : status.details ≡ none → Ignored field status (err (api_status status))
  gone :
      (causes : List StatusCause)
      → status.reason ≡ "Invalid"
      → status.details ≡ some causes
      → remaining field causes ≡ []
      → Ignored field status accept
  unreadable : Ignored field status panic
  left :
      (causes : List StatusCause) (prefix : String) (c : StatusCause) (cs : List StatusCause)
      → status.reason ≡ "Invalid"
      → status.details ≡ some causes
      → remaining field causes ≡ c ∷ cs
      → Ignored field status (err (api_status (cut status prefix (c ∷ cs))))

pub ignore-Ignored :
    (field : String) (status : Status)
    → Ignored field status (ignore_capi_error_for_field field (err (api_status status)))
unfolding ignore_capi_error_for_field with_causes
ignore-Ignored field status = elim (Bool-cases (status.reason == "Invalid")) [
  | inr other ↦ rw other (stays_other (λ e. ground (arith, eq_iff status.reason "Invalid")))
  | inl invalid ↦ rw invalid (by_details ((eq_iff _ _).0 invalid) status.details refl)
]
  where
    by_message :
        (causes : List StatusCause) (c : StatusCause) (cs : List StatusCause)
        → status.reason ≡ "Invalid"
        → status.details ≡ some causes
        → remaining field causes ≡ c ∷ cs
        → Ignored field status (with_causes status (c ∷ cs))
    by_message causes c cs i d e = elim (Option-cases (first_group status.message)) [
      | inl p ↦ rw (with_causes, p) unreadable
      | inr (prefix, p) ↦ rw (with_causes, p) (left causes prefix c cs i d e)
    ]

    by_causes :
        (causes left_over : List StatusCause)
        → status.reason ≡ "Invalid"
        → status.details ≡ some causes
        → remaining field causes ≡ left_over
        → Ignored field status
            (elim left_over [ [] ↦ accept | c ∷ cs ↦ with_causes status (c ∷ cs) ])
    by_causes causes [] i d e = gone causes i d e
    by_causes causes (c ∷ cs) i d e = by_message causes c cs i d e

    by_details :
        status.reason ≡ "Invalid"
        → (details : Option (List StatusCause)) → status.details ≡ details
        → Ignored field status (elim details [
          | none ↦ err (api_status status)
          | some causes ↦ without_causes field status causes
        ])
    by_details i none d = stays_bare d
    by_details i (some causes) d = by_causes causes (remaining field causes) i d refl
