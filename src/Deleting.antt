-- ===== src/Deleting.antt =====
-- The early return of the update webhooks: an object with a deletion timestamp is admitted unchecked.
use azure_admission_controll.Prelude.{
  true, false, not, ◌≡◌, refl, ◌↔◌, ◌⊎◌, inl, inr, Bool-cases, if◌then◌else◌,
}
use azure_admission_controll.Result.{Check, accept}
use azure_admission_controll.Objects.{ObjectMeta, is_zero_time}

-- The object is being deleted, or satisfies the rules.
abbrev pub DeletedOr : ObjectMeta → Type 0 → Type 0
DeletedOr meta P = (is_zero_time meta.deletion_timestamp ≡ false) ⊎ P

pub unless_deleted :
    (meta : ObjectMeta) (checks : Check) {P : Type 0}
    → (checks ≡ accept) ↔ P
    → ((if not (is_zero_time meta.deletion_timestamp) then accept else checks) ≡ accept)
      ↔ DeletedOr meta P
unless_deleted meta checks {P} (sound, complete) =
    elim (Bool-cases (is_zero_time meta.deletion_timestamp)) [
      | inl live ↦ rw live (λ h. inr (sound h), λ d. keep_going d)
      | inr deleted ↦ (λ h. inl deleted, λ d. rw deleted refl)
    ]
  where
    keep_going : (true ≡ false) ⊎ P → checks ≡ accept
    keep_going (inl e) = absurd cc
    keep_going (inr h) = complete h
