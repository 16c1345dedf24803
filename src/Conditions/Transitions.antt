-- ===== src/Conditions/Transitions.antt =====
-- The conditions as a state machine: the steps that an update may make.
use azure_admission_controll.Prelude.{
  Option, none, some, true, false, not, ◌&&◌, ◌==◌, ◌≡◌, refl, ◌≢◌, ◌⊎◌, inl, inr, ◌↔◌, arith,
  eq_iff, String, Bool-cases,
}
use azure_admission_controll.Error.{invalid_condition_modification}
use azure_admission_controll.Result.{accept, reject_if, >>-eq-accept, accept->>}
use azure_admission_controll.Objects.{Condition, Cluster}
use azure_admission_controll.Platform.{Platform}
use azure_admission_controll.Conditions.{
  restarts, validations, validate_new_status_unknown_is_not_allowed,
  validate_new_status_must_be_either_true_or_false, validate_removing_condition_is_not_allowed,
  validate_all, validate_creating_condition, validate_upgrading_condition,
}

abbrev pub HasStatus : Option Condition → String → Type 0
HasStatus none status = ⊥
HasStatus (some c) status = c.status ≡ status

module _ (p : Platform) where
  -- `Unknown` is neither `True` nor `False`.
  pub record DistinctStatuses : Type 0 where
    pub unknown_true : p.names.condition_unknown ≢ p.names.condition_true
    pub unknown_false : p.names.condition_unknown ≢ p.names.condition_false

  -- A step from a stored condition, which may have any status, to a new one: the new one is True
  -- or False, and it is absent only if the old one was.
  pub data Step : Option Condition → Option Condition → Type 0 where
    stay_absent : Step none none
    set :
        {old : Option Condition} {new : Condition}
        → (new.status ≡ p.names.condition_true) ⊎ (new.status ≡ p.names.condition_false)
        → Step old (some new)

  -- The same without the change from False to True.
  pub record CreatingStep (old new : Option Condition) : Type 0 where
    pub step : Step old new
    pub no_restart :
        ¬ (HasStatus old p.names.condition_false × HasStatus new p.names.condition_true)

  abbrev pub creating : Cluster → Option Condition
  creating c = p.vendor.get_condition c p.names.creating_condition

  abbrev pub upgrading : Cluster → Option Condition
  upgrading c = p.vendor.get_condition c p.names.upgrading_condition

  validate_all_sound :
      (old new : Option Condition) → validate_all p old new (validations p) ≡ accept → Step old new
  unfolding validate_all validate_new_status_must_be_either_true_or_false
      validate_removing_condition_is_not_allowed validate_new_status_unknown_is_not_allowed
  validate_all_sound none none h = stay_absent
  validate_all_sound (some c) none h = cc
  validate_all_sound old (some d) h = set (status_of d (ground arith))
    where
      status_of :
          (d : Condition)
          → (not (d.status == p.names.condition_true) && not (d.status == p.names.condition_false))
            ≡ false
          → (d.status ≡ p.names.condition_true) ⊎ (d.status ≡ p.names.condition_false)
      status_of d e =
          ground
            (arith, eq_iff d.status p.names.condition_true, eq_iff d.status p.names.condition_false)

  module _ (distinct : DistinctStatuses) where
    validate_all_complete :
        (old new : Option Condition)
        → Step old new
        → validate_all p old new (validations p) ≡ accept
    unfolding validate_all validate_new_status_must_be_either_true_or_false
        validate_removing_condition_is_not_allowed validate_new_status_unknown_is_not_allowed
    validate_all_complete none none stay_absent = refl
    validate_all_complete (some c) none s = elim s [ ]
    validate_all_complete old (some d) (set e) = ground (
      arith,
      distinct.unknown_true,
      distinct.unknown_false,
      eq_iff d.status p.names.condition_true,
      eq_iff d.status p.names.condition_false,
      eq_iff d.status p.names.condition_unknown,
    )

    restart_iff :
        (old new : Option Condition)
        → (restarts p old new ≡ true)
          ↔ HasStatus old p.names.condition_false × HasStatus new p.names.condition_true
    restart_iff none new = ground arith
    restart_iff (some c) none = ground arith
    restart_iff (some c) (some d) =
        ground
          (arith, eq_iff c.status p.names.condition_false, eq_iff d.status p.names.condition_true)

    module _ (old new : Cluster) where
      -- The check of Creating accepts exactly the steps of a condition that is never unknown, never
      -- removed and never set from False back to True.
      pub validate_creating_condition-CreatingStep :
          (validate_creating_condition p old new ≡ accept)
          ↔ CreatingStep (creating old) (creating new)
      unfolding validate_creating_condition
      validate_creating_condition-CreatingStep = (
        λ h. record {
          step =
              validate_all_sound _ _
                (>>-eq-accept (validate_all p (creating old) (creating new) (validations p))
                  (reject_if (restarts p (creating old) (creating new))
                    invalid_condition_modification)
                  h).0;
          no_restart = λ r. ground (
            arith,
            (restart_iff _ _).1 r,
            (>>-eq-accept (validate_all p (creating old) (creating new) (validations p))
                (reject_if (restarts p (creating old) (creating new))
                  invalid_condition_modification)
                h).1,
          );
        },
        λ s.
            accept->> (validate_all p (creating old) (creating new) (validations p)) _
              (validate_all_complete _ _ s.step)
              (elim (Bool-cases (restarts p (creating old) (creating new))) [
                | inl restart ↦ absurd (s.no_restart ((restart_iff _ _).0 restart))
                | inr fine ↦ rw fine
              ]),
      )

      -- The check of Upgrading accepts exactly the steps of a condition that is never unknown and
      -- never removed; it may change between True and False both ways.
      pub validate_upgrading_condition-Step :
          (validate_upgrading_condition p old new ≡ accept) ↔ Step (upgrading old) (upgrading new)
      unfolding validate_upgrading_condition
      validate_upgrading_condition-Step = (validate_all_sound _ _, validate_all_complete _ _)

    pub Step-kept : (old new : Option Condition) → old ≢ none → Step old new → new ≢ none
    Step-kept old none h stay_absent = h
    Step-kept old (some d) h s = λ e. cc e

    pub CreatingStep-False :
        (old new : Option Condition)
        → HasStatus old p.names.condition_false
        → CreatingStep old new
        → HasStatus new p.names.condition_false
    CreatingStep-False old new h s = status old new s.step h s.no_restart
      where
        status :
            (old new : Option Condition)
            → Step old new
            → HasStatus old p.names.condition_false
            → ¬ (HasStatus old p.names.condition_false × HasStatus new p.names.condition_true)
            → HasStatus new p.names.condition_false
        status none none stay_absent h f = elim h [ ]
        status (some c) none s h f = elim s [ ]
        status old (some d) (set (inl e)) h f = absurd (f (h, e))
        status old (some d) (set (inr e)) h f = e
