-- ===== src/Scheduledupgrades/Window.antt =====
-- Which schedules of an upgrade are accepted.
use azure_admission_controll.Prelude.{
  ◌+◌, ◌≤◌, String, Option, none, some, true, ◌≡◌, ◌≢◌, ◌↔◌, inl, inr, arith, eq_iff, Option-cases,
  Bool-cases, Ordering,
}
use azure_admission_controll.Error.{Error, not_allowed, parsing_failed, external}
use azure_admission_controll.Result.{
  Result, ok, err, panic, accept, or_else, require, >>=-eq-ok, >>-eq-accept, require-eq-ok,
}
use azure_admission_controll.Objects.{Cluster}
use azure_admission_controll.Platform.{Platform}
use azure_admission_controll.Semverhelper.{get_semver_from_labels}
use azure_admission_controll.Releaseversion.{validate}
use azure_admission_controll.Releaseversion.Spec.{Allowed}
use azure_admission_controll.Releaseversion.Refinement.{validate-Allowed}
use azure_admission_controll.Scheduledupgrades.{
  Clock, Time, shortest_notice, longest_notice, is_schedulable, validate_upgrade_schedule_time,
  target_time, target_release, is_same_text, old_time, check_target,
  validate_cluster_annotation_upgrade_time, validate_cluster_annotation_upgrade_release,
}

-- A time in UTC, at least 16 minutes and at most 4380 hours ahead.
pub record IsInWindow (clock : Clock) (text : String) : Type 0 where
  pub time : Time
  pub parsed : clock.parse_rfc822 text ≡ some time
  pub in_utc : time.location ≡ "UTC"
  pub early_enough : clock.now + shortest_notice ≤ time.instant
  pub late_enough : time.instant ≤ clock.later + longest_notice

module _ (clock : Clock) where
  schedulable_iff :
      (t : Time)
      → (is_schedulable clock t ≡ true) ↔ (
          (t.location ≡ "UTC")
          × (clock.now + shortest_notice ≤ t.instant)
          × (t.instant ≤ clock.later + longest_notice))
  schedulable_iff t = ground (arith, eq_iff t.location "UTC")

  -- A schedule is valid exactly when it is a time in UTC that is at least 16 minutes and at most
  -- 4380 hours ahead.
  pub validate_upgrade_schedule_time_iff :
      (text : String) → (validate_upgrade_schedule_time clock text ≡ true) ↔ IsInWindow clock text
  unfolding validate_upgrade_schedule_time
  validate_upgrade_schedule_time_iff text = (
    λ h. elim (Option-cases (clock.parse_rfc822 text)) [
      | inl e ↦ absurd (ground arith)
      | inr (t, e) ↦
          let (utc, early, late) = (schedulable_iff t).0 (ground arith) in
          record { time = t; parsed = e; in_utc = utc; early_enough = early; late_enough = late }
    ],
    λ w.
        ground
          (arith, w.parsed, (schedulable_iff w.time).1 (w.in_utc, w.early_enough, w.late_enough)),
  )

module _ (p : Platform) where
  -- There is no schedule, or it is the old one, or it is valid.
  pub data TimeAllowed (clock : Clock) (old : Option Cluster) (new : Cluster) : Type 0 where
    unscheduled : target_time p new ≡ none → TimeAllowed clock old new
    kept :
        (text : String)
        → target_time p new ≡ some text
        → old_time p old ≡ some text
        → TimeAllowed clock old new
    ahead :
        (text : String)
        → target_time p new ≡ some text
        → IsInWindow clock text
        → TimeAllowed clock old new

  same_text_iff : (o : Option String) (s : String) → (is_same_text p o s ≡ true) ↔ (o ≡ some s)
  same_text_iff none s = ground arith
  same_text_iff (some t) s = ground (arith, eq_iff s t)

  -- The schedule's time is accepted exactly when there is none, when it is the one that the old
  -- Cluster has, or when it is a time in UTC that is at least 16 minutes and at most 4380 hours ahead.
  pub validate_cluster_annotation_upgrade_time_iff :
      (clock : Clock) (old : Option Cluster) (new : Cluster)
      → (validate_cluster_annotation_upgrade_time p clock old new ≡ accept)
        ↔ TimeAllowed clock old new
  unfolding validate_cluster_annotation_upgrade_time
  validate_cluster_annotation_upgrade_time_iff clock old new = (
    λ h. elim (Option-cases (target_time p new)) [
      | inl e ↦ unscheduled e
      | inr (text, e) ↦ elim (Bool-cases (is_same_text p (old_time p old) text)) [
        | inl same ↦ kept text e ((same_text_iff (old_time p old) text).0 same)
        | inr other ↦
            ahead text e ((validate_upgrade_schedule_time_iff clock text).0 (ground arith))
      ]
    ],
    complete,
  )
    where
      complete :
          TimeAllowed clock old new
          → validate_cluster_annotation_upgrade_time p clock old new ≡ accept
      complete (unscheduled e) = ground arith
      complete (kept text e same) = ground (arith, (same_text_iff (old_time p old) text).1 same)
      complete (ahead text e w) =
          ground (arith, (validate_upgrade_schedule_time_iff clock text).1 w)

  -- There is no target, or it is another release that the cluster may change to.
  pub data ReleaseAllowed (c : Cluster) : Type 0 where
    no_target : target_release p c ≡ none → ReleaseAllowed c
    reachable :
        (text : String) (old new : p.Version)
        → target_release p c ≡ some text
        → get_semver_from_labels p c.meta.labels ≡ ok old
        → p.parse text ≡ some new
        → Allowed p old new
        → p.compare old new ≢ Ordering.eq
        → ReleaseAllowed c

  pub or_else-eq-ok :
      {A : Type 0} (r : Result A) (e : Error) {a : A} → or_else r e ≡ ok a → r ≡ ok a
  or_else-eq-ok (ok a) e h = h
  or_else-eq-ok (err x) e h = cc
  or_else-eq-ok panic e h = cc

  -- The schedule's target is accepted exactly when there is none, or when it is a release other than
  -- the cluster's own that the specification allows the cluster to change to.
  pub validate_cluster_annotation_upgrade_release_iff :
      (c : Cluster) → (validate_cluster_annotation_upgrade_release p c ≡ accept) ↔ ReleaseAllowed c
  unfolding validate_cluster_annotation_upgrade_release
  validate_cluster_annotation_upgrade_release_iff c = (
    λ h. elim (Option-cases (target_release p c)) [
      | inl e ↦ no_target e
      | inr (text, e) ↦
          let (old, known, h₁) =
            >>=-eq-ok (or_else (get_semver_from_labels p c.meta.labels) parsing_failed) _
              (target_of e h) in
          let (new, parsed, h₂) = >>=-eq-ok (require (p.parse text) (external "semver")) _ h₁ in
          let (valid, differ) = >>-eq-accept (or_else (validate p old new) not_allowed) _ h₂ in
          reachable text old new e (or_else-eq-ok _ _ known) (require-eq-ok _ _ parsed)
            ((validate-Allowed p old new).0 (or_else-eq-ok _ _ valid)) (λ same. ground arith)
    ],
    complete,
  )
    where
      target_of :
          {text : String}
          → target_release p c ≡ some text
          → validate_cluster_annotation_upgrade_release p c ≡ accept
          → check_target p c text ≡ accept
      target_of e h = ground arith

      complete : ReleaseAllowed c → validate_cluster_annotation_upgrade_release p c ≡ accept
      complete (no_target e) = ground arith
      complete (reachable text old new e known parsed allowed differ) =
          ground (arith, (validate-Allowed p old new).1 allowed)
