-- ===== src/Scheduledupgrades.antt =====
-- internal/scheduledupgrades: the annotations that schedule an upgrade of a cluster.
pub mod Window
pub mod Tests
use azure_admission_controll.Prelude.{
  ℕ, ◌+◌, ◌-◌, ◌*◌, String, Option, none, some, Bool, true, false, not, ◌==◌, ltb, get,
  if◌then◌else◌,
}
use azure_admission_controll.Error.{parsing_failed, not_allowed, external}
use azure_admission_controll.Result.{
  Result, Check, accept, ◌>>=◌, ◌>>◌, reject_if, require, or_else,
}
use azure_admission_controll.Objects.{Cluster}
use azure_admission_controll.Platform.{Platform}
use azure_admission_controll.Semverhelper.{get_semver_from_labels}
use azure_admission_controll.Releaseversion.{validate, equals}

-- A time.Time: nanoseconds since Go's zero time, and the name of its location.
pub record Time : Type 0 where
  pub instant : ℕ
  pub location : String

-- The package `time`: `parse_rfc822` is `time.Parse(time.RFC822, …)`. The clock is read twice.
pub record Clock : Type 0 where
  pub parse_rfc822 : String → Option Time
  pub now : ℕ
  pub later : ℕ

abbrev minute : ℕ
minute = 60 * 1000000000

abbrev hour : ℕ
hour = 60 * minute

abbrev pub shortest_notice : ℕ
shortest_notice = 16 * minute

abbrev pub longest_notice : ℕ
longest_notice = 4380 * hour

module _ (clock : Clock) where
  -- A difference below zero is not above the bound, and neither is it here. A year of two digits
  -- keeps the difference within a time.Duration.
  abbrev pub is_schedulable : Time → Bool
  is_schedulable t =
      if not (t.location == "UTC")
      then false
      else if ltb t.instant (clock.now + shortest_notice)
      then false
      else if ltb longest_notice (t.instant - clock.later)
      then false
      else true

  unfoldable pub validate_upgrade_schedule_time : String → Bool
  validate_upgrade_schedule_time text = elim (clock.parse_rfc822 text) [
    | none ↦ false
    | some t ↦ is_schedulable t
  ]

module _ (p : Platform) where
  abbrev pub target_time : Cluster → Option String
  target_time c = get p.names.update_schedule_target_time c.meta.annotations

  abbrev pub target_release : Cluster → Option String
  target_release c = get p.names.update_schedule_target_release c.meta.annotations

  abbrev pub is_same_text : Option String → String → Bool
  is_same_text none s = false
  is_same_text (some t) s = s == t

  -- The text of the old cluster's annotation, if there is an old cluster.
  abbrev pub old_time : Option Cluster → Option String
  old_time none = none
  old_time (some c) = target_time c

  unfoldable pub validate_cluster_annotation_upgrade_time : Clock → Option Cluster → Cluster → Check
  validate_cluster_annotation_upgrade_time clock old new = elim (target_time new) [
    | none ↦ accept
    | some time ↦
        if is_same_text (old_time old) time
        then accept
        else reject_if (not (validate_upgrade_schedule_time clock time)) not_allowed
  ]

  -- The body for a cluster that has the annotation.
  abbrev pub check_target : Cluster → String → Check
  check_target cluster target = do
    old ← or_else (get_semver_from_labels p cluster.meta.labels) parsing_failed
    new ← require (p.parse target) (external "semver")
    or_else (validate p old new) not_allowed
    reject_if (equals p old new) not_allowed

  unfoldable pub validate_cluster_annotation_upgrade_release : Cluster → Check
  validate_cluster_annotation_upgrade_release cluster = elim (target_release cluster) [
    | none ↦ accept
    | some target ↦ check_target cluster target
  ]
