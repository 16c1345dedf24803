-- ===== src/Scheduledupgrades/Tests.antt =====
-- Schedules of an upgrade, seen at one moment.
use azure_admission_controll.Prelude.{
  ℕ, ◌*◌, String, [], ◌∷◌, Option, none, some, true, false, ◌≡◌, refl, ◌↔◌, pos, ◌==◌,
  if◌then◌else◌, get,
}
use azure_admission_controll.Error.{not_allowed}
use azure_admission_controll.Result.{err, accept}
use azure_admission_controll.Objects.{Cluster}
use azure_admission_controll.Semverhelper.{get_semver_from_labels, get_semver_from_string}
use azure_admission_controll.Scheduledupgrades.{
  Clock, Time, validate_upgrade_schedule_time, validate_cluster_annotation_upgrade_time,
  validate_cluster_annotation_upgrade_release,
}
use azure_admission_controll.Scheduledupgrades.Window.{
  TimeAllowed, validate_cluster_annotation_upgrade_time_iff,
}
use azure_admission_controll.Releaseversion.Tests.{listed}
use azure_admission_controll.Example.{plain}

abbrev minutes : ℕ → ℕ
minutes n = n * 60 * 1000000000

abbrev time_at : ℕ → String → Option Time
time_at n location = some (record { instant = minutes n; location = location })

-- A clock that knows four texts, at minute 1000.
abbrev pub clock : Clock
clock = record {
  parse_rfc822 = λ s.
      if s == "in 15 minutes UTC"
      then time_at 1015 "UTC"
      else if s == "in 16 minutes UTC"
      then time_at 1016 "UTC"
      else if s == "in 16 minutes CET"
      then time_at 1016 "CET"
      else if s == "in a year UTC"
      then time_at 526600 "UTC"
      else none;
  now = minutes 1000;
  later = minutes 1000;
}

schedule_cases :
    (validate_upgrade_schedule_time clock "in 15 minutes UTC" ≡ false)
    × (validate_upgrade_schedule_time clock "in 16 minutes UTC" ≡ true)
    × (validate_upgrade_schedule_time clock "in 16 minutes CET" ≡ false)
    × (validate_upgrade_schedule_time clock "in a year UTC" ≡ false)
    × (validate_upgrade_schedule_time clock "soon" ≡ false)
unfolding validate_upgrade_schedule_time
schedule_cases = (refl, refl, refl, refl, refl)

abbrev scheduled : String → String → Cluster
scheduled time target = record {
  meta = record (plain "org" "abc12") {
    labels = ("release.giantswarm.io/version", "11.3.0") ∷ [];
    annotations =
        ("alpha.giantswarm.io/update-schedule-target-time", time)
        ∷ ("alpha.giantswarm.io/update-schedule-target-release", target)
        ∷ [];
  };
  cluster_network = none;
  control_plane_endpoint = record { host = ""; port = pos 0 };
  conditions = [];
}

abbrev upgraded : String → Cluster
upgraded target = scheduled "in 16 minutes UTC" target

target_cases :
    (validate_cluster_annotation_upgrade_release listed (upgraded "11.4.0") ≡ accept)
    × (validate_cluster_annotation_upgrade_release listed (upgraded "12.0.0") ≡ err not_allowed)
    × (validate_cluster_annotation_upgrade_release listed (upgraded "11.3.0") ≡ err not_allowed)
    × (validate_cluster_annotation_upgrade_time listed clock
          (some (upgraded "11.4.0"))
          (upgraded "11.4.0")
        ≡ accept)
    × (validate_cluster_annotation_upgrade_time listed clock none (scheduled "soon" "11.4.0")
        ≡ err not_allowed)
unfolding azure_admission_controll.Releaseversion.Tests.runs
    validate_cluster_annotation_upgrade_release validate_cluster_annotation_upgrade_time
    validate_upgrade_schedule_time get_semver_from_labels get_semver_from_string get
target_cases = (refl, refl, refl, refl, refl)

validate_cluster_annotation_upgrade_time_iff_example :
    (validate_cluster_annotation_upgrade_time listed clock none (upgraded "11.4.0") ≡ accept)
    ↔ TimeAllowed listed clock none (upgraded "11.4.0")
validate_cluster_annotation_upgrade_time_iff_example =
    validate_cluster_annotation_upgrade_time_iff listed clock none (upgraded "11.4.0")
