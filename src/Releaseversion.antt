-- ===== src/Releaseversion.antt =====
-- internal/releaseversion/releaseversion.go: which release upgrades are allowed.
pub mod Spec
pub mod Refinement
pub mod Order
pub mod Reading
pub mod Listing
pub mod Upgrades
pub mod Verdict
pub mod Tests
use azure_admission_controll.Prelude.{
  String, List, [], ◌∷◌, none, some, Bool, true, false, not, ◌&&◌, ◌||◌, Ordering, get, any, keep,
  eqb, contains, equal_lower, if◌then◌else◌, ◌==◌,
}
use azure_admission_controll.Error.{
  release_not_found, downgrading_is_not_allowed, upgrading_to_or_from_alpha_release,
  skipping_release, invalid_release,
}
use azure_admission_controll.Result.{
  Result, ok, err, Check, accept, ◌>>=◌, ◌>>◌, reject_if, require,
}
use azure_admission_controll.Objects.{Release}
use azure_admission_controll.Platform.{Platform}

-- The struct `release`: a Release CR and its name as a version.
pub record ParsedRelease (V : Type 0) : Type 0 where
  pub version : V
  pub cr : Release

abbrev pub ignore_release_annotation : String
ignore_release_annotation = "release.giantswarm.io/ignore"

abbrev is_eq : Ordering → Bool
is_eq Ordering.eq = true
is_eq _ = false

abbrev is_lt : Ordering → Bool
is_lt Ordering.lt = true
is_lt _ = false

abbrev is_gt : Ordering → Bool
is_gt Ordering.gt = true
is_gt _ = false

unfoldable pub is_alpha_release : String → Bool
is_alpha_release release = contains release "alpha"

unfoldable pub is_ignored_release : Release → Bool
is_ignored_release cr = elim (get ignore_release_annotation cr.meta.annotations) [
  | none ↦ false
  | some ignore_value ↦ equal_lower ignore_value "true"
]

module _ (p : Platform) where
  -- `Equals` and `EQ`, `LT`, `GT` of semver.Version
  abbrev pub equals : p.Version → p.Version → Bool
  equals v w = is_eq (p.compare v w)

  abbrev pub less : p.Version → p.Version → Bool
  less v w = is_lt (p.compare v w)

  abbrev pub greater : p.Version → p.Version → Bool
  greater v w = is_gt (p.compare v w)

  -- Both versions have the same major and minor number.
  abbrev pub same_line : p.Version → p.Version → Bool
  same_line v w = eqb (p.major v) (p.major w) && eqb (p.minor v) (p.minor w)

  unfoldable pub is_deprecated_release : Release → Bool
  is_deprecated_release cr = cr.state == p.names.state_deprecated

  unfoldable pub parse_releases : List Release → Result (List (ParsedRelease p.Version))
  parse_releases [] = ok []
  parse_releases (cr ∷ crs) = do
    version ← require (p.parse_tolerant cr.meta.name) invalid_release
    rest ← parse_releases crs
    ok (record { version = version; cr = cr } ∷ rest)

  unfoldable pub available_releases : Result (List (ParsedRelease p.Version))
  unfolding parse_releases
  available_releases = do items ← p.client.list_releases; parse_releases items

  unfoldable pub filter_out_alpha_and_ignored_and_deprecated_releases :
      List (ParsedRelease p.Version) → List (ParsedRelease p.Version)
  unfolding is_alpha_release is_ignored_release is_deprecated_release
  filter_out_alpha_and_ignored_and_deprecated_releases releases =
      keep
        (λ r.
          not (is_alpha_release (p.to_string r.version))
          && not (is_ignored_release r.cr)
          && not (is_deprecated_release r.cr))
        releases

  unfoldable pub is_old_or_new_release_ignored :
      List (ParsedRelease p.Version) → p.Version → p.Version → Bool
  unfolding is_ignored_release
  is_old_or_new_release_ignored releases old new =
      any (λ r. (equals r.version old || equals r.version new) && is_ignored_release r.cr) releases

  unfoldable pub included : List (ParsedRelease p.Version) → p.Version → Bool
  included releases version = any (λ r. equals r.version version) releases

  -- The condition under which the loop of `Validate` returns `skippingReleaseError`.
  abbrev pub skips : p.Version → p.Version → ParsedRelease p.Version → Bool
  skips old new r =
      greater r.version old
      && less r.version new
      && not (same_line old r.version)
      && not (same_line new r.version)

  -- The loop of `Validate`.
  unfoldable pub check_skipped : p.Version → p.Version → List (ParsedRelease p.Version) → Check
  check_skipped old new [] = accept
  check_skipped old new (r ∷ rs) =
      let rest = check_skipped old new rs in
      if equals r.version old || equals r.version new
      then rest
      else if skips old new r
      then err skipping_release
      else rest

  -- `Validate` from the test for a downgrade on.
  unfoldable pub validate_upgrade : List (ParsedRelease p.Version) → p.Version → p.Version → Check
  validate_upgrade releases old new = do
    reject_if (less new old) downgrading_is_not_allowed
    reject_if (is_alpha_release (p.to_string old) || is_alpha_release (p.to_string new))
        upgrading_to_or_from_alpha_release
    if not (same_line old new)
        then check_skipped old new (filter_out_alpha_and_ignored_and_deprecated_releases releases)
        else accept

  unfoldable pub validate : p.Version → p.Version → Check
  validate old new = if equals old new then accept else do
    releases ← available_releases
    reject_if (not (included releases new)) release_not_found
    if is_old_or_new_release_ignored releases old new
        then accept
        else validate_upgrade releases old new
