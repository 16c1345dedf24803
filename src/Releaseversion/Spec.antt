-- ===== src/Releaseversion/Spec.antt =====
-- What internal/releaseversion promises of a release change, said of the listed releases with no
-- reference to the order in which `Validate` looks at them.
use azure_admission_controll.Prelude.{List, true, false, ◌≡◌, ◌≢◌, ◌⊎◌, Ordering, contains, Memᴰ}
use azure_admission_controll.Result.{ok}
use azure_admission_controll.Platform.{Platform}
use azure_admission_controll.Releaseversion.{ParsedRelease, is_ignored_release, available_releases}

module _ (p : Platform) where
  abbrev pub IsAlpha : p.Version → Type 0
  IsAlpha v = contains (p.to_string v) "alpha" ≡ true

  abbrev pub SameLine : p.Version → p.Version → Type 0
  SameLine v w = (p.major v ≡ p.major w) × (p.minor v ≡ p.minor w)

  -- A release that counts: no alpha, not ignored, not deprecated.
  pub record IsActive (r : ParsedRelease p.Version) : Type 0 where
    pub stable : ¬ IsAlpha r.version
    pub noticed : is_ignored_release r.cr ≡ false
    pub current : r.cr.state ≢ p.names.state_deprecated

  -- A release strictly between two versions, in a major and minor line that neither belongs to.
  pub record IsSkipped (old new : p.Version) (r : ParsedRelease p.Version) : Type 0 where
    pub after : p.compare r.version old ≡ Ordering.gt
    pub before : p.compare r.version new ≡ Ordering.lt
    pub apart_old : ¬ SameLine old r.version
    pub apart_new : ¬ SameLine new r.version

  pub record IsListed (rs : List (ParsedRelease p.Version)) (v : p.Version) : Type 0 where
    pub release : ParsedRelease p.Version
    pub listed : Memᴰ release rs
    pub same : p.compare release.version v ≡ Ordering.eq

  -- The old or the new version is one whose release is marked to be ignored.
  pub record IsIgnored (rs : List (ParsedRelease p.Version)) (old new : p.Version) : Type 0 where
    pub release : ParsedRelease p.Version
    pub listed : Memᴰ release rs
    pub same :
        (p.compare release.version old ≡ Ordering.eq)
        ⊎ (p.compare release.version new ≡ Ordering.eq)
    pub marked : is_ignored_release release.cr ≡ true

  -- An upgrade that leaves no active line out.
  pub record IsSequential (rs : List (ParsedRelease p.Version)) (old new : p.Version) : Type 0 where
    pub forward : p.compare new old ≢ Ordering.lt
    pub old_stable : ¬ IsAlpha old
    pub new_stable : ¬ IsAlpha new
    pub no_skip :
        ¬ SameLine old new
        → (r : ParsedRelease p.Version) → Memᴰ r rs
        → IsActive r
        → ¬ IsSkipped old new r

  pub data Allowed (old new : p.Version) : Type 0 where
    unchanged : p.compare old new ≡ Ordering.eq → Allowed old new
    changed :
        (rs : List (ParsedRelease p.Version))
        → available_releases p ≡ ok rs
        → IsListed rs new
        → IsIgnored rs old new ⊎ IsSequential rs old new
        → Allowed old new
