-- ===== src/Releaseversion/Order.antt =====
-- Release changes under the order of semantic versions.
use azure_admission_controll.Prelude.{
  List, ◌≡◌, ◌≢◌, ◌⊎◌, inl, inr, ◌≤◌, Ordering, Memᴰ, arith, refl, Bool-cases,
}
use azure_admission_controll.Result.{ok, accept}
use azure_admission_controll.Platform.{Semver, Platform}
use azure_admission_controll.Releaseversion.{ParsedRelease, available_releases, same_line, validate}
use azure_admission_controll.Releaseversion.Spec.{
  IsAlpha, SameLine, IsActive, IsSkipped, IsIgnored, IsSequential, Allowed, unchanged, changed,
}
use azure_admission_controll.Releaseversion.Refinement.{
  same_line_iff, skips_sound, validate-Allowed,
}

-- What semantic versioning says of `Compare`: its two directions agree, and the major and the minor
-- number weigh before the rest.
pub record SemverLaws (s : Semver) : Type 0 where
  pub lt_of_gt : (v w : s.Version) → s.compare v w ≡ Ordering.gt → s.compare w v ≡ Ordering.lt
  pub major_le : (v w : s.Version) → s.compare v w ≡ Ordering.lt → s.major v ≤ s.major w
  pub minor_le :
      (v w : s.Version)
      → s.compare v w ≡ Ordering.lt
      → s.major v ≡ s.major w
      → s.minor v ≤ s.minor w

module _ (p : Platform) (laws : SemverLaws p.semver) where
  -- A version between two of one line is of that line.
  SameLine-between :
      (old mid new : p.Version)
      → p.compare mid old ≡ Ordering.gt
      → p.compare mid new ≡ Ordering.lt
      → SameLine p old new
      → SameLine p old mid
  SameLine-between old mid new above below (same_major, same_minor) =
      let up = laws.lt_of_gt mid old above in
      let a = laws.major_le old mid up in
      let b = laws.major_le mid new below in
      let major : p.major old ≡ p.major mid = omega arith in
      let c = laws.minor_le old mid up major in
      let d = laws.minor_le mid new below (omega arith) in (major, omega arith)

  lt_of_rest :
      {v w : p.Version} (o : Ordering)
      → p.compare v w ≡ o
      → p.compare v w ≢ Ordering.eq
      → p.compare v w ≢ Ordering.gt
      → p.compare v w ≡ Ordering.lt
  lt_of_rest Ordering.lt e _ _ = e
  lt_of_rest Ordering.eq e ne _ = absurd (ne e)
  lt_of_rest Ordering.gt e _ ng = absurd (ng e)

  IsSkipped-absurd :
      (rs : List (ParsedRelease p.Version)) (old new : p.Version) (r : ParsedRelease p.Version)
      → IsSequential p rs old new
      → Memᴰ r rs
      → IsActive p r
      → ¬ IsSkipped p old new r
  IsSkipped-absurd rs old new r seq m active skip =
      seq.no_skip
        (λ same. skip.apart_old (SameLine-between old r.version new skip.after skip.before same)) r
        m active skip

  module _ (rs : List (ParsedRelease p.Version)) (old new : p.Version) where
    Allowed-IsSequential :
        available_releases p ≡ ok rs
        → p.compare old new ≢ Ordering.eq
        → ¬ IsIgnored p rs old new
        → Allowed p old new
        → IsSequential p rs old new
    Allowed-IsSequential available differ unmarked (unchanged e) = absurd (differ e)
    Allowed-IsSequential available differ unmarked (changed rs' e l (inl i)) =
        let same : rs' ≡ rs = cc in absurd (unmarked (rw same at i))
    Allowed-IsSequential available differ unmarked (changed rs' e l (inr s)) =
        let same : rs' ≡ rs = cc in rw same at s

    -- If `Validate` accepts a change between different versions and neither is marked as ignored,
    -- then every active release strictly between the two has the major and minor number of one of
    -- them: an upgrade stays in its line or goes to the next active one.
    pub validate-SameLine :
        (r : ParsedRelease p.Version)
        → available_releases p ≡ ok rs
        → validate p old new ≡ accept
        → p.compare old new ≢ Ordering.eq
        → ¬ IsIgnored p rs old new
        → Memᴰ r rs
        → IsActive p r
        → p.compare r.version old ≡ Ordering.gt
        → p.compare r.version new ≡ Ordering.lt
        → SameLine p old r.version ⊎ SameLine p new r.version
    validate-SameLine r available accepted differ unmarked m active above below =
        let seq =
          Allowed-IsSequential available differ unmarked
            ((validate-Allowed p old new).0 accepted) in
        elim (Bool-cases (same_line p old r.version)) [
          | inl with_old ↦ inl ((same_line_iff p old r.version).0 with_old)
          | inr apart_old ↦ elim (Bool-cases (same_line p new r.version)) [
            | inl with_new ↦ inr ((same_line_iff p new r.version).0 with_new)
            | inr apart_new ↦ absurd (
                IsSkipped-absurd rs old new r seq m active (skips_sound p old new r (ground arith)))
          ]
        ]

    -- If `Validate` accepts a change between different versions and neither is marked as ignored,
    -- then the new version is above the old one, and neither is an alpha release.
    pub validate-forward :
        available_releases p ≡ ok rs
        → validate p old new ≡ accept
        → p.compare old new ≢ Ordering.eq
        → ¬ IsIgnored p rs old new
        → (p.compare old new ≡ Ordering.lt) × ¬ IsAlpha p old × ¬ IsAlpha p new
    validate-forward available accepted differ unmarked =
        let seq =
          Allowed-IsSequential available differ unmarked
            ((validate-Allowed p old new).0 accepted) in
        (
          lt_of_rest (p.compare old new) refl differ
              (λ above. seq.forward (laws.lt_of_gt old new above)),
          seq.old_stable,
          seq.new_stable,
        )
