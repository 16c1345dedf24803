-- ===== src/Releaseversion/Verdict.antt =====
-- Which error `Validate` returns, for every change of release.
use azure_admission_controll.Prelude.{
  List, ◌≡◌, ◌≢◌, ◌⊎◌, inl, inr, Ordering, Memᴰ, arith, Bool-cases, contains, ◌||◌,
}
use azure_admission_controll.Error.{
  release_not_found, downgrading_is_not_allowed, upgrading_to_or_from_alpha_release,
  skipping_release,
}
use azure_admission_controll.Result.{ok, err, accept, Check}
use azure_admission_controll.Platform.{Platform}
use azure_admission_controll.Releaseversion.{
  ParsedRelease, available_releases, validate, included, same_line, is_old_or_new_release_ignored,
  less, is_alpha_release, validate_upgrade, filter_out_alpha_and_ignored_and_deprecated_releases,
}
use azure_admission_controll.Releaseversion.Spec.{
  SameLine, IsAlpha, IsActive, IsSkipped, IsIgnored, IsListed, IsSequential,
}
use azure_admission_controll.Releaseversion.Refinement.{
  included_iff, IsIgnored-iff, IsSequential-iff, check_skipped_cases, filter_sound, same_line_iff,
}

module _ (p : Platform) where
  -- The causes in the order of their precedence. Each constructor says what failed, and that what
  -- comes first did not.
  pub data Verdict (rs : List (ParsedRelease p.Version)) (old new : p.Version)
      : Check → Type 0 where
    unknown : ¬ IsListed p rs new → Verdict rs old new (err release_not_found)
    ignored : IsListed p rs new → IsIgnored p rs old new → Verdict rs old new accept
    downgrade :
        IsListed p rs new
        → ¬ IsIgnored p rs old new
        → p.compare new old ≡ Ordering.lt
        → Verdict rs old new (err downgrading_is_not_allowed)
    alpha :
        IsListed p rs new
        → ¬ IsIgnored p rs old new
        → p.compare new old ≢ Ordering.lt
        → IsAlpha p old ⊎ IsAlpha p new
        → Verdict rs old new (err upgrading_to_or_from_alpha_release)
    skip :
        IsListed p rs new
        → ¬ IsIgnored p rs old new
        → p.compare new old ≢ Ordering.lt
        → ¬ IsAlpha p old
        → ¬ IsAlpha p new
        → ¬ SameLine p old new
        → (r : ParsedRelease p.Version) → Memᴰ r rs
        → IsActive p r
        → IsSkipped p old new r
        → Verdict rs old new (err skipping_release)
    sequential :
        IsListed p rs new
        → ¬ IsIgnored p rs old new
        → IsSequential p rs old new
        → Verdict rs old new accept

  module _ (rs : List (ParsedRelease p.Version)) (old new : p.Version) where
    upgrade-Verdict :
        IsListed p rs new
        → ¬ IsIgnored p rs old new
        → Verdict rs old new (validate_upgrade p rs old new)
    unfolding validate_upgrade is_alpha_release
    upgrade-Verdict l u = elim (Bool-cases (less p new old)) [
      | inl down ↦ rw down (downgrade l u (ground arith))
      | inr up ↦
          elim (Bool-cases
            (contains (p.to_string old) "alpha" || contains (p.to_string new) "alpha")) [
              | inl is_alpha ↦ rw (up, is_alpha) (alpha l u (ground arith) (ground arith))
              | inr stable ↦ elim (Bool-cases (same_line p old new)) [
                | inl same ↦
                    let accepted : validate_upgrade p rs old new ≡ accept = ground arith in
                    rw accepted (sequential l u ((IsSequential-iff p rs old new).0 accepted))
                | inr apart ↦
                    elim (check_skipped_cases p old new
                      (filter_out_alpha_and_ignored_and_deprecated_releases p rs)) [
                        | inl passed ↦
                            let accepted : validate_upgrade p rs old new ≡ accept = ground arith in
                            rw accepted
                              (sequential l u ((IsSequential-iff p rs old new).0 accepted))
                        | inr (r, m, s, e) ↦
                            let (held, active) = filter_sound p rs m in
                            let refused : validate_upgrade p rs old new ≡ err skipping_release =
                              ground arith in
                            rw refused (
                              skip l u (ground arith) (ground arith) (ground arith)
                                (λ both. ground (arith, (same_line_iff p old new).1 both)) r held
                                active s)
                      ]
              ]
            ]
    ]

    -- Between different versions, with a list of releases that can be read, `Validate` returns the
    -- verdict whose cause comes first: an unknown new release, then an ignored one (accepted), a
    -- downgrade, an alpha release, a skipped line; without any of them it accepts.
    pub validate-Verdict :
        available_releases p ≡ ok rs
        → p.compare old new ≢ Ordering.eq
        → Verdict rs old new (validate p old new)
    unfolding validate
    validate-Verdict available differ = elim (Bool-cases (included p rs new)) [
      | inl known ↦ elim (Bool-cases (is_old_or_new_release_ignored p rs old new)) [
        | inl marked ↦
            let accepted : validate p old new ≡ accept = ground arith in
            rw accepted
              (ignored ((included_iff p rs new).0 known) ((IsIgnored-iff p rs old new).0 marked))
        | inr unmarked ↦
            let same : validate p old new ≡ validate_upgrade p rs old new = ground arith in
            rw same (
              upgrade-Verdict ((included_iff p rs new).0 known)
                (λ i. ground (arith, (IsIgnored-iff p rs old new).1 i)))
      ]
      | inr absent ↦
          let refused : validate p old new ≡ err release_not_found = ground arith in
          rw refused (unknown (λ l. ground (arith, (included_iff p rs new).1 l)))
    ]
