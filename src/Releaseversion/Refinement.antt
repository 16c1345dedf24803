-- ===== src/Releaseversion/Refinement.antt =====
-- `Validate` of internal/releaseversion decides the specification.
use azure_admission_controll.Prelude.{
  List, [], ◌∷◌, true, not, ◌&&◌, ◌≡◌, refl, inl, inr, ◌⊎◌, ◌↔◌, Memᴰ, arith, eq_iff, any_sound,
  any_complete, keep_sound, keep_complete, Bool-cases, if◌then◌else◌,
}
use azure_admission_controll.Error.{release_not_found, skipping_release}
use azure_admission_controll.Result.{ok, err, accept, ◌>>◌, >>=-eq-ok, reject_if}
use azure_admission_controll.Platform.{Platform}
use azure_admission_controll.Releaseversion.{
  ParsedRelease, is_ignored_release, available_releases, is_alpha_release, is_deprecated_release,
  filter_out_alpha_and_ignored_and_deprecated_releases, is_old_or_new_release_ignored, included,
  skips, check_skipped, validate_upgrade, validate, same_line, equals,
}
use azure_admission_controll.Releaseversion.Spec.{
  SameLine, IsActive, IsSkipped, IsListed, IsIgnored, IsSequential, Allowed, unchanged, changed,
}

module _ (p : Platform) where
  pub same_line_iff : (v w : p.Version) → (same_line p v w ≡ true) ↔ SameLine p v w
  same_line_iff v w = ground arith

  pub skips_sound :
      (old new : p.Version) (r : ParsedRelease p.Version)
      → skips p old new r ≡ true
      → IsSkipped p old new r
  skips_sound old new r h = record {
    after = ground arith;
    before = ground arith;
    apart_old = λ e. ground arith;
    apart_new = λ e. ground arith;
  }

  skips_complete :
      (old new : p.Version) (r : ParsedRelease p.Version)
      → IsSkipped p old new r
      → skips p old new r ≡ true
  skips_complete old new r s = ground (arith, s.after, s.before, s.apart_old, s.apart_new)

  check_skipped_sound :
      (old new : p.Version) (rs : List (ParsedRelease p.Version)) {r : ParsedRelease p.Version}
      → check_skipped p old new rs ≡ accept
      → Memᴰ r rs
      → ¬ IsSkipped p old new r
  unfolding check_skipped
  check_skipped_sound old new [] h m s = elim m [ ]
  check_skipped_sound old new (x ∷ rs) h (Memᴰ.head e) s =
      let skipped : skips p old new x ≡ true = skips_complete old new x (rw e at s) in ground arith
  check_skipped_sound old new (x ∷ rs) h (Memᴰ.tail m) s =
      check_skipped_sound old new rs (ground arith) m s

  check_skipped_complete :
      (old new : p.Version) (rs : List (ParsedRelease p.Version))
      → ((r : ParsedRelease p.Version) → Memᴰ r rs → ¬ IsSkipped p old new r)
      → check_skipped p old new rs ≡ accept
  unfolding check_skipped
  check_skipped_complete old new [] h = refl
  check_skipped_complete old new (x ∷ rs) h = elim (Bool-cases (skips p old new x)) [
    | inl skipped ↦ absurd (h x (Memᴰ.head refl) (skips_sound old new x skipped))
    | inr kept ↦ ground (arith, check_skipped_complete old new rs (λ r m. h r (Memᴰ.tail m)))
  ]

  -- The loop has two outcomes, and an error comes from a skipped release of the list.
  pub check_skipped_cases :
      (old new : p.Version) (rs : List (ParsedRelease p.Version))
      → (check_skipped p old new rs ≡ accept)
        ⊎ ((r : ParsedRelease p.Version) × Memᴰ r rs
            × IsSkipped p old new r
            × (check_skipped p old new rs ≡ err skipping_release))
  unfolding check_skipped
  check_skipped_cases old new [] = inl refl
  check_skipped_cases old new (x ∷ rs) = elim (Bool-cases (skips p old new x)) [
    | inl skipped ↦ inr (x, Memᴰ.head refl, skips_sound old new x skipped, ground arith)
    | inr kept ↦ elim (check_skipped_cases old new rs) [
      | inl passed ↦ inl (ground arith)
      | inr (r, m, s, e) ↦ inr (r, Memᴰ.tail m, s, ground arith)
    ]
  ]

  pub passes_iff :
      (r : ParsedRelease p.Version)
      → ((not (is_alpha_release (p.to_string r.version))
            && not (is_ignored_release r.cr)
            && not (is_deprecated_release p r.cr))
          ≡ true)
        ↔ IsActive p r
  unfolding is_alpha_release is_deprecated_release
  passes_iff r = (
    λ h. record {
      stable = ground arith;
      noticed = ground arith;
      current = ground (arith, eq_iff r.cr.state p.names.state_deprecated);
    },
    λ a. ground (arith, a.stable, a.noticed, a.current, eq_iff r.cr.state p.names.state_deprecated),
  )

  -- What is left after the filter was listed, and is active.
  pub filter_sound :
      (rs : List (ParsedRelease p.Version)) {r : ParsedRelease p.Version}
      → Memᴰ r (filter_out_alpha_and_ignored_and_deprecated_releases p rs)
      → Memᴰ r rs × IsActive p r
  unfolding filter_out_alpha_and_ignored_and_deprecated_releases
  filter_sound rs {r} m = let (held, passes) = keep_sound _ rs m in (held, (passes_iff r).0 passes)

  no_skip_iff :
      (old new : p.Version) (rs : List (ParsedRelease p.Version))
      → (check_skipped p old new (filter_out_alpha_and_ignored_and_deprecated_releases p rs)
          ≡ accept)
        ↔ ((r : ParsedRelease p.Version) → Memᴰ r rs → IsActive p r → ¬ IsSkipped p old new r)
  unfolding filter_out_alpha_and_ignored_and_deprecated_releases
  no_skip_iff old new rs = (
    λ h r m a. check_skipped_sound old new _ h (keep_complete _ rs m ((passes_iff r).1 a)),
    λ h.
        check_skipped_complete old new _
          (λ r m. let (listed, passes) = keep_sound _ rs m in h r listed ((passes_iff r).0 passes)),
  )

  pub included_iff :
      (rs : List (ParsedRelease p.Version)) (v : p.Version)
      → (included p rs v ≡ true) ↔ IsListed p rs v
  unfolding included
  included_iff rs v = (
    λ h.
        let (r, m, e) = any_sound _ rs h in record { release = r; listed = m; same = ground arith },
    λ l. any_complete _ rs l.listed (ground (arith, l.same)),
  )

  pub IsIgnored-iff :
      (rs : List (ParsedRelease p.Version)) (old new : p.Version)
      → (is_old_or_new_release_ignored p rs old new ≡ true) ↔ IsIgnored p rs old new
  unfolding is_old_or_new_release_ignored
  IsIgnored-iff rs old new = (
    λ h.
        let (r, m, e) = any_sound _ rs h in
        record { release = r; listed = m; same = ground arith; marked = ground arith },
    λ l. any_complete _ rs l.listed (ground (arith, l.same, l.marked)),
  )

  pub IsSequential-iff :
      (rs : List (ParsedRelease p.Version)) (old new : p.Version)
      → (validate_upgrade p rs old new ≡ accept) ↔ IsSequential p rs old new
  unfolding validate_upgrade is_alpha_release
  IsSequential-iff rs old new = (
    λ h. record {
      forward = ground arith;
      old_stable = ground arith;
      new_stable = ground arith;
      no_skip = λ apart. (no_skip_iff old new rs).0 (ground arith);
    },
    λ s. ground (
      arith,
      s.forward,
      s.old_stable,
      s.new_stable,
      same_line_iff old new,
      (no_skip_iff old new rs).1,
    ),
  )

  listed_sound :
      (old new : p.Version) (rs : List (ParsedRelease p.Version))
      → available_releases p ≡ ok rs
      → (reject_if (not (included p rs new)) release_not_found
          >> (if is_old_or_new_release_ignored p rs old new
              then accept
              else validate_upgrade p rs old new))
        ≡ accept
      → Allowed p old new
  listed_sound old new rs available h =
      elim (Bool-cases (is_old_or_new_release_ignored p rs old new)) [
        | inl marked ↦
            changed rs available ((included_iff rs new).0 (ground arith))
              (inl ((IsIgnored-iff rs old new).0 marked))
        | inr unmarked ↦
            changed rs available ((included_iff rs new).0 (ground arith))
              (inr ((IsSequential-iff rs old new).0 (ground arith)))
      ]

  validate_sound : (old new : p.Version) → validate p old new ≡ accept → Allowed p old new
  unfolding validate
  validate_sound old new h = elim (Bool-cases (equals p old new)) [
    | inl same ↦ unchanged (ground arith)
    | inr other ↦
        let (rs, available, rest) = >>=-eq-ok (available_releases p) _ (rw other at h) in
        listed_sound old new rs available rest
  ]

  validate_complete : (old new : p.Version) → Allowed p old new → validate p old new ≡ accept
  unfolding validate
  validate_complete old new (unchanged e) = ground arith
  validate_complete old new (changed rs available l (inl i)) =
      ground (arith, (included_iff rs new).1 l, (IsIgnored-iff rs old new).1 i)
  validate_complete old new (changed rs available l (inr s)) =
      ground (arith, (included_iff rs new).1 l, (IsSequential-iff rs old new).1 s)

  -- `Validate` accepts a change of release exactly when the specification allows it.
  pub validate-Allowed : (old new : p.Version) → (validate p old new ≡ accept) ↔ Allowed p old new
  validate-Allowed old new = (validate_sound old new, validate_complete old new)
