-- ===== src/Releaseversion/Listing.antt =====
-- The order and the number of copies in which the API lists the releases do not matter.
use azure_admission_controll.Prelude.{
  List, [], ◌∷◌, Bool, not, ◌&&◌, ◌||◌, ◌≡◌, refl, sym, ◌∙◌, ap, inl, inr, arith, any, keep,
  any_sound, any_complete, keep_sound, keep_complete, Bool-cases, if◌then◌else◌,
}
use azure_admission_controll.Error.{
  release_not_found, downgrading_is_not_allowed, upgrading_to_or_from_alpha_release,
  skipping_release,
}
use azure_admission_controll.Result.{
  Check, ok, accept, ◌>>=◌, ◌>>◌, reject_if, Result-cases, is_ok, is_err, is_panic,
}
use azure_admission_controll.Objects.{Release}
use azure_admission_controll.Platform.{Platform}
use azure_admission_controll.Releaseversion.Reading.{
  Within, read_all, unreadable, read_cases, Reads-complete, Reads-Within,
}
use azure_admission_controll.Releaseversion.{
  ParsedRelease, parse_releases, available_releases, is_ignored_release, is_alpha_release,
  filter_out_alpha_and_ignored_and_deprecated_releases, is_old_or_new_release_ignored, included,
  skips, check_skipped, validate_upgrade, validate, same_line, equals, less,
}

any-Within {ℓ} :
    {A : Type ℓ} (f : A → Bool) (xs ys : List A) → Within xs ys → Within ys xs → any f xs ≡ any f ys
any-Within f xs ys there back = elim (Bool-cases (any f xs)) [
  | inl one ↦ let (x, m, e) = any_sound f xs one in one ∙ sym (any_complete f ys (there x m) e)
  | inr no_one ↦ elim (Bool-cases (any f ys)) [
    | inl one ↦ let (y, m, e) = any_sound f ys one in any_complete f xs (back y m) e ∙ sym one
    | inr none_there ↦ no_one ∙ sym none_there
  ]
]

keep-Within {ℓ} :
    {A : Type ℓ} (f : A → Bool) (xs ys : List A) → Within xs ys → Within (keep f xs) (keep f ys)
keep-Within f xs ys there x m = let (n, e) = keep_sound f xs m in keep_complete f ys (there x n) e

module _ (p : Platform) where
  -- Whether a release makes the loop of `Validate` fail.
  abbrev stops : p.Version → p.Version → ParsedRelease p.Version → Bool
  stops old new r = not (equals p r.version old || equals p r.version new) && skips p old new r

  check_skipped-any :
      (old new : p.Version) (rs : List (ParsedRelease p.Version))
      → check_skipped p old new rs ≡ reject_if (any (stops old new) rs) skipping_release
  unfolding check_skipped
  check_skipped-any old new [] = refl
  check_skipped-any old new (r ∷ rs) = elim (Bool-cases (stops old new r)) [
    | inl now ↦ ground arith
    | inr later ↦ ground (arith, check_skipped-any old new rs)
  ]

  -- `Validate` once the list is read, by what it asks of the list.
  abbrev decided : p.Version → p.Version → (listed ignored skipped : Bool) → Check
  decided old new listed ignored skipped = do
    reject_if (not listed) release_not_found
    if ignored then accept else do
      reject_if (less p new old) downgrading_is_not_allowed
      reject_if (is_alpha_release (p.to_string old) || is_alpha_release (p.to_string new))
          upgrading_to_or_from_alpha_release
      if not (same_line p old new) then reject_if skipped skipping_release else accept

  abbrev judged : p.Version → p.Version → List (ParsedRelease p.Version) → Check
  judged old new rs =
      decided old new (included p rs new) (is_old_or_new_release_ignored p rs old new)
        (any (stops old new) (filter_out_alpha_and_ignored_and_deprecated_releases p rs))

  validate-judged :
      (old new : p.Version)
      → validate p old new
        ≡ (if equals p old new then accept else (available_releases p >>= judged old new))
  unfolding validate validate_upgrade
  validate-judged old new = elim (Result-cases (available_releases p)) [
    | is_ok rs e ↦
        rw
          (e, check_skipped-any old new (filter_out_alpha_and_ignored_and_deprecated_releases p rs))
          refl
    | is_err x e ↦ rw e refl
    | is_panic e ↦ rw e refl
  ]

  judged-Within :
      (old new : p.Version) (rs rs' : List (ParsedRelease p.Version))
      → Within rs rs'
      → Within rs' rs
      → judged old new rs ≡ judged old new rs'
  unfolding included is_old_or_new_release_ignored
      filter_out_alpha_and_ignored_and_deprecated_releases
  judged-Within old new rs rs' there back =
      rw
        (
          any-Within _ rs rs' there back,
          any-Within
              (λ r. (equals p r.version old || equals p r.version new) && is_ignored_release r.cr)
              rs rs' there back,
          any-Within (stops old new) (keep _ rs) (keep _ rs') (keep-Within _ rs rs' there)
              (keep-Within _ rs' rs back),
        )
        refl

-- The platform with another answer to the question for the releases.
abbrev pub with_releases : Platform → List Release → Platform
with_releases p crs = record p { client = record p.client { list_releases = ok crs } }

module _ (p : Platform) (crs crs' : List Release) where
  parse_releases-with_releases :
      (listed : List Release)
      → parse_releases (with_releases p crs) listed ≡ parse_releases p listed
  unfolding parse_releases
  parse_releases-with_releases [] = refl
  parse_releases-with_releases (cr ∷ rest) = rw (parse_releases-with_releases rest) refl

  judged-with_releases :
      (old new : p.Version) → judged (with_releases p crs) old new ≡ judged p old new
  unfolding included is_old_or_new_release_ignored
      filter_out_alpha_and_ignored_and_deprecated_releases
  judged-with_releases old new = refl

  validate-with_releases :
      (old new : p.Version)
      → validate (with_releases p crs) old new
        ≡ (if equals p old new then accept else (parse_releases p crs >>= judged p old new))
  unfolding available_releases
  validate-with_releases old new =
      validate-judged (with_releases p crs) old new
      ∙ rw (parse_releases-with_releases crs, judged-with_releases old new) refl

module _ (p : Platform) (crs crs' : List Release) (there : Within crs crs')
    (back : Within crs' crs) where
  parsed-Within :
      (old new : p.Version)
      → (parse_releases p crs >>= judged p old new) ≡ (parse_releases p crs' >>= judged p old new)
  parsed-Within old new = elim (read_cases p crs) [
    | read_all rs reads e ↦ elim (read_cases p crs') [
      | read_all rs' reads' e' ↦
          rw (e, e')
            (judged-Within p old new rs rs' (Reads-Within p crs crs' rs rs' reads reads' there)
              (Reads-Within p crs' crs rs' rs reads' reads back))
      | unreadable cr m bad e' ↦
          let (v, good, n) = Reads-complete p crs rs cr reads (back cr m) in absurd (ground arith)
    ]
    | unreadable cr m bad e ↦ elim (read_cases p crs') [
      | read_all rs' reads' e' ↦
          let (v, good, n) = Reads-complete p crs' rs' cr reads' (there cr m) in
          absurd (ground arith)
      | unreadable cr' m' bad' e' ↦ rw (e, e') refl
    ]
  ]

  -- `Validate` answers alike, with the same error if any, for two lists of the same releases, in
  -- whatever order and however often each stands there.
  pub validate-Within :
      (old new : p.Version)
      → validate (with_releases p crs) old new ≡ validate (with_releases p crs') old new
  validate-Within old new =
      validate-with_releases p crs crs' old new
      ∙ ap (λ c. if equals p old new then accept else c) (parsed-Within old new)
      ∙ sym (validate-with_releases p crs' crs old new)
