-- ===== src/Releaseversion/Tests.antt =====
-- The releases and cases of azureupdate/validate_azureconfig_test.go, and the theorems at them.
use azure_admission_controll.Prelude.{
  List, [], get, map, ◌⊎◌, ◌∷◌, true, false, ◌≡◌, refl, ◌↔◌, Memᴰ, arith,
}
use azure_admission_controll.Error.{
  release_not_found, downgrading_is_not_allowed, skipping_release, invalid_release,
}
use azure_admission_controll.Result.{ok, err, accept}
use azure_admission_controll.Platform.{Platform}
use azure_admission_controll.Releaseversion.{
  ParsedRelease, is_deprecated_release, is_ignored_release, is_alpha_release, available_releases,
  validate, validate_upgrade, check_skipped, included, is_old_or_new_release_ignored,
  filter_out_alpha_and_ignored_and_deprecated_releases,
}
use azure_admission_controll.Releaseversion.Spec.{Allowed, IsActive, IsIgnored, SameLine}
use azure_admission_controll.Releaseversion.Refinement.{IsIgnored-iff, passes_iff, validate-Allowed}
use azure_admission_controll.Releaseversion.Order.{validate-SameLine}
use azure_admission_controll.Releaseversion.Listing.{with_releases, validate-Within}
use azure_admission_controll.Releaseversion.Upgrades.{IsOrder, Upgrades, validate-Upgrades}
use azure_admission_controll.Objects.{Release}
use azure_admission_controll.Releaseversion.Verdict.{Verdict, validate-Verdict}
use azure_admission_controll.Example
use azure_admission_controll.Example.{platform, empty, release, version, semver-SemverLaws}

abbrev pub listed : Platform
listed = platform (record empty {
  releases =
      release "v11.3.0" false "deprecated"
      ∷ release "v11.3.1" false "active"
      ∷ release "v11.4.0" false "active"
      ∷ release "v12.0.0" false "active"
      ∷ release "v12.1.1" false "deprecated"
      ∷ release "v12.1.2" false "active"
      ∷ release "v13.0.1" false "deprecated"
      ∷ release "v13.0.2" true "active"
      ∷ release "v13.1.0" false "active"
      ∷ [];
})

unfoldable pub runs : Unit {0}
unfolding validate validate_upgrade check_skipped included available_releases
    is_old_or_new_release_ignored filter_out_alpha_and_ignored_and_deprecated_releases get
runs = tt

abbrev broken : Platform
broken = platform (record empty { releases = release "invalid" false "active" ∷ [] })

validate_cases :
    (validate listed (version 11 3 0) (version 11 3 1) ≡ accept)
    × (validate listed (version 11 3 0) (version 11 4 0) ≡ accept)
    × (validate listed (version 11 3 0) (version 12 0 0) ≡ err skipping_release)
    × (validate listed (version 11 3 1) (version 11 3 0) ≡ err downgrading_is_not_allowed)
    × (validate listed (version 11 4 0) (version 11 5 0) ≡ err release_not_found)
    × (validate listed (version 11 5 0) (version 11 5 0) ≡ accept)
    × (validate listed (version 12 1 2) (version 13 1 0) ≡ accept)
    × (validate listed (version 12 0 0) (version 13 1 0) ≡ err skipping_release)
    × (validate broken (version 11 3 0) (version 11 4 0) ≡ err invalid_release)
unfolding runs
validate_cases = (refl, refl, refl, refl, refl, refl, refl, refl, refl)

validate-Allowed_example :
    (validate listed (version 11 3 0) (version 11 4 0) ≡ accept)
    ↔ Allowed listed (version 11 3 0) (version 11 4 0)
validate-Allowed_example = validate-Allowed listed (version 11 3 0) (version 11 4 0)

abbrev parsed : List (ParsedRelease Example.Version)
parsed =
    record { version = version 11 3 0; cr = release "v11.3.0" false "active" }
    ∷ record { version = version 11 3 1; cr = release "v11.3.1" false "active" }
    ∷ record { version = version 11 4 0; cr = release "v11.4.0" false "active" }
    ∷ []

abbrev small : Platform
small = platform (record empty { releases = map (λ r. r.cr) parsed })

parsed-available : available_releases small ≡ ok parsed
unfolding available_releases
parsed-available = refl

unmarked : ¬ IsIgnored small parsed (version 11 3 0) (version 11 4 0)
unfolding is_old_or_new_release_ignored get
unmarked i = cc ((IsIgnored-iff small parsed (version 11 3 0) (version 11 4 0)).1 i)

validate-small : validate small (version 11 3 0) (version 11 4 0) ≡ accept
unfolding runs
validate-small = refl

active : IsActive small (record { version = version 11 3 1; cr = release "v11.3.1" false "active" })
unfolding is_deprecated_release is_ignored_release is_alpha_release get
active = (passes_iff small _).0 refl

validate-SameLine_example :
    SameLine small (version 11 3 0) (version 11 3 1)
    ⊎ SameLine small (version 11 4 0) (version 11 3 1)
validate-SameLine_example =
    validate-SameLine small semver-SemverLaws parsed (version 11 3 0) (version 11 4 0)
      (record { version = version 11 3 1; cr = release "v11.3.1" false "active" }) parsed-available
      validate-small (λ e. cc e) unmarked (Memᴰ.tail (Memᴰ.head refl)) active refl refl

validate-Verdict_example :
    Verdict small parsed
      (version 11 3 0)
      (version 11 4 0)
      (validate small (version 11 3 0) (version 11 4 0))
validate-Verdict_example =
    validate-Verdict small parsed (version 11 3 0) (version 11 4 0) parsed-available (λ e. cc e)

abbrev old_patch : Release
old_patch = release "v11.3.0" false "active"

abbrev new_patch : Release
new_patch = release "v11.3.1" false "active"

swapped : {A : Type 0} (a b x : A) → Memᴰ x (a ∷ b ∷ []) → Memᴰ x (b ∷ a ∷ [])
swapped a b x (Memᴰ.head e) = Memᴰ.tail (Memᴰ.head e)
swapped a b x (Memᴰ.tail (Memᴰ.head e)) = Memᴰ.head e
swapped a b x (Memᴰ.tail (Memᴰ.tail m)) = elim m [ ]

validate-Within_example :
    validate (with_releases small (old_patch ∷ new_patch ∷ [])) (version 11 3 0) (version 11 3 1)
    ≡ validate (with_releases small (new_patch ∷ old_patch ∷ [])) (version 11 3 0) (version 11 3 1)
validate-Within_example =
    validate-Within small (old_patch ∷ new_patch ∷ []) (new_patch ∷ old_patch ∷ [])
      (swapped old_patch new_patch) (swapped new_patch old_patch) (version 11 3 0) (version 11 3 1)

semver-IsOrder : IsOrder Example.semver
semver-IsOrder = record {
  same = λ v. ground arith;
  lt_of_gt = λ v w h. ground arith;
  gt_of_lt = λ v w h. ground arith;
  trans = λ u v w h k. ground arith;
}

abbrev newest : ParsedRelease Example.Version
newest = record { version = version 11 4 0; cr = release "v11.4.0" false "active" }

newest-IsActive : IsActive small newest
unfolding is_deprecated_release is_ignored_release is_alpha_release get
newest-IsActive = (passes_iff small _).0 refl

validate-Upgrades_example : Upgrades small (version 11 3 0) (version 11 4 0)
validate-Upgrades_example =
    validate-Upgrades small semver-IsOrder parsed parsed-available (version 11 3 0) newest
      (λ e. cc e) (Memᴰ.tail (Memᴰ.tail (Memᴰ.head refl))) newest-IsActive refl
