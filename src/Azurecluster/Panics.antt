-- ===== src/Azurecluster/Panics.antt =====
-- When the check of an AzureCluster's release panics.
use azure_admission_controll.Prelude.{
  String, List, [], ◌∷◌, Option, none, some, Bool, true, false, not, ◌||◌, ◌≡◌, ◌≢◌, refl, ◌↔◌, ◌⊎◌,
  inl, inr, arith, Map, get, Ordering, Bool-cases, if◌then◌else◌,
}
use azure_admission_controll.Error.{
  upgrading_to_or_from_alpha_release, Error, parsing_failed, invalid_operation,
}
use azure_admission_controll.Result.{
  Result, ok, err, panic, accept, ◌>>=◌, or_else, deref, require, reject_if,
}
use azure_admission_controll.Objects.{AzureCluster, Release, Cluster}
use azure_admission_controll.Platform.{Platform}
use azure_admission_controll.Semverhelper.{get_semver_from_labels, get_semver_from_string}
use azure_admission_controll.Releaseversion.{
  ParsedRelease, equals, less, skips, parse_releases, available_releases, check_skipped,
  validate_upgrade, validate, included, is_old_or_new_release_ignored, same_line, is_alpha_release,
  filter_out_alpha_and_ignored_and_deprecated_releases,
}
use azure_admission_controll.Scheduledupgrades.Window.{or_else-eq-ok}
use azure_admission_controll.Azurecluster.{check_owner, validate_release}

-- A sequence panics where one of its steps does.
>>=-eq-panic :
    {A B : Type 0} (first : Result A) (next : A → Result B)
    → (first >>= next) ≡ panic
    → (first ≡ panic) ⊎ ((a : A) × (first ≡ ok a) × (next a ≡ panic))
>>=-eq-panic panic next h = inl refl
>>=-eq-panic (err e) next h = cc
>>=-eq-panic (ok a) next h = inr (a, refl, h)

>>=-calm :
    {A B : Type 0} (first : Result A) (next : A → Result B)
    → first ≢ panic
    → ((a : A) → first ≡ ok a → next a ≢ panic)
    → (first >>= next) ≢ panic
>>=-calm first next h k e = elim (>>=-eq-panic first next e) [
  | inl p ↦ h p
  | inr (a, q, p) ↦ k a q p
]

ok-calm : {A : Type 0} (a : A) → ok a ≢ panic
ok-calm a h = cc

reject_if-calm : (b : Bool) (e : Error) → reject_if b e ≢ panic
reject_if-calm true e h = cc
reject_if-calm false e h = cc

require-calm : {A : Type 0} (o : Option A) (e : Error) → require o e ≢ panic
require-calm none e h = cc
require-calm (some a) e h = cc

or_else-calm : {A : Type 0} (r : Result A) (e : Error) → r ≢ panic → or_else r e ≢ panic
or_else-calm (ok a) e n h = cc
or_else-calm (err x) e n h = cc
or_else-calm panic e n h = n refl

if-calm :
    {A : Type 0} (b : Bool) (r s : Result A) → r ≢ panic → s ≢ panic → (if b then r else s) ≢ panic
if-calm true r s h k = h
if-calm false r s h k = k

module _ (p : Platform) where
  labels-calm : (labels : Map String) → get_semver_from_labels p labels ≢ panic
  unfolding get_semver_from_labels get_semver_from_string
  labels-calm labels =
      >>=-calm (require (get p.names.release_version labels) parsing_failed) _ (require-calm _ _)
        (λ version e. require-calm _ _)

  parse_releases-calm : (crs : List Release) → parse_releases p crs ≢ panic
  unfolding parse_releases
  parse_releases-calm [] = ok-calm []
  parse_releases-calm (cr ∷ crs) =
      >>=-calm (require (p.parse_tolerant cr.meta.name) _) _ (require-calm _ _)
        (λ v e. >>=-calm (parse_releases p crs) _ (parse_releases-calm crs) (λ rest f. ok-calm _))

  check_skipped-calm :
      (v w : p.Version) (rs : List (ParsedRelease p.Version)) → check_skipped p v w rs ≢ panic
  unfolding check_skipped
  check_skipped-calm v w [] = ok-calm tt
  check_skipped-calm v w (r ∷ rs) =
      if-calm _ _ _ (check_skipped-calm v w rs)
        (if-calm (skips p v w r) _ _ (λ h. cc) (check_skipped-calm v w rs))

  -- The versions are read and differ, and no owner reference names a Cluster.
  pub record IsOrphanUpgrade (old new : AzureCluster) : Type 0 where
    pub old_version : p.Version
    pub old_known : get_semver_from_labels p old.meta.labels ≡ ok old_version
    pub new_version : p.Version
    pub new_known : get_semver_from_labels p new.meta.labels ≡ ok new_version
    pub differ : p.compare new_version old_version ≢ Ordering.eq
    pub orphan : p.client.get_owner_cluster new.meta ≡ ok none

  module _ (answers : p.client.list_releases ≢ panic) where
    -- `Validate` does not panic, if the client does not.
    validate-calm : (v w : p.Version) → validate p v w ≢ panic
    unfolding validate validate_upgrade available_releases
    validate-calm v w = if-calm (equals p v w) _ _ (ok-calm tt) (
        >>=-calm (available_releases p) _
          (>>=-calm p.client.list_releases _ answers (λ items e. parse_releases-calm items))
          λ releases e.
            >>=-calm (reject_if (not (included p releases w)) _) _ (reject_if-calm _ _) λ u f.
              if-calm (is_old_or_new_release_ignored p releases v w) _ _ (ok-calm tt) (
                >>=-calm (reject_if (less p w v) _) _ (reject_if-calm _ _) λ u' g.
                  >>=-calm
                    (reject_if
                      (is_alpha_release (p.to_string v) || is_alpha_release (p.to_string w))
                      upgrading_to_or_from_alpha_release)
                    _ (reject_if-calm _ _)
                    λ u'' k.
                      if-calm (not (same_line p v w)) _ _
                        (check_skipped-calm v w
                          (filter_out_alpha_and_ignored_and_deprecated_releases p releases))
                        (ok-calm tt)))

    owner_orphan :
        (new : AzureCluster) (w : p.Version)
        → p.client.get_owner_cluster new.meta ≢ panic
        → check_owner p new w ≡ panic
        → p.client.get_owner_cluster new.meta ≡ ok none
    owner_orphan new w n h = elim (>>=-eq-panic (p.client.get_owner_cluster new.meta) _ h) [
      | inl e ↦ absurd (n e)
      | inr (found, e, h₁) ↦ by_found found e h₁
    ]
      where
        by_found :
            (found : Option Cluster)
            → p.client.get_owner_cluster new.meta ≡ ok found
            → (deref found >>= λ owner. get_semver_from_labels p owner.meta.labels >>= λ v.
                reject_if (not (equals p w v)) invalid_operation)
              ≡ panic
            → p.client.get_owner_cluster new.meta ≡ ok none
        by_found none e h = e
        by_found (some owner) e h = absurd (
            >>=-calm (get_semver_from_labels p owner.meta.labels) _ (labels-calm _)
              (λ v f. reject_if-calm _ _) h)

    -- If the Kubernetes client itself does not panic, the check of the release on an update of an
    -- AzureCluster panics exactly when both versions can be read and differ, and no owner reference of
    -- the new AzureCluster names a Cluster.
    pub validate_release-panic :
        (old new : AzureCluster)
        → p.client.get_owner_cluster new.meta ≢ panic
        → (validate_release p old new ≡ panic) ↔ IsOrphanUpgrade old new
    unfolding validate_release
    validate_release-panic old new n = (sound, complete)
      where
        complete : IsOrphanUpgrade old new → validate_release p old new ≡ panic
        complete o = elim (Bool-cases (equals p o.new_version o.old_version)) [
          | inl same ↦ absurd (o.differ (ground arith))
          | inr other ↦ ground (arith, o.old_known, o.new_known, o.orphan)
        ]

        known_of :
            (a : AzureCluster) {v : p.Version}
            → or_else (get_semver_from_labels p a.meta.labels) parsing_failed ≡ ok v
            → get_semver_from_labels p a.meta.labels ≡ ok v
        known_of a h = or_else-eq-ok p _ _ h

        sound : validate_release p old new ≡ panic → IsOrphanUpgrade old new
        sound h = elim (>>=-eq-panic (or_else (get_semver_from_labels p old.meta.labels) _) _ h) [
          | inl e ↦ absurd (or_else-calm _ _ (labels-calm _) e)
          | inr (v, known, h₁) ↦
              elim (>>=-eq-panic (or_else (get_semver_from_labels p new.meta.labels) _) _ h₁) [
                | inl e ↦ absurd (or_else-calm _ _ (labels-calm _) e)
                | inr (w, known', h₂) ↦
                    elim (>>=-eq-panic (if not (equals p w v) then check_owner p new w else accept)
                      _ h₂) [
                        | inr (u, e, h₃) ↦ absurd (validate-calm v w h₃)
                        | inl e ↦ elim (Bool-cases (equals p w v)) [
                          | inl same ↦ absurd (ground arith)
                          | inr other ↦ record {
                            old_version = v;
                            old_known = known_of old known;
                            new_version = w;
                            new_known = known_of new known';
                            differ = λ f. ground arith;
                            orphan = owner_orphan new w n (ground arith);
                          }
                        ]
                      ]
              ]
        ]
