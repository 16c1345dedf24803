-- ===== src/Releaseversion/Upgrades.antt =====
-- Sequences of accepted changes of release.
use azure_admission_controll.Prelude.{
  ℕ, zero, suc, ◌<◌, ◌≤◌, List, [], ◌∷◌, Bool, true, false, not, ◌&&◌, ◌≡◌, inl, inr, Ordering,
  Memᴰ, arith, any, keep, length, any_sound, none_of_any-false, Bool-cases,
}
use azure_admission_controll.Result.{ok, accept}
use azure_admission_controll.Platform.{Semver, Platform}
use azure_admission_controll.Releaseversion.{
  ParsedRelease, available_releases, is_alpha_release, is_ignored_release, is_deprecated_release,
  less, validate,
}
use azure_admission_controll.Releaseversion.Spec.{IsAlpha, IsActive, changed}
use azure_admission_controll.Releaseversion.Refinement.{passes_iff, validate-Allowed}

module _ {ℓ} {A : Type ℓ} (f g : A → Bool) (weaker : (x : A) → f x ≡ true → g x ≡ true) where
  keep_mono : (xs : List A) → length (keep f xs) ≤ length (keep g xs)
  keep_mono [] = omega arith
  keep_mono (x ∷ xs) = ground (arith, weaker x, keep_mono xs)

  -- Where one element of the list is lost, the rest is shorter.
  keep_shrinks :
      (xs : List A) {s : A}
      → Memᴰ s xs
      → g s ≡ true
      → f s ≡ false
      → length (keep f xs) < length (keep g xs)
  keep_shrinks [] m h l = elim m [ ]
  keep_shrinks (x ∷ xs) (Memᴰ.head e) h l = ground (arith, keep_mono xs)
  keep_shrinks (x ∷ xs) (Memᴰ.tail m) h l = ground (arith, weaker x, keep_shrinks xs m h l)

-- `Compare` is a strict order.
pub record IsOrder (s : Semver) : Type 0 where
  pub same : (v : s.Version) → s.compare v v ≡ Ordering.eq
  pub lt_of_gt : (v w : s.Version) → s.compare v w ≡ Ordering.gt → s.compare w v ≡ Ordering.lt
  pub gt_of_lt : (v w : s.Version) → s.compare v w ≡ Ordering.lt → s.compare w v ≡ Ordering.gt
  pub trans :
      (u v w : s.Version)
      → s.compare u v ≡ Ordering.lt
      → s.compare v w ≡ Ordering.lt
      → s.compare u w ≡ Ordering.lt

module _ (p : Platform) where
  -- Each change is one that `Validate` accepts.
  pub data Upgrades : p.Version → p.Version → Type 0 where
    stay : (v : p.Version) → Upgrades v v
    step : (v w x : p.Version) → validate p v w ≡ accept → Upgrades w x → Upgrades v x

  Upgrades-trans : {v w x : p.Version} → Upgrades v w → Upgrades w x → Upgrades v x
  Upgrades-trans (stay _) more = more
  Upgrades-trans (step v w x h rest) more = step v w _ h (Upgrades-trans rest more)

  -- An active release strictly between two versions.
  abbrev is_between : p.Version → p.Version → ParsedRelease p.Version → Bool
  is_between old new r =
      (not (is_alpha_release (p.to_string r.version))
        && not (is_ignored_release r.cr)
        && not (is_deprecated_release p r.cr))
      && less p old r.version
      && less p r.version new

module _ (p : Platform) (order : IsOrder p.semver) (rs : List (ParsedRelease p.Version))
    (available : available_releases p ≡ ok rs) where
  -- With nothing active between, the change is accepted.
  next_active :
      (old : p.Version) (r : ParsedRelease p.Version)
      → ¬ IsAlpha p old
      → Memᴰ r rs
      → IsActive p r
      → p.compare old r.version ≡ Ordering.lt
      → any (is_between p old r.version) rs ≡ false
      → validate p old r.version ≡ accept
  next_active old r stable m active above none_between = (validate-Allowed p old r.version).1 (
      changed rs available (record { release = r; listed = m; same = order.same r.version })
        (inr (record {
          forward = λ below. ground (arith, order.gt_of_lt old r.version);
          old_stable = stable;
          new_stable = active.stable;
          no_skip = λ apart s listed a skip. ground (
            arith,
            none_of_any-false _ rs none_between listed,
            (passes_iff p s).1 a,
            order.lt_of_gt s.version old skip.after,
            skip.before,
          );
        })))

  -- A release between two versions has fewer between it and either of them.
  fewer_below :
      (old new : p.Version) (s : ParsedRelease p.Version)
      → Memᴰ s rs
      → is_between p old new s ≡ true
      → length (keep (is_between p old s.version) rs) < length (keep (is_between p old new) rs)
  fewer_below old new s listed between =
      keep_shrinks (is_between p old s.version) (is_between p old new)
        (λ x h. ground (arith, order.trans x.version s.version new)) rs listed between
        (ground (arith, order.same s.version))

  fewer_above :
      (old new : p.Version) (s : ParsedRelease p.Version)
      → Memᴰ s rs
      → is_between p old new s ≡ true
      → length (keep (is_between p s.version new) rs) < length (keep (is_between p old new) rs)
  fewer_above old new s listed between =
      keep_shrinks (is_between p s.version new) (is_between p old new)
        (λ x h. ground (arith, order.trans old s.version x.version)) rs listed between
        (ground (arith, order.same s.version))

  climb :
      (fuel : ℕ) (old : p.Version) (r : ParsedRelease p.Version)
      → length (keep (is_between p old r.version) rs) < fuel
      → ¬ IsAlpha p old
      → Memᴰ r rs
      → IsActive p r
      → p.compare old r.version ≡ Ordering.lt
      → Upgrades p old r.version
  climb zero old r short stable m active above = elim short [ ]
  climb (suc fuel) old r short stable m active above =
      elim (Bool-cases (any (is_between p old r.version) rs)) [
        | inr clear ↦
            Upgrades.step old r.version r.version (next_active old r stable m active above clear)
              (Upgrades.stay r.version)
        | inl crowded ↦
            let (s, listed, between) = any_sound _ rs crowded in
            let s_active = (passes_iff p s).0 (ground arith) in
            let below = fewer_below old r.version s listed between in
            let above_it = fewer_above old r.version s listed between in
            Upgrades-trans p (climb fuel old s (omega arith) stable listed s_active (ground arith))
              (climb fuel s.version r (omega arith) s_active.stable m active (ground arith))
      ]

  -- From a version that is no alpha, every active release above it is reached by a sequence of changes
  -- that are all accepted: an upgrade never gets stuck below the newest active release.
  pub validate-Upgrades :
      (old : p.Version) (r : ParsedRelease p.Version)
      → ¬ IsAlpha p old
      → Memᴰ r rs
      → IsActive p r
      → p.compare old r.version ≡ Ordering.lt
      → Upgrades p old r.version
  validate-Upgrades old r stable m active above =
      climb (suc (length (keep (is_between p old r.version) rs))) old r (omega arith) stable m
        active above
