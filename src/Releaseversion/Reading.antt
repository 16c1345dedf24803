-- ===== src/Releaseversion/Reading.antt =====
-- What the list of releases is read as.
use azure_admission_controll.Prelude.{
  List, [], ◌∷◌, none, some, ◌≡◌, refl, sym, ap, inl, inr, Memᴰ, Option-cases,
}
use mathlib.Core.Path.{subst}
use azure_admission_controll.Error.{invalid_release}
use azure_admission_controll.Result.{ok, err}
use azure_admission_controll.Objects.{Release}
use azure_admission_controll.Platform.{Platform}
use azure_admission_controll.Releaseversion.{ParsedRelease, parse_releases}

-- Every element of one list is one of the other.
abbrev pub Within {ℓ} : {A : Type ℓ} → List A → List A → Type ℓ
Within {A} xs ys = (x : A) → Memᴰ x xs → Memᴰ x ys

module _ (p : Platform) where
  -- Each release is read as its name's version.
  pub data Reads : List Release → List (ParsedRelease p.Version) → Type 0 where
    nothing : Reads [] []
    and_one :
        (cr : Release) (v : p.Version) (crs : List Release) (rs : List (ParsedRelease p.Version))
        → p.parse_tolerant cr.meta.name ≡ some v
        → Reads crs rs
        → Reads (cr ∷ crs) (record { version = v; cr = cr } ∷ rs)

  -- A list is read whole, or the name of one of its releases is no version.
  pub data ReadCases (crs : List Release) : Type 0 where
    read_all :
        (rs : List (ParsedRelease p.Version))
        → Reads crs rs
        → parse_releases p crs ≡ ok rs
        → ReadCases crs
    unreadable :
        (cr : Release)
        → Memᴰ cr crs
        → p.parse_tolerant cr.meta.name ≡ none
        → parse_releases p crs ≡ err invalid_release
        → ReadCases crs

  pub read_cases : (crs : List Release) → ReadCases crs
  unfolding parse_releases
  read_cases [] = read_all [] nothing refl
  read_cases (c ∷ crs) = elim (Option-cases (p.parse_tolerant c.meta.name)) [
    | inl bad ↦ unreadable c (Memᴰ.head refl) bad (rw bad refl)
    | inr (v, good) ↦ elim (read_cases crs) [
      | read_all rs reads e ↦
          read_all (record { version = v; cr = c } ∷ rs) (and_one c v crs rs good reads)
            (rw (good, e) refl)
      | unreadable cr m bad e ↦ unreadable cr (Memᴰ.tail m) bad (rw (good, e) refl)
    ]
  ]

  Reads-sound :
      (crs : List Release) (rs : List (ParsedRelease p.Version)) (r : ParsedRelease p.Version)
      → Reads crs rs
      → Memᴰ r rs
      → Memᴰ r.cr crs × (p.parse_tolerant r.cr.meta.name ≡ some r.version)
  Reads-sound _ _ r nothing m = elim m [ ]
  Reads-sound _ _ r (and_one cr v crs rs good reads) (Memᴰ.head e) =
      let same_cr : r.cr ≡ cr = ap (λ (x : ParsedRelease p.Version). x.cr) e in
      let same_v : r.version ≡ v = ap (λ (x : ParsedRelease p.Version). x.version) e in
      (Memᴰ.head same_cr, rw (same_cr, same_v) good)
  Reads-sound _ _ r (and_one cr v crs rs good reads) (Memᴰ.tail m) =
      let (n, e) = Reads-sound crs rs r reads m in (Memᴰ.tail n, e)

  pub Reads-complete :
      (crs : List Release) (rs : List (ParsedRelease p.Version)) (cr : Release)
      → Reads crs rs
      → Memᴰ cr crs
      → (v : p.Version) × (p.parse_tolerant cr.meta.name ≡ some v)
        × Memᴰ (record { version = v; cr = cr }) rs
  Reads-complete _ _ cr nothing m = elim m [ ]
  Reads-complete _ _ cr (and_one c v crs rs good reads) (Memᴰ.head e) =
      (v, rw e good, Memᴰ.head (ap (λ (x : Release). record { version = v; cr = x }) e))
  Reads-complete _ _ cr (and_one c v crs rs good reads) (Memᴰ.tail m) =
      let (w, e, n) = Reads-complete crs rs cr reads m in (w, e, Memᴰ.tail n)

  pub Reads-Within :
      (crs crs' : List Release) (rs rs' : List (ParsedRelease p.Version))
      → Reads crs rs
      → Reads crs' rs'
      → Within crs crs'
      → Within rs rs'
  Reads-Within crs crs' rs rs' reads reads' there r m =
      let (listed, e) = Reads-sound crs rs r reads m in
      let (v, e', n) = Reads-complete crs' rs' r.cr reads' (there r.cr listed) in
      let same : r.version ≡ v = cc in
      subst
        (λ (w : p.Version).
          Memᴰ {A = ParsedRelease p.Version} (record { version = w; cr = r.cr }) rs')
        (sym same) n
