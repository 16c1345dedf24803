-- ===== src/Patch/Applying.antt =====
-- Patches applied one after another, as the API server applies what a webhook answers.
use azure_admission_controll.Prelude.{
  String, List, [], ◌∷◌, ◌++◌, Option, none, some, Bool, true, false, not, ◌&&◌, ◌==◌, ◌≡◌, refl,
  ◌∙◌, starts_with, arith, eq_iff, Bool-cases, leb_text, inl, inr, ap,
}
use text.Mathlib.TextPositions.{starts_with-append}
use azure_admission_controll.Result.{ok, >>=-eq-ok}
use azure_admission_controll.Patch.{PatchOperation, sort_patches, insert_patch, skip_for_path}
use azure_admission_controll.Platform.{Platform}
use azure_admission_controll.Objects.{Object}
use azure_admission_controll.Mutator.{
  MaybePatch, collect, label_path, generate_from_object_diff, with_defaults,
}

abbrev pub AllPatches : (PatchOperation → Type 0) → List PatchOperation → Type 0
AllPatches P [] = Unit
AllPatches P (a ∷ as_) = P a × AllPatches P as_

pub AllPatches-map :
    (P Q : PatchOperation → Type 0) (as_ : List PatchOperation)
    → ((a : PatchOperation) → P a → Q a)
    → AllPatches P as_
    → AllPatches Q as_
AllPatches-map P Q [] f hs = tt
AllPatches-map P Q (a ∷ as_) f (h, hs) = (f a h, AllPatches-map P Q as_ f hs)

module _ (P : PatchOperation → Type 0) where
  AllPatches-insert :
      (a : PatchOperation) (bs : List PatchOperation)
      → P a
      → AllPatches P bs
      → AllPatches P (insert_patch a bs)
  AllPatches-insert a [] h hs = (h, tt)
  AllPatches-insert a (b ∷ bs) h (k, ks) = elim (Bool-cases (leb_text a.path b.path)) [
    | inl before ↦ rw before (h, (k, ks))
    | inr after ↦ rw after (k, AllPatches-insert a bs h ks)
  ]

  pub AllPatches-sort :
      (as_ : List PatchOperation) → AllPatches P as_ → AllPatches P (sort_patches as_)
  unfolding sort_patches
  AllPatches-sort [] hs = tt
  AllPatches-sort (a ∷ as_) (h, hs) =
      AllPatches-insert a (sort_patches as_) h (AllPatches-sort as_ hs)

  pub AllPatches-skip :
      (path : String) (as_ : List PatchOperation)
      → AllPatches P as_
      → AllPatches P (skip_for_path path as_)
  unfolding skip_for_path
  AllPatches-skip path [] hs = tt
  AllPatches-skip path (a ∷ as_) (h, hs) = elim (Bool-cases (starts_with a.path path)) [
    | inl skipped ↦ rw skipped (AllPatches-skip path as_ hs)
    | inr kept ↦ rw kept (h, AllPatches-skip path as_ hs)
  ]

-- A patch that is not at the path, above it or below it.
abbrev pub is_apart : String → PatchOperation → Bool
is_apart path a = not (starts_with a.path path) && not (starts_with path a.path)

pub is_apart-path :
    (path : String) (a : PatchOperation)
    → starts_with path path ≡ true
    → is_apart path a ≡ true
    → a.path == path ≡ false
is_apart-path path a whole h = elim (Bool-cases (a.path == path)) [
  | inr other ↦ other
  | inl same ↦
      let e : a.path ≡ path = (eq_iff _ _).0 same in
      let starts : starts_with a.path path ≡ true = rw e whole in absurd (ground arith)
]

-- A label's path is not below the specification.
pub label_path-elsewhere :
    (label path : String)
    → starts_with path "/metadata/labels/" ≡ false
    → label_path label == path ≡ false
label_path-elsewhere label path other = elim (Bool-cases (label_path label == path)) [
  | inr differ ↦ differ
  | inl same ↦
      let e : label_path label ≡ path = (eq_iff _ _).0 same in
      let starts : starts_with (label_path label) "/metadata/labels/" ≡ true =
        starts_with-append "/metadata/labels/" _ in
      let starts' : starts_with path "/metadata/labels/" ≡ true = rw e at starts in
      absurd (ground arith)
]

module _ {A : Type 0} (apply : PatchOperation → A → A) where
  abbrev pub apply_maybe : Option PatchOperation → A → A
  apply_maybe none x = x
  apply_maybe (some a) x = apply a x

  abbrev pub apply_all : List PatchOperation → A → A
  apply_all [] x = x
  apply_all (a ∷ as_) x = apply_all as_ (apply a x)

  pub apply_all-append :
      (as_ bs : List PatchOperation) (x : A)
      → apply_all (as_ ++ bs) x ≡ apply_all bs (apply_all as_ x)
  apply_all-append [] bs x = refl
  apply_all-append (a ∷ as_) bs x = apply_all-append as_ bs (apply a x)

  pub apply_all-leaves :
      (as_ : List PatchOperation) (x : A)
      → AllPatches (λ a. (y : A) → apply a y ≡ y) as_
      → apply_all as_ x ≡ x
  apply_all-leaves [] x hs = refl
  apply_all-leaves (a ∷ as_) x (h, hs) = ap (apply_all as_) (h x) ∙ apply_all-leaves as_ x hs

  -- The first step of a handler has succeeded, and its patch is applied before those of the others.
  pub record First (step : MaybePatch) (steps : List MaybePatch) (own : List PatchOperation)
      : Type 0 where
    pub patch : Option PatchOperation
    pub succeeded : step ≡ ok patch
    pub rest : List PatchOperation
    pub others : collect steps ≡ ok rest
    pub applied : (x : A) → apply_all own x ≡ apply_all rest (apply_maybe patch x)

  pub collect-First :
      (step : MaybePatch) (steps : List MaybePatch) {own : List PatchOperation}
      → collect (step ∷ steps) ≡ ok own
      → First step steps own
  collect-First step steps {own} h =
      let (patch, succeeded, h₁) = >>=-eq-ok step _ h in
      let (rest, others, h₂) = >>=-eq-ok (collect steps) _ h₁ in
      record {
        patch = patch;
        succeeded = succeeded;
        rest = rest;
        others = others;
        applied = λ x. go patch rest h₂ x;
      }
    where
      go :
          (patch : Option PatchOperation) (rest : List PatchOperation)
          → ok (elim patch [ none ↦ rest | some a ↦ a ∷ rest ]) ≡ ok own
          → (x : A) → apply_all own x ≡ apply_all rest (apply_maybe patch x)
      go none rest e x = let same : own ≡ rest = cc in rw same refl
      go (some a) rest e x = let same : own ≡ a ∷ rest = cc in rw same refl

  pub record Rest (m : Option PatchOperation) (steps : List MaybePatch) (own : List PatchOperation)
      : Type 0 where
    pub rest : List PatchOperation
    pub others : collect steps ≡ ok rest
    pub applied : (x : A) → apply_all own x ≡ apply_all rest (apply_maybe m x)

  -- A step that cannot fail.
  pub collect-Rest :
      (m : Option PatchOperation) (steps : List MaybePatch) {own : List PatchOperation}
      → collect (ok m ∷ steps) ≡ ok own
      → Rest m steps own
  collect-Rest m steps {own} h =
      let f = collect-First (ok m) steps h in
      let same : m ≡ f.patch = go f.succeeded in
      record { rest = f.rest; others = f.others; applied = rw same f.applied }
    where
      go : {n : Option PatchOperation} → ok m ≡ ok n → m ≡ n
      go e = cc

  -- A step whose patch, if there is one, changes nothing here.
  pub collect-skipped :
      (step : MaybePatch) (steps : List MaybePatch) {own : List PatchOperation}
      → collect (step ∷ steps) ≡ ok own
      → ((m : Option PatchOperation) → step ≡ ok m → (x : A) → apply_maybe m x ≡ x)
      → (rest : List PatchOperation) × (collect steps ≡ ok rest)
        × ((x : A) → apply_all own x ≡ apply_all rest x)
  collect-skipped step steps h leaves =
      let f = collect-First step steps h in
      (f.rest, f.others, λ x. f.applied x ∙ ap (apply_all f.rest) (leaves f.patch f.succeeded x))

  pub collect-none :
      {own : List PatchOperation} → collect [] ≡ ok own → (x : A) → apply_all own x ≡ x
  collect-none {own} h x = let same : own ≡ [] = cc in rw same refl

  -- All patches of a handler are applied as its own are, if those of the defaults change nothing here.
  pub with_defaults-apply :
      (p : Platform) (steps : List MaybePatch) (object : Object)
      (skip : List PatchOperation → List PatchOperation) {patches defaults : List PatchOperation}
      → with_defaults p steps object skip ≡ ok patches
      → p.vendor.default_patches object ≡ ok defaults
      → AllPatches (λ a. (y : A) → apply a y ≡ y) (skip (sort_patches defaults))
      → (own : List PatchOperation) × (collect steps ≡ ok own)
        × ((x : A) → apply_all patches x ≡ apply_all own x)
  unfolding generate_from_object_diff
  with_defaults-apply p steps object skip {patches} {defaults} h known leaves =
      let (own, collected, h₁) = >>=-eq-ok (collect steps) _ h in
      let (capi, generated, h₂) = >>=-eq-ok (generate_from_object_diff p object) _ h₁ in
      (own, collected, whole own capi generated h₂)
    where
      whole :
          (own capi : List PatchOperation)
          → generate_from_object_diff p object ≡ ok capi
          → ok (own ++ skip capi) ≡ ok patches
          → (x : A) → apply_all patches x ≡ apply_all own x
      whole own capi e h₂ x =
          let sorted : capi ≡ sort_patches defaults = ground (arith, known) in
          let same : patches ≡ own ++ skip (sort_patches defaults) = rw (← sorted) (go h₂) in
          rw same (
            apply_all-append own (skip (sort_patches defaults)) x
            ∙ apply_all-leaves (skip (sort_patches defaults)) (apply_all own x) leaves)
        where
          go : ok (own ++ skip capi) ≡ ok patches → patches ≡ own ++ skip capi
          go e = cc
