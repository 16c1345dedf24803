-- ===== src/Release/Legacy.antt =====
-- Which objects belong to a legacy release.
use azure_admission_controll.Prelude.{
  Bool, not, ap, sym, ◌∙◌, String, List, [], ◌∷◌, Map, get, put, get-put, get_or_empty,
  Option-cases, Bool-cases, if◌then◌else◌, inl, inr, Option, none, some, true, false, ◌==◌, ◌≡◌,
  refl, ◌≢◌, ◌↔◌, arith, eq_iff,
}
use azure_admission_controll.Error.{release_cr_not_found}
use azure_admission_controll.Result.{Result, ok, err, panic, >>=-eq-ok}
use azure_admission_controll.Objects.{ObjectMeta, Cluster, Component, Release}
use azure_admission_controll.Platform.{Platform, Lookup, found, missing, failed}
use azure_admission_controll.Release.{
  add_components, contains_azure_operator, get_component_versions_from_release_cr, release_name,
  is_legacy, find_release, release_label, found_release, try_find_release_for_object, legacy_of,
  is_object_reconciled_by_legacy_release,
}

-- The version of the last component of a name.
abbrev pub last_version : String → List Component → Option String
last_version name [] = none
last_version name (c ∷ cs) =
    let later = last_version name cs in
    elim later [ some v ↦ some v | none ↦ if c.name == name then some c.version else none ]

-- A release has an azure-operator: the last component of that name has a version.
pub record HasAzureOperator (release : Release) : Type 0 where
  pub version : String
  pub listed : last_version "azure-operator" release.components ≡ some version
  pub given : version ≢ ""

get-add_components :
    (name : String) (versions : Map String) (cs : List Component)
    → get name (add_components versions cs)
      ≡ elim (last_version name cs) [ some v ↦ some v | none ↦ get name versions ]
get-add_components name versions [] = refl
get-add_components name versions (c ∷ cs) =
    get-add_components name (put c.name c.version versions) cs
    ∙ elim (Option-cases (last_version name cs)) [
      | inr (v, e) ↦ rw e refl
      | inl e ↦ rw (e, get-put c.name name c.version versions) (by_name (c.name == name))
    ]
  where
    by_name :
        (b : Bool)
        → (if b then some c.version else get name versions)
          ≡ elim (if b then some c.version else none) [ some v ↦ some v | none ↦ get name versions ]
    by_name true = refl
    by_name false = refl

is_legacy-version :
    (release : Release) (o : Option String)
    → last_version "azure-operator" release.components ≡ o
    → is_legacy release ≡ not (elim o [ none ↦ "" | some v ↦ v ] == "")
unfolding is_legacy contains_azure_operator get_component_versions_from_release_cr get_or_empty get
is_legacy-version release o e =
    ap (λ (found : Option String). not (elim found [ none ↦ "" | some v ↦ v ] == "")) known
  where
    unchanged :
        (o : Option String)
        → elim o [ some v ↦ some v | none ↦ get {V = String} "azure-operator" [] ] ≡ o
    unchanged none = refl
    unchanged (some v) = refl

    known : get "azure-operator" (add_components [] release.components) ≡ o
    known = get-add_components "azure-operator" [] release.components ∙ rw e (unchanged o)

is_legacy-HasAzureOperator :
    (release : Release) → (is_legacy release ≡ true) ↔ HasAzureOperator release
is_legacy-HasAzureOperator release = (
  λ h. elim (Option-cases (last_version "azure-operator" release.components)) [
    | inr (v, e) ↦ record {
      version = v;
      listed = e;
      given = λ blank. ground (arith, is_legacy-version release (some v) e, eq_iff v "");
    }
    | inl e ↦ absurd (blank_refused (sym (is_legacy-version release none e) ∙ h))
  ],
  λ o.
      ground
        (arith, is_legacy-version release (some o.version) o.listed, eq_iff o.version "", o.given),
)
  where
    blank_refused : ¬ (not ("" == "") ≡ true)
    blank_refused h = cc

module _ (p : Platform) (meta : ObjectMeta) (owner : Result (Option Cluster)) where
  -- The release that the object's label names, or else that of the Cluster that owns it.
  pub data Names (label : String) : Type 0 where
    own : get_or_empty p.names.release_version meta.labels ≡ label → label ≢ "" → Names label
    of_owner :
        (c : Cluster)
        → get_or_empty p.names.release_version meta.labels ≡ ""
        → owner ≡ ok (some c)
        → get_or_empty p.names.release_version c.meta.labels ≡ label
        → label ≢ ""
        → Names label

  Names-iff :
      (label : String) → ((release_label p meta owner ≡ ok label) × (label ≢ "")) ↔ Names label
  Names-iff label = (
    λ (e, n). elim (Bool-cases (get_or_empty p.names.release_version meta.labels == "")) [
      | inr given ↦ own (ground arith) n
      | inl blank ↦ of_owner_label owner refl blank e n
    ],
    names_complete,
  )
    where
      of_owner_label :
          (o : Result (Option Cluster))
          → owner ≡ o
          → get_or_empty p.names.release_version meta.labels == "" ≡ true
          → release_label p meta owner ≡ ok label
          → label ≢ ""
          → Names label
      of_owner_label (ok (some c)) f blank e n =
          of_owner c ((eq_iff _ _).0 blank) f (ground arith) n
      of_owner_label (ok none) f blank e n = absurd (n (ground arith))
      of_owner_label (err x) f blank e n = absurd (ground arith)
      of_owner_label panic f blank e n = absurd (ground arith)

      names_complete : Names label → (release_label p meta owner ≡ ok label) × (label ≢ "")
      names_complete (own e n) =
          (ground (arith, eq_iff (get_or_empty p.names.release_version meta.labels) ""), n)
      names_complete (of_owner c blank f e n) =
          (ground (arith, eq_iff (get_or_empty p.names.release_version meta.labels) ""), n)

  -- The object, or its owner, names a release whose CR is there and has an azure-operator.
  pub record IsLegacyObject : Type 0 where
    pub label : String
    pub named : Names label
    pub release : Release
    pub there : p.client.get_release (release_name label) ≡ found release
    pub legacy : HasAzureOperator release

  legacy_sound :
      (r : Result (Option Release))
      → legacy_of p r ≡ ok true
      → (release : Release) × (r ≡ ok (some release)) × (is_legacy release ≡ true)
  legacy_sound (ok none) h = absurd (ground arith)
  legacy_sound (ok (some r)) h = (r, refl, ground arith)
  legacy_sound (err e) h = absurd (ground arith)
  legacy_sound panic h = cc

  find_sound :
      (s : String) {r : Release}
      → find_release p s ≡ ok r
      → p.client.get_release (release_name s) ≡ found r
  unfolding find_release
  find_sound s h = go (p.client.get_release (release_name s)) h
    where
      go :
          (l : Lookup Release) {r : Release}
          → elim l [ found r ↦ ok r | missing ↦ err release_cr_not_found | failed e ↦ err e ] ≡ ok r
          → l ≡ found r
      go (found r) h = cc
      go missing h = cc
      go (failed e) h = cc

  found_complete :
      (s : String) {r : Release}
      → p.client.get_release (release_name s) ≡ found r
      → find_release p s ≡ ok r
  unfolding find_release
  found_complete s e = ground arith

  named_sound :
      (label : String) {r : Release}
      → found_release p label ≡ ok (some r)
      → (label ≢ "") × (p.client.get_release (release_name label) ≡ found r)
  named_sound label {r} h =
      let other : label == "" ≡ false = ground arith in
      let (r', read, e) = >>=-eq-ok (find_release p label) (λ r. ok (some r)) (rw other at h) in
      let same : r' ≡ r = cc in
      ((λ blank. ground (arith, eq_iff label "")), rw (← same) (find_sound label read))

  -- The filter `IsObjectReconciledByLegacyRelease` returns true exactly when the object's release label,
  -- or, if it has none, that of the Cluster that owns it, names a release whose CR is there, and the
  -- last component of that release named azure-operator has a version.
  pub is_object_reconciled_by_legacy_release-IsLegacyObject :
      (is_object_reconciled_by_legacy_release p meta owner ≡ ok true) ↔ IsLegacyObject
  unfolding is_object_reconciled_by_legacy_release try_find_release_for_object
  is_object_reconciled_by_legacy_release-IsLegacyObject = (
    λ h.
        let (r, tried, old) = legacy_sound (try_find_release_for_object p meta owner) h in
        let (label, labelled, h₁) =
          >>=-eq-ok (release_label p meta owner) (found_release p) tried in
        let (named, there) = named_sound label h₁ in
        record {
          label = label;
          named = (Names-iff label).0 (labelled, named);
          release = r;
          there = there;
          legacy = (is_legacy-HasAzureOperator r).0 old;
        },
    λ l.
        let (labelled, named) = (Names-iff l.label).1 l.named in
        ground (
          arith,
          labelled,
          eq_iff l.label "",
          named,
          found_complete l.label l.there,
          (is_legacy-HasAzureOperator l.release).1 l.legacy,
        ),
  )
