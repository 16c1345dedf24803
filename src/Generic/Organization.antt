-- ===== src/Generic/Organization.antt =====
-- What the checks of the organization label establish.
use azure_admission_controll.Prelude.{
  String, List, [], ◌∷◌, Option, none, some, ◌≡◌, refl, ◌↔◌, get, arith, eq_iff, codes, eq_refl, ap,
  ◌∙◌,
}
use azure_admission_controll.Error.{
  organization_label_not_found, cluster_label_not_found, organization_not_found,
}
use azure_admission_controll.Result.{ok, err, accept, require, >>=-eq-ok, require-eq-ok}
use azure_admission_controll.Objects.{ObjectMeta, Cluster}
use azure_admission_controll.Platform.{Platform, Lookup, found, missing, failed}
use azure_admission_controll.Normalize.{as_dns_label_name}
use azure_admission_controll.Generic.{
  validate_organization_label_unchanged, validate_organization_label_matches_cluster,
  validate_organization_label_contains_existing_organization, exactly_one,
}

module _ (p : Platform) where
  abbrev pub organization_of : ObjectMeta → Option String
  organization_of meta = get p.names.organization meta.labels

  -- An update keeps the organization label: both versions carry it, with one value.
  pub validate_organization_label_unchanged_iff :
      (old new : ObjectMeta)
      → (validate_organization_label_unchanged p old new ≡ accept)
        ↔ ((org : String) × (organization_of old ≡ some org) × (organization_of new ≡ some org))
  unfolding validate_organization_label_unchanged
  validate_organization_label_unchanged_iff old new = (
    λ h. sound (organization_of old) (organization_of new) refl refl h,
    λ (org, a, b). ground (arith, eq_refl org),
  )
    where
      sound :
          (a b : Option String)
          → organization_of old ≡ a
          → organization_of new ≡ b
          → validate_organization_label_unchanged p old new ≡ accept
          → (org : String) × (organization_of old ≡ some org) × (organization_of new ≡ some org)
      sound none b e f h = ground arith
      sound (some x) none e f h = ground arith
      sound (some x) (some y) e f h = (x, e, ground (arith, eq_iff x y))

  exactly_one_sound : (cs : List Cluster) {c : Cluster} → exactly_one p cs ≡ ok c → cs ≡ c ∷ []
  exactly_one_sound [] h = cc
  exactly_one_sound (c ∷ []) h = cc
  exactly_one_sound (c ∷ d ∷ cs) h = cc

  -- The check accepts a node pool's resource exactly when the resource names a cluster, exactly one
  -- Cluster CR is listed for that name, and both carry the same organization label.
  pub validate_organization_label_matches_cluster_iff :
      (meta : ObjectMeta)
      → (validate_organization_label_matches_cluster p meta ≡ accept) ↔ (
          (org : String) × (name : String) × (c : Cluster) × (organization_of meta ≡ some org)
          × (get p.names.cluster_label meta.labels ≡ some name)
          × (p.client.list_clusters name ≡ ok (c ∷ []))
          × (organization_of c.meta ≡ some org))
  unfolding validate_organization_label_matches_cluster
  validate_organization_label_matches_cluster_iff meta = (
    λ h.
        let (org, got, h₁) =
          >>=-eq-ok (require (organization_of meta) organization_label_not_found) _ h in
        let (name, named, h₂) =
          >>=-eq-ok (require (get p.names.cluster_label meta.labels) cluster_label_not_found) _
            h₁ in
        let (cs, listed, h₃) = >>=-eq-ok (p.client.list_clusters name) _ h₂ in
        let (c, single, h₄) = >>=-eq-ok (exactly_one p cs) _ h₃ in
        let (org', owned, h₅) =
          >>=-eq-ok (require (organization_of c.meta) organization_label_not_found) _ h₄ in
        (
          org,
          name,
          c,
          require-eq-ok _ _ got,
          require-eq-ok _ _ named,
          listed ∙ ap ok (exactly_one_sound cs single),
          require-eq-ok _ _ owned ∙ ap some ((eq_iff org' org).0 (ground arith)),
        ),
    λ (org, name, c, a, b, d, e). ground (arith, eq_refl org),
  )

  found_of :
      (l : Lookup ObjectMeta)
      → elim l [ found _ ↦ accept | missing ↦ err organization_not_found | failed e ↦ err e ]
        ≡ accept
      → (o : ObjectMeta) × (l ≡ found o)
  found_of (found o) h = (o, refl)
  found_of missing h = cc
  found_of (failed e) h = cc

  -- The check accepts a resource exactly when it carries an organization label and the Organization CR
  -- is there whose name normalisation makes of the label.
  pub validate_organization_label_contains_existing_organization_iff :
      (meta : ObjectMeta)
      → (validate_organization_label_contains_existing_organization p meta ≡ accept) ↔ (
          (org : String) × (o : ObjectMeta) × (organization_of meta ≡ some org)
          × (p.client.get_organization (as_dns_label_name p (codes org)) ≡ found o))
  unfolding validate_organization_label_contains_existing_organization
  validate_organization_label_contains_existing_organization_iff meta = (
    λ h.
        let (org, got, h₁) =
          >>=-eq-ok (require (organization_of meta) organization_label_not_found) _ h in
        let (o, there) =
          found_of (p.client.get_organization (as_dns_label_name p (codes org))) h₁ in
        (org, o, require-eq-ok _ _ got, there),
    λ (org, o, a, b). ground arith,
  )
