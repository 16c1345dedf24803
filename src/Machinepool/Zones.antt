-- ===== src/Machinepool/Zones.antt =====
-- The availability zones of a MachinePool: which are accepted, and that an update keeps them.
use mathlib.Core.List.{Perm}
use azure_admission_controll.Prelude.{
  suc, String, List, [], ◌∷◌, true, false, ◌≡◌, refl, ◌↔◌, ap, sym, ◌∙◌, arith, eq_iff, eq_refl,
  length, any_sound, any_complete, Memᴰ, Order, insert, sort, texts, sort-eq_iff, eqb_texts,
  eqb_texts_iff, ◌==◌,
}
use azure_admission_controll.Error.{azure_machine_pool_not_found}
use azure_admission_controll.Deleting.{DeletedOr, unless_deleted}
use azure_admission_controll.Result.{Result, Check, ok, accept, reject_if, ◌>>=◌, ◌>>◌, >>=-eq-ok}
use azure_admission_controll.Objects.{MachinePool, AzureMachinePool, machine_pool}
use azure_admission_controll.Platform.{Platform, Lookup, found, missing, failed}
use azure_admission_controll.Generic.{
  validate_organization_label_matches_cluster, validate_organization_label_unchanged,
}
use azure_admission_controll.Vmcapabilities.{Cache, Skus}
use azure_admission_controll.Vmcapabilities.Caching.{
  IsFaithful, Answers, Answers-lift, Answers-bind, Answers-guard, direct_supported_azs,
  supported_azs-Answers,
}
use azure_admission_controll.Machinepool.{
  in_slice, check_zones, same_elements, check_availability_zones_unchanged, found_pool,
  referenced_pool, lacks_reference, check_availability_zones, create_checks, on_create_validate,
  on_update_validate,
}

insert-length :
    {A : Type 0} (o : Order A) (x : A) (l : List A) → length (insert o x l) ≡ suc (length l)
insert-length o x [] = refl
insert-length o x (y ∷ l) = ground (arith, insert-length o x l)

sort-length : {A : Type 0} (o : Order A) (l : List A) → length (sort o l) ≡ length l
sort-length o [] = refl
sort-length o (x ∷ l) = insert-length o x (sort o l) ∙ ap suc (sort-length o l)

same_elements_iff :
    (l m : List String)
    → length l ≡ length m
    → (same_elements l m ≡ accept) ↔ (eqb_texts l m ≡ true)
unfolding same_elements
same_elements_iff [] [] e = ground arith
same_elements_iff [] (b ∷ m) e = absurd (ground arith)
same_elements_iff (a ∷ l) [] e = absurd (ground arith)
same_elements_iff (a ∷ l) (b ∷ m) e = ground (arith, same_elements_iff l m (ground arith))

-- An update keeps the zones: the check accepts exactly when the new ones are a permutation of the old
-- ones.
pub check_availability_zones_unchanged-Perm :
    (old new : MachinePool)
    → (check_availability_zones_unchanged old new ≡ accept)
      ↔ Perm old.failure_domains new.failure_domains
unfolding check_availability_zones_unchanged
check_availability_zones_unchanged-Perm old new = (
  λ h. iff.0 ((same_elements_iff s t (lengths (ground arith))).0 (ground arith)),
  λ q.
      let same : eqb_texts s t ≡ true = iff.1 q in
      let e : length s ≡ length t = ap length ((eqb_texts_iff s t).0 same) in
      ground (
        arith,
        (same_elements_iff s t e).1 same,
        sort-length texts old.failure_domains,
        sort-length texts new.failure_domains,
      ),
)
  where
    s : List String
    s = sort texts old.failure_domains

    t : List String
    t = sort texts new.failure_domains

    iff : (eqb_texts s t ≡ true) ↔ Perm old.failure_domains new.failure_domains
    iff = sort-eq_iff texts eqb_texts eqb_texts_iff old.failure_domains new.failure_domains

    lengths : length old.failure_domains ≡ length new.failure_domains → length s ≡ length t
    lengths e =
        sort-length texts old.failure_domains ∙ e ∙ sym (sort-length texts new.failure_domains)

in_slice_iff : (z : String) (zs : List String) → (in_slice z zs ≡ true) → Memᴰ z zs
in_slice_iff z zs h =
    let (y, listed, e) = any_sound (λ s. z == s) zs h in
    let same : z ≡ y = (eq_iff z y).0 e in rw same listed

-- Each zone is one of the supported ones.
abbrev pub AllSupported : List String → List String → Type 0
AllSupported zones supported = (z : String) → Memᴰ z zones → Memᴰ z supported

check_zones_iff :
    (zones supported : List String)
    → (check_zones zones supported ≡ accept) ↔ AllSupported zones supported
unfolding check_zones
check_zones_iff [] supported = (λ h z m. elim m [ ], λ h. refl)
check_zones_iff (z ∷ zs) supported =
    let rest = check_zones_iff zs supported in
    (
      λ h. all_of (in_slice_iff z supported (ground arith)) (rest.0 (ground arith)),
      λ h. ground (
        arith,
        any_complete (λ s. z == s) supported (h z (Memᴰ.head refl)) (eq_refl z),
        rest.1 (λ y m. h y (Memᴰ.tail m)),
      ),
    )
  where
    all_of : Memᴰ z supported → AllSupported zs supported → AllSupported (z ∷ zs) supported
    all_of here later y (Memᴰ.head e) = rw e here
    all_of here later y (Memᴰ.tail m) = later y m

module _ (p : Platform) (azure : String → Result Cache) (mp : MachinePool) where
  direct_zones : Check
  direct_zones = do
    reject_if (lacks_reference p mp) azure_machine_pool_not_found
    amp ← referenced_pool p mp
    supported ← direct_supported_azs azure amp.location amp.vm_size
    check_zones mp.failure_domains supported

  direct_create : Check
  direct_create = do
    p.vendor.validate_create_machine_pool mp
    validate_organization_label_matches_cluster p mp.meta
    direct_zones

  create-Answers : Answers azure (create_checks p azure mp) direct_create
  unfolding create_checks direct_create check_availability_zones direct_zones
  create-Answers = Answers-guard azure (p.vendor.validate_create_machine_pool mp) (
      Answers-guard azure (validate_organization_label_matches_cluster p mp.meta) (
        Answers-guard azure (reject_if (lacks_reference p mp) azure_machine_pool_not_found) (
          Answers-bind azure (Answers-lift azure (referenced_pool p mp)) λ amp.
            Answers-bind azure (supported_azs-Answers azure amp.location amp.vm_size)
              λ zs. Answers-lift azure (check_zones mp.failure_domains zs))))

  -- The AzureMachinePool that is referred to exists, and its VM size supports every zone.
  pub record HasSupportedZones : Type 0 where
    pub named : lacks_reference p mp ≡ false
    pub pool : AzureMachinePool
    pub there :
        p.client.get_azure_machine_pool mp.infrastructure_ref.namespace mp.infrastructure_ref.name
        ≡ found pool
    pub zones : List String
    pub known : direct_supported_azs azure pool.location pool.vm_size ≡ ok zones
    pub supported : AllSupported mp.failure_domains zones

  found_sound :
      (l : Lookup AzureMachinePool) {a : AzureMachinePool} → found_pool l ≡ ok a → l ≡ found a
  found_sound (found b) h = cc
  found_sound missing h = cc
  found_sound (failed e) h = cc

  zones_iff : (direct_zones ≡ accept) ↔ HasSupportedZones
  unfolding direct_zones
  zones_iff = (
    λ h.
        let (u, named, h₀) =
          >>=-eq-ok (reject_if (lacks_reference p mp) azure_machine_pool_not_found) _ h in
        let (amp, there, h₁) = >>=-eq-ok (referenced_pool p mp) _ h₀ in
        let (zs, known, h₂) =
          >>=-eq-ok (direct_supported_azs azure amp.location amp.vm_size) _ h₁ in
        record {
          named = ground arith;
          pool = amp;
          there = found_sound _ there;
          zones = zs;
          known = known;
          supported = (check_zones_iff mp.failure_domains zs).0 h₂;
        },
    λ s. ground (
      arith,
      s.named,
      s.there,
      s.known,
      (check_zones_iff mp.failure_domains s.zones).1 s.supported,
    ),
  )

  pub record IsCreatable : Type 0 where
    pub vendor : p.vendor.validate_create_machine_pool mp ≡ accept
    pub organization : validate_organization_label_matches_cluster p mp.meta ≡ accept
    pub zones : HasSupportedZones

  -- Whatever the cache holds, if it is faithful to Azure, the webhook admits the creation of a
  -- MachinePool exactly when: Cluster API admits it, its organization is its cluster's, the
  -- AzureMachinePool that it names exists, and the VM size of that supports each of its zones.
  pub on_create_validate-machine_pool :
      (skus : Skus)
      → IsFaithful azure skus
      → ((on_create_validate p azure (machine_pool mp) skus).0 ≡ accept) ↔ IsCreatable
  unfolding on_create_validate direct_create
  on_create_validate-machine_pool skus f =
      let same = create-Answers.result skus f in
      (
        λ h.
            let direct : direct_create ≡ accept = sym same ∙ h in
            record {
              vendor = ground arith;
              organization = ground arith;
              zones = zones_iff.0 (ground arith);
            },
        λ c. same ∙ ground (arith, c.vendor, c.organization, zones_iff.1 c.zones),
      )

-- The webhook admits the update of a MachinePool exactly when it is being deleted, or Cluster API
-- admits it, its organization is kept, and its new zones are a permutation of the old ones.
pub on_update_validate-machine_pool :
    (p : Platform) (old new : MachinePool)
    → (on_update_validate p (machine_pool old) (machine_pool new) ≡ accept)
      ↔ DeletedOr new.meta (
          (p.vendor.validate_update_machine_pool new old ≡ accept)
          × (validate_organization_label_unchanged p old.meta new.meta ≡ accept)
          × Perm old.failure_domains new.failure_domains)
unfolding on_update_validate
on_update_validate-machine_pool p old new =
    let zones = check_availability_zones_unchanged-Perm old new in
    unless_deleted new.meta _ (
      λ h. (ground arith, ground arith, zones.0 (ground arith)),
      λ (v, o, z). ground (arith, v, o, zones.1 z),
    )
