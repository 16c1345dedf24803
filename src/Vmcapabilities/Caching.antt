-- ===== src/Vmcapabilities/Caching.antt =====
-- The cache does not show: each question is answered as if Azure were asked every time.
use azure_admission_controll.Prelude.{
  String, Option, none, some, Bool, true, false, ◌≡◌, refl, ap, arith, get, put, get-put, eq_iff, ℤ,
  List, Option-cases, Bool-cases, ◌⊎◌, inl, inr, eq_refl, if◌then◌else◌,
}
use azure_admission_controll.Error.{invalid_request, sku_not_found}
use azure_admission_controll.Result.{
  Result, Check, ok, err, panic, Result-cases, is_ok, is_err, is_panic, reject_if, require, ◌>>=◌,
  ◌>>◌,
}
use azure_admission_controll.Exec
use azure_admission_controll.Exec.{Exec, lift, resume}
use azure_admission_controll.Vmcapabilities.{
  Cache, Skus, ResourceSku, capability_cpus, capability_memory, is_empty, find_capability,
  init_cache, ensure_cache, cached_sku, get_sku, get_capability, number_of, supported,
  zones_or_none, cpus, memory, has_capability, supported_azs,
}

module _ (azure : String → Result Cache) where
  -- Without a cache.
  unfoldable pub direct_sku : String → String → Result ResourceSku
  direct_sku location vm_type = do
    reject_if (is_empty location) invalid_request
    reject_if (is_empty vm_type) invalid_request
    cache ← azure location
    require (get vm_type cache) sku_not_found

  pub direct_capability : String → String → String → Result (Option String)
  direct_capability location vm_type name = do
    reject_if (is_empty name) invalid_request
    sku ← direct_sku location vm_type
    ok (elim sku.capabilities [ none ↦ none | some cs ↦ find_capability name cs ])

  unfoldable pub direct_has_capability : String → String → String → Result Bool
  direct_has_capability location vm_type name = do
    capability ← direct_capability location vm_type name
    ok (supported azure capability)

  pub direct_cpus : String → String → Result ℤ
  direct_cpus location vm_type = do
    capability ← direct_capability location vm_type capability_cpus
    number_of azure capability

  pub direct_memory : String → String → Result ℤ
  direct_memory location vm_type = do
    capability ← direct_capability location vm_type capability_memory
    number_of azure capability

  pub direct_supported_azs : String → String → Result (List String)
  direct_supported_azs location vm_type = zones_or_none azure (direct_sku location vm_type)

  -- What is kept for a location is what Azure lists for it.
  pub record IsFaithful (skus : Skus) : Type 0 where
    pub at :
        (location : String) (cache : Cache)
        → get location skus ≡ some cache
        → azure location ≡ ok cache

  pub IsFaithful-put :
      (skus : Skus) (location : String) (cache : Cache)
      → IsFaithful skus
      → azure location ≡ ok cache
      → IsFaithful (put location cache skus)
  IsFaithful-put skus location cache f e = record {
    at = λ l c h. ground (arith, get-put location l cache skus, eq_iff location l, f.at l c, e);
  }

  -- An action answers as the direct question does, and keeps the cache faithful.
  pub record Answers {A : Type 0} (action : Exec Skus A) (answer : Result A) : Type 0 where
    pub result : (skus : Skus) → IsFaithful skus → (action skus).0 ≡ answer
    pub kept : (skus : Skus) → IsFaithful skus → IsFaithful (action skus).1

  module _ (location vm_type : String) (skus : Skus) (f : IsFaithful skus) where
    get_sku-result : (get_sku azure location vm_type skus).0 ≡ direct_sku location vm_type
    unfolding get_sku direct_sku ensure_cache cached_sku init_cache
    get_sku-result = elim (Option-cases (get location skus)) [
      | inr (cache, held) ↦ ground (arith, f.at location cache held)
      | inl missing ↦ elim (Result-cases (azure location)) [
        | is_ok cache e ↦ ground (arith, get-put location location cache skus, eq_refl location)
        | is_err x e ↦ ground arith
        | is_panic e ↦ ground arith
      ]
    ]

    -- The state after a question: as it was, or with what Azure lists for the location.
    get_sku-state :
        ((get_sku azure location vm_type skus).1 ≡ skus)
        ⊎ ((cache : Cache) × (azure location ≡ ok cache)
            × ((get_sku azure location vm_type skus).1 ≡ put location cache skus))
    unfolding get_sku ensure_cache cached_sku init_cache
    get_sku-state = elim (Bool-cases (is_empty location)) [
      | inl e ↦ inl (ground arith)
      | inr named ↦ elim (Bool-cases (is_empty vm_type)) [
        | inl e ↦ inl (ground arith)
        | inr typed ↦ elim (Option-cases (get location skus)) [
          | inr (cache, held) ↦ inl (ground arith)
          | inl missing ↦ elim (Result-cases (azure location)) [
            | is_ok cache e ↦ inr (cache, e, ground arith)
            | is_err x e ↦ inl (ground arith)
            | is_panic e ↦ inl (ground arith)
          ]
        ]
      ]
    ]

    get_sku-kept : IsFaithful (get_sku azure location vm_type skus).1
    get_sku-kept = elim get_sku-state [
      | inl same ↦ rw same f
      | inr (cache, listed, filled) ↦ rw filled (IsFaithful-put skus location cache f listed)
    ]

  get_sku-Answers :
      (location vm_type : String)
      → Answers (get_sku azure location vm_type) (direct_sku location vm_type)
  get_sku-Answers location vm_type = record {
    result = λ skus f. get_sku-result location vm_type skus f;
    kept = λ skus f. get_sku-kept location vm_type skus f;
  }

  -- Rules for actions that are composed.
  pub Answers-lift : {A : Type 0} (r : Result A) → Answers (lift r) r
  Answers-lift r = record { result = λ skus f. refl; kept = λ skus f. f }

  pub Answers-resume :
      {A B : Type 0} (r : Result A) (f : A → Exec Skus B) (g : A → Result B)
      → ((a : A) → Answers (f a) (g a))
      → Answers (λ s. resume r f s) (r >>= g)
  Answers-resume (ok a) f g h = h a
  Answers-resume (err e) f g h = record { result = λ skus k. refl; kept = λ skus k. k }
  Answers-resume panic f g h = record { result = λ skus k. refl; kept = λ skus k. k }

  pub Answers-bind :
      {A B : Type 0} {m : Exec Skus A} {r : Result A} {f : A → Exec Skus B} {g : A → Result B}
      → Answers m r
      → ((a : A) → Answers (f a) (g a))
      → Answers (Exec.◌>>=◌ m f) (r >>= g)
  Answers-bind {m} {r} {f} {g} hm hf = record {
    result = λ skus k.
        rw (hm.result skus k) ((Answers-resume r f g hf).result (m skus).1 (hm.kept skus k));
    kept = λ skus k.
        rw (hm.result skus k) ((Answers-resume r f g hf).kept (m skus).1 (hm.kept skus k));
  }

  pub Answers-seq :
      {B : Type 0} {m : Exec Skus (Unit {0})} {r : Check} {n : Exec Skus B} {q : Result B}
      → Answers m r
      → Answers n q
      → Answers (Exec.◌>>◌ m n) (r >> q)
  Answers-seq hm hn = Answers-bind hm (λ _. hn)

  -- A check that asks nothing.
  pub Answers-guard :
      {B : Type 0} (r : Check) {n : Exec Skus B} {q : Result B}
      → Answers n q
      → Answers (Exec.◌>>◌ (lift r) n) (r >> q)
  Answers-guard r h = Answers-seq (Answers-lift r) h

  pub Answers-if :
      {A : Type 0} (b : Bool) {m m' : Exec Skus A} {r r' : Result A}
      → Answers m r
      → Answers m' r'
      → Answers (if b then m else m') (if b then r else r')
  Answers-if true h h' = h
  Answers-if false h h' = h'

  get_capability-Answers :
      (location vm_type name : String)
      → Answers
          (get_capability azure location vm_type name)
          (direct_capability location vm_type name)
  unfolding get_capability direct_capability
  get_capability-Answers location vm_type name =
      Answers-seq (Answers-lift (reject_if (is_empty name) invalid_request))
        (Answers-bind (get_sku-Answers location vm_type) λ sku. Answers-lift _)

  -- With a faithful cache `HasCapability` answers what Azure lists, and the cache stays faithful.
  pub has_capability-Answers :
      (location vm_type name : String)
      → Answers
          (has_capability azure location vm_type name)
          (direct_has_capability location vm_type name)
  unfolding has_capability direct_has_capability
  has_capability-Answers location vm_type name =
      Answers-bind (get_capability-Answers location vm_type name) λ c. Answers-lift _

  -- With a faithful cache `CPUs` answers from what Azure lists, and the cache stays faithful.
  pub cpus-Answers :
      (location vm_type : String)
      → Answers (cpus azure location vm_type) (direct_cpus location vm_type)
  unfolding cpus direct_cpus
  cpus-Answers location vm_type =
      Answers-bind (get_capability-Answers location vm_type capability_cpus) λ c. Answers-lift _

  -- With a faithful cache `Memory` answers from what Azure lists, and the cache stays faithful.
  pub memory-Answers :
      (location vm_type : String)
      → Answers (memory azure location vm_type) (direct_memory location vm_type)
  unfolding memory direct_memory
  memory-Answers location vm_type =
      Answers-bind (get_capability-Answers location vm_type capability_memory) λ c. Answers-lift _

  -- With a faithful cache `SupportedAZs` answers from what Azure lists, and the cache stays faithful.
  pub supported_azs-Answers :
      (location vm_type : String)
      → Answers (supported_azs azure location vm_type) (direct_supported_azs location vm_type)
  unfolding supported_azs direct_supported_azs
  supported_azs-Answers location vm_type = record {
    result = λ skus f. ap (zones_or_none azure) ((get_sku-Answers location vm_type).result skus f);
    kept = (get_sku-Answers location vm_type).kept;
  }
