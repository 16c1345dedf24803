-- ===== src/Vmcapabilities/Once.antt =====
-- A location that is in the cache is not asked for again.
use azure_admission_controll.Prelude.{
  String, Option, none, some, Bool, ◌≡◌, refl, ap, arith, get, get-put, eq_refl, Option-cases,
  Bool-cases, inl, inr,
}
use azure_admission_controll.Result.{Result, ok, Result-cases, is_ok, is_err, is_panic}
use azure_admission_controll.Exec.{resume}
use azure_admission_controll.Vmcapabilities.{
  Cache, Skus, ResourceSku, capability_cpus, capability_memory, is_empty, init_cache, ensure_cache,
  cached_sku, get_sku, get_capability, number_of, supported, cpus, memory, has_capability,
  supported_azs, find_capability, zones_or_none,
}

-- The cache has what was listed for the location.
pub record Holds (location : String) (skus : Skus) : Type 0 where
  pub cache : Cache
  pub held : get location skus ≡ some cache

module _ (azure : String → Result Cache) where
  get_sku-Holds :
      (location vm_type : String) (skus : Skus) {sku : ResourceSku}
      → (get_sku azure location vm_type skus).0 ≡ ok sku
      → Holds location (get_sku azure location vm_type skus).1
  unfolding get_sku ensure_cache cached_sku init_cache
  get_sku-Holds location vm_type skus h = elim (Option-cases (get location skus)) [
    | inr (cache, held) ↦ record { cache = cache; held = ground arith }
    | inl missing ↦ elim (Result-cases (azure location)) [
      | is_ok cache e ↦ record {
        cache = cache;
        held = ground (arith, get-put location location cache skus, eq_refl location);
      }
      | is_err x e ↦ absurd (ground arith)
      | is_panic e ↦ absurd (ground arith)
    ]
  ]

  -- A capability is looked up in the SKU, with no further question.
  get_capability-sku :
      (location vm_type name : String) (skus : Skus) {c : Option String}
      → (get_capability azure location vm_type name skus).0 ≡ ok c
      → (sku : ResourceSku) × ((get_sku azure location vm_type skus).0 ≡ ok sku)
        × ((get_capability azure location vm_type name skus).1
            ≡ (get_sku azure location vm_type skus).1)
  unfolding get_capability
  get_capability-sku location vm_type name skus h = elim (Bool-cases (is_empty name)) [
    | inl blank ↦ absurd (ground arith)
    | inr named ↦ elim (Result-cases (get_sku azure location vm_type skus).0) [
      | is_ok sku e ↦ (sku, e, ground arith)
      | is_err x e ↦ absurd (ground arith)
      | is_panic e ↦ absurd (ground arith)
    ]
  ]

  get_capability-Holds :
      (location vm_type name : String) (skus : Skus) {c : Option String}
      → (get_capability azure location vm_type name skus).0 ≡ ok c
      → Holds location (get_capability azure location vm_type name skus).1
  get_capability-Holds location vm_type name skus h =
      let (sku, e, same) = get_capability-sku location vm_type name skus h in
      rw same (get_sku-Holds location vm_type skus e)

  has_capability-Holds :
      (location vm_type name : String) (skus : Skus) {b : Bool}
      → (has_capability azure location vm_type name skus).0 ≡ ok b
      → Holds location (has_capability azure location vm_type name skus).1
  unfolding has_capability
  has_capability-Holds location vm_type name skus h =
      elim (Result-cases (get_capability azure location vm_type name skus).0) [
        | is_ok c e ↦
            let same : (has_capability azure location vm_type name skus).1
                ≡ (get_capability azure location vm_type name skus).1 =
              ground arith in
            rw same (get_capability-Holds location vm_type name skus e)
        | is_err x e ↦ absurd (ground arith)
        | is_panic e ↦ absurd (ground arith)
      ]

module _ (azure : String → Result Cache) (location : String) where
  ensure_cache-held :
      (skus : Skus) → Holds location skus → ensure_cache azure location skus ≡ (ok tt, skus)
  unfolding ensure_cache
  ensure_cache-held skus h = rw (h.held, ensure_cache) refl

module _ (azure azure' : String → Result Cache) (location : String) where
  get_sku-held :
      (vm_type : String) (skus : Skus)
      → Holds location skus
      → get_sku azure' location vm_type skus ≡ get_sku azure location vm_type skus
  unfolding get_sku cached_sku
  get_sku-held vm_type skus h = elim (Bool-cases (is_empty location)) [
    | inl blank ↦ rw blank refl
    | inr named ↦ elim (Bool-cases (is_empty vm_type)) [
      | inl blank ↦ rw (named, blank) refl
      | inr typed ↦
          rw
            (
              named,
              typed,
              ensure_cache-held azure' location skus h,
              ensure_cache-held azure location skus h,
            )
            refl
    ]
  ]

  get_capability-held :
      (vm_type name : String) (skus : Skus)
      → Holds location skus
      → get_capability azure' location vm_type name skus
        ≡ get_capability azure location vm_type name skus
  unfolding get_capability
  get_capability-held vm_type name skus h = elim (Bool-cases (is_empty name)) [
    | inl blank ↦ rw blank refl
    | inr named ↦ rw named (
        ap
          (λ (r : Result ResourceSku × Skus).
            resume r.0
              (λ sku s.
                (ok (elim sku.capabilities [ none ↦ none | some cs ↦ find_capability name cs ]), s))
              r.1)
          (get_sku-held vm_type skus h))
  ]

  -- The four questions answer alike, and leave alike states behind, whatever Azure says.
  pub record SameAnswers (vm_type name : String) (skus : Skus) : Type 0 where
    pub capability :
        has_capability azure' location vm_type name skus
        ≡ has_capability azure location vm_type name skus
    pub cpu : cpus azure' location vm_type skus ≡ cpus azure location vm_type skus
    pub memory_gb : memory azure' location vm_type skus ≡ memory azure location vm_type skus
    pub zones :
        supported_azs azure' location vm_type skus ≡ supported_azs azure location vm_type skus

  held-SameAnswers :
      (vm_type name : String) (skus : Skus) → Holds location skus → SameAnswers vm_type name skus
  unfolding has_capability cpus memory supported_azs
  held-SameAnswers vm_type name skus h = record {
    capability =
        ap
          (λ (r : Result (Option String) × Skus).
            resume r.0 (λ c s. (ok (supported azure c), s)) r.1)
          (get_capability-held vm_type name skus h);
    cpu =
        ap (λ (r : Result (Option String) × Skus). resume r.0 (λ c s. (number_of azure c, s)) r.1)
          (get_capability-held vm_type capability_cpus skus h);
    memory_gb =
        ap (λ (r : Result (Option String) × Skus). resume r.0 (λ c s. (number_of azure c, s)) r.1)
          (get_capability-held vm_type capability_memory skus h);
    zones =
        ap (λ (r : Result ResourceSku × Skus). (zones_or_none azure r.0, r.1))
          (get_sku-held vm_type skus h);
  }

  -- Once `HasCapability` has answered a question about a location, Azure is not asked about it again:
  -- any of the four questions about any VM size there gives the same answer and leaves the same cache,
  -- whatever Azure would now list, or if it failed.
  pub has_capability-SameAnswers :
      (vm_type name : String) (skus : Skus) {b : Bool}
      → (has_capability azure location vm_type name skus).0 ≡ ok b
      → (vm_type' name' : String)
      → SameAnswers vm_type' name' (has_capability azure location vm_type name skus).1
  has_capability-SameAnswers vm_type name skus h vm_type' name' =
      held-SameAnswers vm_type' name' (has_capability azure location vm_type name skus).1
        (has_capability-Holds azure location vm_type name skus h)
