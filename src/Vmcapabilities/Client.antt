-- ===== src/Vmcapabilities/Client.antt =====
-- internal/vmcapabilities/client.go: the pages of SKUs that Azure lists, gathered in one map.
use azure_admission_controll.Prelude.{
  ℕ, zero, suc, ◌<◌, String, List, [], ◌∷◌, Option, none, some, Bool, true, false, ◌≡◌, ◌∙◌, refl,
  ◌==◌, arith, get, put, get-put, if◌then◌else◌, length,
}
use azure_admission_controll.Error.{Error}
use azure_admission_controll.Result.{Result, ok, err, panic, ◌>>=◌}
use azure_admission_controll.Vmcapabilities.{ResourceSku, Cache}

-- compute.ResourceSkusClient: `ListComplete`, and the iterator that it returns. `next` is
-- `NextWithContext`, which goes on to the next SKU, by way of the next page where a page is done.
pub record SkuClient : Type 1 where
  pub Iterator : Type 0
  pub list_complete : (filter : String) → Result Iterator
  pub not_done : Iterator → Bool
  pub value : Iterator → ResourceSku
  pub next : Iterator → Result Iterator

module _ (client : SkuClient) where
  open client use {Iterator, list_complete, not_done, value, next}

  -- The loop of `List`; `none` where the fuel runs out.
  unfoldable pub gather : ℕ → Iterator → Cache → Option (Result Cache)
  gather zero iterator skus = none
  gather (suc fuel) iterator skus = elim (not_done iterator) [
    | false ↦ some (ok skus)
    | true ↦ elim (value iterator).name [
      | none ↦ some panic
      | some name ↦ elim (next iterator) [
        | ok iterator' ↦ gather fuel iterator' (put name (value iterator) skus)
        | err e ↦ some (err e)
        | panic ↦ some panic
      ]
    ]
  ]

  unfoldable pub list : ℕ → String → Option (Result Cache)
  unfolding gather
  list fuel filter = elim (list_complete filter) [
    | ok iterator ↦ gather fuel iterator []
    | err e ↦ some (err e)
    | panic ↦ some panic
  ]

  -- How the iterator goes: it shows the SKUs and is done, or fails after the last of them.
  pub data Walk : Iterator → List ResourceSku → Result (Unit {0}) → Type 0 where
    done : (i : Iterator) → not_done i ≡ false → Walk i [] (ok tt)
    fails :
        (i : Iterator) (e : Error)
        → not_done i ≡ true
        → next i ≡ err e
        → Walk i (value i ∷ []) (err e)
    goes :
        (i i' : Iterator) (skus : List ResourceSku) (end : Result (Unit {0}))
        → not_done i ≡ true
        → next i ≡ ok i'
        → Walk i' skus end
        → Walk i (value i ∷ skus) end

-- Azure names every SKU.
pub data AllNamed : List ResourceSku → Type 0 where
  none_left : AllNamed []
  named :
      (sku : ResourceSku) (name : String) (skus : List ResourceSku)
      → sku.name ≡ some name
      → AllNamed skus
      → AllNamed (sku ∷ skus)

-- The last SKU of a name.
pub last_of : String → List ResourceSku → Option ResourceSku → Option ResourceSku
last_of name [] before = before
last_of name (sku ∷ skus) before =
    last_of name skus
      (elim sku.name [ none ↦ before | some n ↦ if n == name then some sku else before ])

module _ (client : SkuClient) where
  open client use {Iterator, list_complete, not_done, value, next}

  -- The map holds, for each name, the last SKU of that name, or else what it held before.
  abbrev Gathers : List ResourceSku → Cache → Cache → Type 0
  Gathers skus before after = (name : String) → get name after ≡ last_of name skus (get name before)

  Gathers-put :
      (sku : ResourceSku) (n : String) (skus : List ResourceSku) (before after : Cache)
      → sku.name ≡ some n
      → Gathers skus (put n sku before) after
      → Gathers (sku ∷ skus) before after
  unfolding last_of
  Gathers-put sku n skus before after e h name = rw (e, ← get-put n name sku before) (h name)

  Gathers-nil : (before : Cache) → Gathers [] before before
  unfolding last_of
  Gathers-nil before name = refl

  gather-goes :
      (fuel : ℕ) (i i' : Iterator) (n : String) (before : Cache)
      → not_done i ≡ true
      → (value i).name ≡ some n
      → next i ≡ ok i'
      → gather client (suc fuel) i before ≡ gather client fuel i' (put n (value i) before)
  unfolding gather
  gather-goes fuel i i' n before more p on = ground arith

  -- With more fuel than SKUs the loop ends, with all of them or with the iterator's error.
  gather-Walk :
      (fuel : ℕ) (i : Iterator) (skus : List ResourceSku) (end : Result (Unit {0})) (before : Cache)
      → Walk client i skus end
      → AllNamed skus
      → length skus < fuel
      → (after : Cache) × (gather client fuel i before ≡ some (end >>= λ _. ok after))
        × Gathers skus before after
  unfolding gather
  gather-Walk zero i skus end before w a h = elim h [ ]
  gather-Walk (suc fuel) i _ _ before (done _ over) a h =
      (before, rw (over, gather) refl, Gathers-nil before)
  gather-Walk (suc fuel) i _ _ before (fails _ e more stop) (named _ n _ p _) h = (
    put n (value i) before,
    rw (more, p, stop, gather) refl,
    Gathers-put (value i) n [] before _ p (Gathers-nil _),
  )
  gather-Walk (suc fuel) i _ _ before (goes _ i' skus end more on w) (named _ n _ p a) h =
      let (after, runs, all) =
        gather-Walk fuel i' skus end (put n (value i) before) w a (omega arith) in
      (
        after,
        gather-goes fuel i i' n before more p on ∙ runs,
        Gathers-put (value i) n skus before after p all,
      )

  -- If the iterator of a filter shows finitely many SKUs, each with a name, and then is done or fails,
  -- the loop of `List` ends after at most one round more than there are SKUs. It returns the iterator's
  -- error, or a map that holds the last SKU of each name and nothing else.
  pub list-Walk :
      (filter : String) (i : Iterator) (skus : List ResourceSku) (end : Result (Unit {0}))
      → list_complete filter ≡ ok i
      → Walk client i skus end
      → AllNamed skus
      → (fuel : ℕ) → length skus < fuel
      → (cache : Cache) × (list client fuel filter ≡ some (end >>= λ _. ok cache))
        × ((name : String) → get name cache ≡ last_of name skus none)
  unfolding list get
  list-Walk filter i skus end start w a fuel h =
      let (cache, runs, all) = gather-Walk fuel i skus end [] w a h in
      (cache, rw (start, list) runs, all)
