-- ===== src/Vmcapabilities/Concurrent/Moves.antt =====
-- What one step of one request does.
use azure_admission_controll.Prelude.{
  ◌==◌, ℕ, ◌+◌, ◌<◌, String, Option, none, some, Bool, true, false, ◌≡◌, refl, arith, get, put,
  get-put, eq_refl, Option-cases, Bool-cases, inl, inr,
}
use azure_admission_controll.Error.{invalid_request}
use azure_admission_controll.Result.{Result, err, panic, Result-cases, is_ok, is_err, is_panic}
use azure_admission_controll.Vmcapabilities.{Cache, Skus, ResourceSku, is_empty, cached_sku}
use azure_admission_controll.Vmcapabilities.Caching.{IsFaithful, IsFaithful-put, direct_sku}
use azure_admission_controll.Vmcapabilities.Once.{Holds}
use azure_admission_controll.Vmcapabilities.Concurrent.{
  Pc, asked, waiting, holding, reading, finished, Shared, advance,
}
use azure_admission_controll.Vmcapabilities.Concurrent.Threads.{held_by, rank}

Holds-put :
    (location l : String) (cache : Cache) {skus : Skus}
    → Holds l skus
    → Holds l (put location cache skus)
Holds-put location l cache {skus} h = elim (Bool-cases (location == l)) [
  | inl same ↦ record { cache = cache; held = ground (arith, get-put location l cache skus) }
  | inr other ↦ record {
    cache = h.cache;
    held = ground (arith, get-put location l cache skus, h.held);
  }
]

abbrev pub lock_bit : Bool → ℕ
lock_bit true = 1
lock_bit false = 0

-- The request names a location and a VM size.
pub record IsNamed (location vm_type : String) : Type 0 where
  pub location_given : is_empty location ≡ false
  pub vm_type_given : is_empty vm_type ≡ false

module _ (azure : String → Result Cache) where
  -- What is true of a request where it stands: a lookup finds the location in the cache, and the answer
  -- is the one without a cache.
  abbrev pub IsRight : Skus → String → String → Pc → Type 0
  IsRight skus location vm_type asked = Unit
  IsRight skus location vm_type waiting = IsNamed location vm_type
  IsRight skus location vm_type holding = IsNamed location vm_type
  IsRight skus location vm_type reading = IsNamed location vm_type × Holds location skus
  IsRight skus location vm_type (finished r) = r ≡ direct_sku azure location vm_type

  pub record Moves (location vm_type : String) (pc : Pc) (shared shared' : Shared) (pc' : Pc)
      : Type 0 where
    pub faithful : IsFaithful azure shared'.skus
    pub kept : (l : String) → Holds l shared.skus → Holds l shared'.skus
    pub lock : held_by pc' + lock_bit shared.locked ≡ held_by pc + lock_bit shared'.locked
    pub right : IsRight shared'.skus location vm_type pc'
    pub less : rank pc' < rank pc

  abbrev pub MovesIf : String → String → Pc → Shared → Option (Shared × Pc) → Type 0
  MovesIf location vm_type pc shared none = Unit
  MovesIf location vm_type pc shared (some (shared', pc')) =
      Moves location vm_type pc shared shared' pc'

  module _ (location vm_type : String) (shared : Shared) (f : IsFaithful azure shared.skus) where
    stays :
        (pc pc' : Pc)
        → held_by pc ≡ 0
        → held_by pc' ≡ 0
        → rank pc' < rank pc
        → IsRight shared.skus location vm_type pc'
        → Moves location vm_type pc shared shared pc'
    stays pc pc' h h' less right = record {
      faithful = f;
      kept = λ l held. held;
      lock = omega (arith, h, h');
      right = right;
      less = less;
    }

    pub asked-MovesIf :
        MovesIf location vm_type asked shared (advance azure asked shared location vm_type)
    unfolding advance direct_sku
    asked-MovesIf = elim (Bool-cases (is_empty location)) [
      | inl e ↦
          rw e (stays asked (finished (err invalid_request)) refl refl (omega arith) (rw e refl))
      | inr named ↦ elim (Bool-cases (is_empty vm_type)) [
        | inl e ↦
            rw (named, e)
              (stays asked (finished (err invalid_request)) refl refl (omega arith)
                (rw (named, e) refl))
        | inr typed ↦ elim (Option-cases (get location shared.skus)) [
          | inl missing ↦
              rw (named, typed, missing)
                (stays asked waiting refl refl (omega arith)
                  (record { location_given = named; vm_type_given = typed }))
          | inr (cache, held) ↦
              rw (named, typed, held)
                (stays asked reading refl refl (omega arith) (
                  record { location_given = named; vm_type_given = typed },
                  record { cache = cache; held = held },
                ))
        ]
      ]
    ]

    pub waiting-MovesIf :
        IsNamed location vm_type
        → MovesIf location vm_type waiting shared (advance azure waiting shared location vm_type)
    unfolding advance
    waiting-MovesIf n = elim (Bool-cases shared.locked) [
      | inl e ↦ rw e tt
      | inr e ↦ rw e (record {
        faithful = f;
        kept = λ l held. held;
        lock = refl;
        right = n;
        less = omega arith;
      })
    ]

    fails :
        (r : Result ResourceSku)
        → shared.locked ≡ true
        → r ≡ direct_sku azure location vm_type
        → Moves location vm_type holding shared (record shared { locked = false }) (finished r)
    fails r locked h = record {
      faithful = f;
      kept = λ l held. held;
      lock = rw locked refl;
      right = h;
      less = omega arith;
    }

    pub holding-MovesIf :
        shared.locked ≡ true
        → IsNamed location vm_type
        → MovesIf location vm_type holding shared (advance azure holding shared location vm_type)
    unfolding advance direct_sku
    holding-MovesIf locked n = elim (Result-cases (azure location)) [
      | is_ok cache e ↦ rw e (record {
        faithful = IsFaithful-put azure shared.skus location cache f e;
        kept = λ l held. Holds-put location l cache held;
        lock = rw locked refl;
        right = (
          n,
          record {
            cache = cache;
            held = ground (arith, get-put location location cache shared.skus, eq_refl location);
          },
        );
        less = omega arith;
      })
      | is_err x e ↦ rw e (fails (err x) locked (rw (n.location_given, n.vm_type_given, e) refl))
      | is_panic e ↦ rw e (fails panic locked (rw (n.location_given, n.vm_type_given, e) refl))
    ]

    pub reading-MovesIf :
        IsNamed location vm_type
        → Holds location shared.skus
        → MovesIf location vm_type reading shared (advance azure reading shared location vm_type)
    unfolding advance direct_sku cached_sku
    reading-MovesIf n held =
        stays reading (finished (cached_sku azure location vm_type shared.skus).0) refl refl
          (omega arith)
          (rw
            (
              n.location_given,
              n.vm_type_given,
              f.at location held.cache held.held,
              cached_sku,
              held.held,
            )
            refl)
