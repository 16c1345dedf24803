-- ===== src/Vmcapabilities/Concurrent.antt =====
-- Several requests at once in `getSKU` of internal/vmcapabilities/vmsku.go. `initCache` holds the mutex
-- while it lists and writes; the map is read without it. A read and a write of the map are one step
-- each here, which Go does not promise of a map that is read while it is written.
pub mod Threads
pub mod Moves
pub mod Interleaving
pub mod Endings
mod Tests
use azure_admission_controll.Prelude.{
  ℕ, ◌+◌, String, List, [], ◌∷◌, map, Option, none, some, Bool, true, false, ◌||◌, get, put,
  if◌then◌else◌, ◌≡◌,
}
use azure_admission_controll.Error.{invalid_request}
use azure_admission_controll.Result.{Result, ok, err, panic}
use azure_admission_controll.Vmcapabilities.{Cache, Skus, ResourceSku, is_empty, cached_sku}

-- Where a request stands: before the test whether the location is cached, before the lock, with the
-- lock, before the lookup, or at its end.
pub data Pc : Type 0 where
  asked waiting holding reading : Pc
  finished : Result ResourceSku → Pc

pub record Thread : Type 0 where
  pub location : String
  pub vm_type : String
  pub pc : Pc

-- The fields `skus` and `initMutex` of VMSKU.
pub record Shared : Type 0 where
  pub skus : Skus
  pub locked : Bool

pub record System : Type 0 where
  pub shared : Shared
  pub threads : List Thread

abbrev begin_request : String × String → Thread
begin_request (location, vm_type) = record { location = location; vm_type = vm_type; pc = asked }

-- Requests for a location and a VM size come together; the lock is free.
unfoldable pub start : Skus → List (String × String) → System
start skus questions = record {
  shared = record { skus = skus; locked = false };
  threads = map begin_request questions;
}

-- One thread goes on, the others stay where they are.
pub data Replace (t t' : Thread) : List Thread → List Thread → Type 0 where
  here : (ts : List Thread) → Replace t t' (t ∷ ts) (t' ∷ ts)
  there :
      (x : Thread) (ts ts' : List Thread) → Replace t t' ts ts' → Replace t t' (x ∷ ts) (x ∷ ts')

module _ (azure : String → Result Cache) where
  -- The next step of a request; `none` where it waits for the lock, or has finished. `defer` gives the
  -- lock back in every case.
  unfoldable pub advance : Pc → Shared → (location vm_type : String) → Option (Shared × Pc)
  unfolding get put cached_sku
  advance asked shared location vm_type = some (
    shared,
    if is_empty location || is_empty vm_type
        then finished (err invalid_request)
        else elim (get location shared.skus) [ none ↦ waiting | some _ ↦ reading ],
  )
  advance waiting shared location vm_type =
      if shared.locked then none else some (record shared { locked = true }, holding)
  advance holding shared location vm_type = some (elim (azure location) [
    | ok listed ↦ (record { skus = put location listed shared.skus; locked = false }, reading)
    | err e ↦ (record shared { locked = false }, finished (err e))
    | panic ↦ (record shared { locked = false }, finished panic)
  ])
  advance reading shared location vm_type =
      some (shared, finished (cached_sku azure location vm_type shared.skus).0)
  advance (finished r) shared location vm_type = none

  -- The scheduler lets any thread go on that can.
  pub data Step : System → System → Type 0 where
    goes :
        (shared shared' : Shared) (t : Thread) (pc' : Pc) (ts ts' : List Thread)
        → advance t.pc shared t.location t.vm_type ≡ some (shared', pc')
        → Replace t (record t { pc = pc' }) ts ts'
        → Step
            (record { shared = shared; threads = ts })
            (record { shared = shared'; threads = ts' })

  -- Runs with their number of steps.
  pub data Runs (start : System) : ℕ → System → Type 0 where
    begin : Runs start 0 start
    then_step : (n : ℕ) (s s' : System) → Runs start n s → Step s s' → Runs start (n + 1) s'
