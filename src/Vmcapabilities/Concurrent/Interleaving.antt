-- ===== src/Vmcapabilities/Concurrent/Interleaving.antt =====
-- x
use mathlib.Core.Path.{subst}
use azure_admission_controll.Prelude.{
  map, ℕ, ◌≤◌, ◌<◌, String, List, [], ◌∷◌, some, Bool, true, false, ◌≡◌, refl, arith,
}
use azure_admission_controll.Result.{Result}
use azure_admission_controll.Vmcapabilities.{Cache, Skus}
use azure_admission_controll.Vmcapabilities.Caching.{IsFaithful}
use azure_admission_controll.Vmcapabilities.Once.{Holds}
use azure_admission_controll.Vmcapabilities.Concurrent.{
  start, begin_request, Pc, asked, waiting, holding, reading, finished, Thread, Shared, System,
  advance, Step, goes, Runs, begin, then_step,
}
use azure_admission_controll.Vmcapabilities.Concurrent.Threads.{
  held_by, rank, holders, question, Replace-question, work, All, Replace-holders, Replace-held,
  Replace-work, Replace-at, Replace-All,
}
use azure_admission_controll.Vmcapabilities.Concurrent.Moves.{
  lock_bit, IsRight, Moves, MovesIf, asked-MovesIf, waiting-MovesIf, holding-MovesIf,
  reading-MovesIf,
}

is_locked : (b : Bool) → 1 ≤ lock_bit b → b ≡ true
is_locked true h = refl
is_locked false h = absurd (omega arith)

module _ (azure : String → Result Cache) where
  IsRight-keeps :
      (skus skus' : Skus) (location vm_type : String) (pc : Pc)
      → ((l : String) → Holds l skus → Holds l skus')
      → IsRight azure skus location vm_type pc
      → IsRight azure skus' location vm_type pc
  IsRight-keeps skus skus' location vm_type asked k h = tt
  IsRight-keeps skus skus' location vm_type waiting k h = h
  IsRight-keeps skus skus' location vm_type holding k h = h
  IsRight-keeps skus skus' location vm_type reading k (n, held) = (n, k location held)
  IsRight-keeps skus skus' location vm_type (finished r) k h = h

  abbrev pub IsRightAt : Skus → Thread → Type 0
  IsRightAt skus t = IsRight azure skus t.location t.vm_type t.pc

  -- What is kept for a location is what Azure lists for it, the lock is held by one request if it is
  -- taken and by none if it is free, and every request stands where it may.
  pub record Inv (s : System) : Type 0 where
    pub faithful : IsFaithful azure s.shared.skus
    pub lock : holders s.threads ≡ lock_bit s.shared.locked
    pub right : All (IsRightAt s.shared.skus) s.threads

  advance-MovesIf :
      (location vm_type : String) (shared : Shared) (pc : Pc)
      → IsFaithful azure shared.skus
      → held_by pc ≤ lock_bit shared.locked
      → IsRight azure shared.skus location vm_type pc
      → MovesIf azure location vm_type pc shared (advance azure pc shared location vm_type)
  unfolding advance
  advance-MovesIf location vm_type shared asked f l h =
      asked-MovesIf azure location vm_type shared f
  advance-MovesIf location vm_type shared waiting f l h =
      waiting-MovesIf azure location vm_type shared f h
  advance-MovesIf location vm_type shared holding f l h =
      holding-MovesIf azure location vm_type shared f (is_locked shared.locked l) h
  advance-MovesIf location vm_type shared reading f l (n, held) =
      reading-MovesIf azure location vm_type shared f n held
  advance-MovesIf location vm_type shared (finished r) f l h = tt

  Step-Moves :
      (location vm_type : String) (shared shared' : Shared) (pc pc' : Pc)
      → IsFaithful azure shared.skus
      → held_by pc ≤ lock_bit shared.locked
      → IsRight azure shared.skus location vm_type pc
      → advance azure pc shared location vm_type ≡ some (shared', pc')
      → Moves azure location vm_type pc shared shared' pc'
  Step-Moves location vm_type shared shared' pc pc' f l h e =
      subst (λ x. MovesIf azure location vm_type pc shared x) e
        (advance-MovesIf location vm_type shared pc f l h)

  Step-Inv : {s s' : System} → Step azure s s' → Inv s → Inv s'
  Step-Inv (goes shared shared' t pc' ts ts' e r) inv =
      let h : IsRightAt shared.skus t = Replace-at (IsRightAt shared.skus) r inv.right in
      let m =
        Step-Moves t.location t.vm_type shared shared' t.pc pc' inv.faithful
          (omega (arith, Replace-held r, inv.lock)) h e in
      record {
        faithful = m.faithful;
        lock = omega (arith, m.lock, Replace-holders r, inv.lock);
        right =
            Replace-All (IsRightAt shared.skus) (IsRightAt shared'.skus) r
              (λ x. IsRight-keeps shared.skus shared'.skus x.location x.vm_type x.pc m.kept) m.right
              inv.right;
      }

  holders-begin : (qs : List (String × String)) → holders (map begin_request qs) ≡ 0
  holders-begin [] = refl
  holders-begin (q ∷ qs) = omega (arith, holders-begin qs)

  All-begin :
      (skus : Skus) (qs : List (String × String)) → All (IsRightAt skus) (map begin_request qs)
  All-begin skus [] = tt
  All-begin skus (q ∷ qs) = (tt, All-begin skus qs)

  Inv-start :
      (skus : Skus) (qs : List (String × String)) → IsFaithful azure skus → Inv (start skus qs)
  unfolding start
  Inv-start skus qs f = record { faithful = f; lock = holders-begin qs; right = All-begin skus qs }

  -- However requests that begin together with a faithful cache and a free lock take their steps, the
  -- cache stays faithful, one request at most is in `initCache`, a request that is about to look up has
  -- its location in the cache, and every answer given so far is the one that Azure gives without a cache.
  pub Runs-Inv :
      (skus : Skus) (qs : List (String × String)) {n : ℕ} {s : System}
      → IsFaithful azure skus
      → Runs azure (start skus qs) n s
      → Inv s
  Runs-Inv skus qs f begin = Inv-start skus qs f
  Runs-Inv skus qs f (then_step n s s' r st) = Step-Inv st (Runs-Inv skus qs f r)

  pub Step-work : {s s' : System} → Step azure s s' → Inv s → work s'.threads < work s.threads
  Step-work (goes shared shared' t pc' ts ts' e r) inv =
      let h : IsRightAt shared.skus t = Replace-at (IsRightAt shared.skus) r inv.right in
      let less : rank pc' < rank t.pc =
        (Step-Moves t.location t.vm_type shared shared' t.pc pc' inv.faithful
          (omega (arith, Replace-held r, inv.lock)) h e).less in
      omega (arith, less, Replace-work r)

  pub Step-question :
      {s s' : System} → Step azure s s' → map question s'.threads ≡ map question s.threads
  Step-question (goes shared shared' t pc' ts ts' e r) = Replace-question t pc' r
