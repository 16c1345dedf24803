-- ===== src/Vmcapabilities/Concurrent/Endings.antt =====
-- Requests that run together all come to an end, whatever the order of their steps.
use azure_admission_controll.Prelude.{
  map, ◌∙◌, ◌⊎◌, ℕ, ◌+◌, ◌*◌, ◌≤◌, String, List, [], ◌∷◌, some, false, ◌≡◌, refl, ap, arith, length,
  Bool-cases, inl, inr,
}
use azure_admission_controll.Result.{Result}
use azure_admission_controll.Vmcapabilities.{Cache, Skus}
use azure_admission_controll.Vmcapabilities.Caching.{IsFaithful, direct_sku}
use azure_admission_controll.Vmcapabilities.Concurrent.{
  start, begin_request, Pc, asked, waiting, holding, reading, finished, Thread, Shared, System,
  advance, Step, goes, Runs, begin, then_step,
}
use azure_admission_controll.Vmcapabilities.Concurrent.Threads.{rank, question, work, All}
use azure_admission_controll.Vmcapabilities.Concurrent.Moves.{IsRight}
use azure_admission_controll.Vmcapabilities.Concurrent.Threads.{Found, find_holder, find_unfinished}
use azure_admission_controll.Vmcapabilities.Concurrent.Interleaving.{
  Inv, IsRightAt, Runs-Inv, Step-work, Step-question,
}

module _ (azure : String → Result Cache) where
  -- A request with steps before it can go on, unless the lock is held by another.
  advance-goes :
      (pc : Pc) (shared : Shared) (location vm_type : String)
      → 1 ≤ rank pc
      → (pc ≡ holding) ⊎ (shared.locked ≡ false)
      → (r : Shared × Pc) × (advance azure pc shared location vm_type ≡ some r)
  unfolding advance
  advance-goes asked shared location vm_type h free = (_, refl)
  advance-goes waiting shared location vm_type h (inl e) = absurd cc
  advance-goes waiting shared location vm_type h (inr e) = rw e (_, refl)
  advance-goes holding shared location vm_type h free = (_, refl)
  advance-goes reading shared location vm_type h free = (_, refl)
  advance-goes (finished r) shared location vm_type h free = absurd (omega arith)

  Found-goes :
      (P : Pc → Type 0) (s : System) (f : Found P s.threads)
      → 1 ≤ rank f.thread.pc
      → (f.thread.pc ≡ holding) ⊎ (s.shared.locked ≡ false)
      → (s' : System) × Step azure s s'
  Found-goes P s f h free =
      let ((shared', pc'), e) =
        advance-goes f.thread.pc s.shared f.thread.location f.thread.vm_type h free in
      let (ts', r) = f.swap (record f.thread { pc = pc' }) in
      (
        record { shared = shared'; threads = ts' },
        goes s.shared shared' f.thread pc' s.threads ts' e r,
      )

  Inv-goes :
      (s : System)
      → Inv azure s
      → ((s' : System) × Step azure s s') ⊎ All (λ t. rank t.pc ≡ 0) s.threads
  Inv-goes s inv = elim (Bool-cases s.shared.locked) [
    | inl locked ↦
        let f = find_holder s.threads (rw (inv.lock, locked) (omega arith)) in
        inl (Found-goes _ s f (rw f.fact (omega arith)) (inl f.fact))
    | inr free ↦ elim (find_unfinished s.threads) [
      | inl f ↦ inl (Found-goes _ s f f.fact (inr free))
      | inr done ↦ inr done
    ]
  ]

  -- The end of a request that is alone, and finds no cache.
  abbrev pub answer : String × String → Pc
  answer (location, vm_type) = finished (direct_sku azure location vm_type)

  answer-lem :
      (skus : Skus) (location vm_type : String) (pc : Pc)
      → rank pc ≡ 0
      → IsRight azure skus location vm_type pc
      → pc ≡ answer (location, vm_type)
  answer-lem skus location vm_type asked h right = absurd (omega arith)
  answer-lem skus location vm_type waiting h right = absurd (omega arith)
  answer-lem skus location vm_type holding h right = absurd (omega arith)
  answer-lem skus location vm_type reading h right = absurd (omega arith)
  answer-lem skus location vm_type (finished r) h right = ap finished right

  All-answer :
      (skus : Skus) (ts : List Thread)
      → All (λ t. rank t.pc ≡ 0) ts
      → All (IsRightAt azure skus) ts
      → map (λ t. t.pc) ts ≡ map answer (map question ts)
  All-answer skus [] done right = refl
  All-answer skus (t ∷ ts) (e, done) (h, right) =
      rw (answer-lem skus t.location t.vm_type t.pc e h, All-answer skus ts done right) refl

  work-begin : (qs : List (String × String)) → work (map begin_request qs) ≡ 4 * length qs
  work-begin [] = refl
  work-begin (q ∷ qs) = omega (arith, work-begin qs)

  question-begin : (qs : List (String × String)) → map question (map begin_request qs) ≡ qs
  question-begin [] = refl
  question-begin (q ∷ qs) = ap (λ rest. q ∷ rest) (question-begin qs)

  pub record Ends (qs : List (String × String)) (n : ℕ) (s : System) : Type 0 where
    pub bounded : n ≤ 4 * length qs
    pub goes_on : ((s' : System) × Step azure s s') ⊎ (map (λ t. t.pc) s.threads ≡ map answer qs)

  module _ (skus : Skus) (qs : List (String × String)) (f : IsFaithful azure skus) where
    Runs-work :
        {n : ℕ} {s : System} → Runs azure (start skus qs) n s → n + work s.threads ≤ 4 * length qs
    unfolding start
    Runs-work begin = omega (arith, work-begin qs)
    Runs-work (then_step n s s' r st) =
        omega (arith, Runs-work r, Step-work azure st (Runs-Inv azure skus qs f r))

    Runs-question :
        {n : ℕ} {s : System} → Runs azure (start skus qs) n s → map question s.threads ≡ qs
    unfolding start
    Runs-question begin = question-begin qs
    Runs-question (then_step n s s' r st) = Step-question azure st ∙ Runs-question r

    -- Requests that run together, from a faithful cache and a free lock, take four steps each at most,
    -- whatever the order of the steps: either one of them can go on, so that they never wait for each
    -- other in vain, or all are at their end, each with the answer that Azure gives without a cache.
    pub Runs-Ends : {n : ℕ} {s : System} → Runs azure (start skus qs) n s → Ends qs n s
    Runs-Ends {s} r =
        let inv = Runs-Inv azure skus qs f r in
        record {
          bounded = omega (arith, Runs-work r);
          goes_on = elim (Inv-goes s inv) [
            | inl next ↦ inl next
            | inr done ↦
                inr (rw⁻¹ (Runs-question r) (All-answer s.shared.skus s.threads done inv.right))
          ];
        }
