-- ===== src/Vmcapabilities/Concurrent/Threads.antt =====
-- The list of requests: how many hold the lock, and how many steps they have before them at most.
use azure_admission_controll.Prelude.{
  map, ◌⊎◌, ℕ, ◌+◌, ◌≤◌, String, List, [], ◌∷◌, ◌≡◌, refl, ap, arith, length, inl, inr,
}
use azure_admission_controll.Vmcapabilities.Concurrent.{
  Pc, asked, waiting, holding, reading, finished, Thread, Replace, here, there,
}

abbrev pub held_by : Pc → ℕ
held_by holding = 1
held_by _ = 0

-- The steps that a request has before it at most.
abbrev pub rank : Pc → ℕ
rank asked = 4
rank waiting = 3
rank holding = 2
rank reading = 1
rank (finished r) = 0

abbrev pub holders : List Thread → ℕ
holders [] = 0
holders (t ∷ ts) = held_by t.pc + holders ts

abbrev pub work : List Thread → ℕ
work [] = 0
work (t ∷ ts) = rank t.pc + work ts

abbrev pub All : (Thread → Type 0) → List Thread → Type 0
All P [] = Unit
All P (t ∷ ts) = P t × All P ts

pub Replace-holders :
    {t t' : Thread} {ts ts' : List Thread}
    → Replace t t' ts ts'
    → holders ts' + held_by t.pc ≡ holders ts + held_by t'.pc
Replace-holders (here ts) = omega arith
Replace-holders (there x ts ts' r) = omega (arith, Replace-holders r)

pub Replace-held :
    {t t' : Thread} {ts ts' : List Thread} → Replace t t' ts ts' → held_by t.pc ≤ holders ts
Replace-held (here ts) = omega arith
Replace-held (there x ts ts' r) = omega (arith, Replace-held r)

pub Replace-work :
    {t t' : Thread} {ts ts' : List Thread}
    → Replace t t' ts ts'
    → work ts' + rank t.pc ≡ work ts + rank t'.pc
Replace-work (here ts) = omega arith
Replace-work (there x ts ts' r) = omega (arith, Replace-work r)

pub Replace-length :
    {t t' : Thread} {ts ts' : List Thread} → Replace t t' ts ts' → length ts' ≡ length ts
Replace-length (here ts) = refl
Replace-length (there x ts ts' r) = omega (arith, Replace-length r)

pub Replace-at :
    (P : Thread → Type 0) {t t' : Thread} {ts ts' : List Thread}
    → Replace t t' ts ts'
    → All P ts
    → P t
Replace-at P (here ts) (h, _) = h
Replace-at P (there x ts ts' r) (_, hs) = Replace-at P r hs

All-map :
    (P Q : Thread → Type 0) (ts : List Thread) → ((x : Thread) → P x → Q x) → All P ts → All Q ts
All-map P Q [] f hs = tt
All-map P Q (t ∷ ts) f (h, hs) = (f t h, All-map P Q ts f hs)

pub Replace-All :
    (P Q : Thread → Type 0) {t t' : Thread} {ts ts' : List Thread}
    → Replace t t' ts ts'
    → ((x : Thread) → P x → Q x)
    → Q t'
    → All P ts
    → All Q ts'
Replace-All P Q (here ts) f q (_, hs) = (q, All-map P Q ts f hs)
Replace-All P Q (there x ts ts' r) f q (h, hs) = (f x h, Replace-All P Q r f q hs)

abbrev pub question : Thread → String × String
question t = (t.location, t.vm_type)

pub Replace-question :
    (t : Thread) (pc' : Pc) {ts ts' : List Thread}
    → Replace t (record t { pc = pc' }) ts ts'
    → map question ts' ≡ map question ts
Replace-question t pc' (here ts) = refl
Replace-question t pc' (there x ts ts' r) = ap (λ qs. question x ∷ qs) (Replace-question t pc' r)

-- A request that is as asked for, with a way to have it go on.
pub record Found (P : Pc → Type 0) (ts : List Thread) : Type 0 where
  pub thread : Thread
  pub fact : P thread.pc
  pub swap : (t' : Thread) → (ts' : List Thread) × Replace thread t' ts ts'

Found-next : (P : Pc → Type 0) (x : Thread) {ts : List Thread} → Found P ts → Found P (x ∷ ts)
Found-next P x f = record {
  thread = f.thread;
  fact = f.fact;
  swap = λ t'. let (ts', r) = f.swap t' in (x ∷ ts', there x _ ts' r);
}

Found-first : (P : Pc → Type 0) (t : Thread) (ts : List Thread) → P t.pc → Found P (t ∷ ts)
Found-first P t ts h = record { thread = t; fact = h; swap = λ t'. (t' ∷ ts, here ts) }

held_by-cases : (pc : Pc) → (pc ≡ holding) ⊎ (held_by pc ≡ 0)
held_by-cases asked = inr refl
held_by-cases waiting = inr refl
held_by-cases holding = inl refl
held_by-cases reading = inr refl
held_by-cases (finished r) = inr refl

pub find_holder : (ts : List Thread) → 1 ≤ holders ts → Found (λ pc. pc ≡ holding) ts
find_holder [] h = absurd (omega arith)
find_holder (t ∷ ts) h = elim (held_by-cases t.pc) [
  | inl e ↦ Found-first (λ pc. pc ≡ holding) t ts e
  | inr e ↦ Found-next (λ pc. pc ≡ holding) t (find_holder ts (omega arith))
]

rank-cases : (pc : Pc) → (1 ≤ rank pc) ⊎ (rank pc ≡ 0)
rank-cases asked = inl (omega arith)
rank-cases waiting = inl (omega arith)
rank-cases holding = inl (omega arith)
rank-cases reading = inl (omega arith)
rank-cases (finished r) = inr refl

pub find_unfinished :
    (ts : List Thread) → Found (λ pc. 1 ≤ rank pc) ts ⊎ All (λ t. rank t.pc ≡ 0) ts
find_unfinished [] = inr tt
find_unfinished (t ∷ ts) = elim (rank-cases t.pc) [
  | inl h ↦ inl (Found-first (λ pc. 1 ≤ rank pc) t ts h)
  | inr e ↦ elim (find_unfinished ts) [
    | inl f ↦ inl (Found-next (λ pc. 1 ≤ rank pc) t f)
    | inr es ↦ inr (e, es)
  ]
]
