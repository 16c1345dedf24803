-- ===== src/Result.antt =====
-- Go's `(value, error)` results, with the panics of a nil dereference, and actions on a state.
use azure_admission_controll.Prelude.{◌≡◌, refl, Bool, true, false, not, Option, none, some}
use azure_admission_controll.Error.{Error}

pub data Result {ℓ} (A : Type ℓ) : Type ℓ where
  ok : A → Result A
  err : Error → Result A
  panic : Result A

-- A function that returns only an `error`.
abbrev pub Check : Type 0
Check = Result (Unit {0})

abbrev pub accept : Check
accept = ok tt

module _ {u v} {A : Type u} {B : Type v} where
  infixl 5 ◌>>=◌
  abbrev pub ◌>>=◌ : Result A → (A → Result B) → Result B
  panic >>= next = panic
  err x >>= next = err x
  ok value >>= next = next value

  -- What `if err != nil { return err }` passed on, when a result came out.
  pub >>=-eq-ok :
      (first : Result A) (next : A → Result B) {b : B}
      → (first >>= next) ≡ ok b
      → (a : A) × (first ≡ ok a) × (next a ≡ ok b)
  >>=-eq-ok panic next out = cc
  >>=-eq-ok (err x) next out = cc
  >>=-eq-ok (ok value) next out = (value, refl, out)

infixl 5 ◌>>◌
abbrev pub ◌>>◌ {v} : {B : Type v} → Check → Result B → Result B
check >> then = check >>= λ _. then

-- `if b { return e }`
abbrev pub reject_if : Bool → Error → Check
reject_if true e = err e
reject_if false e = accept

-- `*p` for a pointer that may be nil.
abbrev pub deref {ℓ} : {A : Type ℓ} → Option A → Result A
deref none = panic
deref (some a) = ok a

-- An error replaced by another: `if err != nil { return Maskf(e, …) }`.
abbrev pub or_else {ℓ} : {A : Type ℓ} → Result A → Error → Result A
or_else (ok a) e = ok a
or_else (err _) e = err e
or_else panic e = panic

-- An optional value that must be there.
abbrev pub require {ℓ} : {A : Type ℓ} → Option A → Error → Result A
require none e = err e
require (some a) e = ok a

-- A sequence of checks accepts exactly when each of them does.
pub >>-eq-accept : (m k : Check) → (m >> k) ≡ accept → (m ≡ accept) × (k ≡ accept)
>>-eq-accept (ok tt) k h = (refl, h)
>>-eq-accept (err e) k h = cc
>>-eq-accept panic k h = cc

pub accept->> : (m k : Check) → m ≡ accept → k ≡ accept → (m >> k) ≡ accept
accept->> m k p q = rw p q

pub require-eq-ok {ℓ} :
    {A : Type ℓ} (o : Option A) (e : Error) {a : A} → require o e ≡ ok a → o ≡ some a
require-eq-ok none e h = cc
require-eq-ok (some b) e h = cc

pub data ResultCases {ℓ} {A : Type ℓ} (r : Result A) : Type ℓ where
  is_ok : (a : A) → r ≡ ok a → ResultCases r
  is_err : (e : Error) → r ≡ err e → ResultCases r
  is_panic : r ≡ panic → ResultCases r

pub Result-cases {ℓ} : {A : Type ℓ} (r : Result A) → ResultCases r
Result-cases (ok a) = is_ok a refl
Result-cases (err e) = is_err e refl
Result-cases panic = is_panic refl

-- `if err != nil { return err }; if !b { return e }` accepts only if the answer is true.
pub confirmed :
    (r : Result Bool) (e : Error) → (r >>= λ b. reject_if (not b) e) ≡ accept → r ≡ ok true
confirmed (ok true) e h = refl
confirmed (ok false) e h = cc
confirmed (err x) e h = cc
confirmed panic e h = cc
