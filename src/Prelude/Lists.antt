-- ===== src/Prelude/Lists.antt =====
-- Lists measured by native numbers, with Boolean quantifiers and what they mean.
use Prim.Native.Nat.{ℕ, zero, suc, ◌≤◌}
use mathlib.Core.Path.{◌≡◌, refl}
use mathlib.Core.Logic.{inl, inr}
use mathlib.Core.Bool.{Bool, true, false, ◌||◌, ◌&&◌}
use mathlib.Core.Option.{Option, none, some}
use mathlib.Core.List.{List, [], ◌∷◌, ◌++◌, Memᴰ, reverse, reverse-cons}
use native.Mathlib.Omega.{arith}
use azure_admission_controll.Prelude.Tests.{Bool-cases, if◌then◌else◌}

module _ {ℓ} {A : Type ℓ} where
  abbrev pub length : List A → ℕ
  length [] = 0
  length (x ∷ xs) = suc (length xs)

  abbrev pub any : (A → Bool) → List A → Bool
  any p [] = false
  any p (x ∷ xs) = p x || any p xs

  abbrev pub all : (A → Bool) → List A → Bool
  all p [] = true
  all p (x ∷ xs) = p x && all p xs

  -- The elements that pass a test, in order.
  abbrev pub keep : (A → Bool) → List A → List A
  keep p [] = []
  keep p (x ∷ xs) = let rest = keep p xs in if p x then x ∷ rest else rest

  -- The first element that passes a test.
  abbrev pub first : (A → Bool) → List A → Option A
  first p [] = none
  first p (x ∷ xs) = let rest = first p xs in if p x then some x else rest

module _ {ℓ} {A : Type ℓ} where
  abbrev pub take : ℕ → List A → List A
  take zero xs = []
  take (suc n) [] = []
  take (suc n) (x ∷ xs) = x ∷ take n xs

  pub length-take-le : (n : ℕ) (xs : List A) → length (take n xs) ≤ n
  length-take-le zero xs = omega arith
  length-take-le (suc n) [] = omega arith
  length-take-le (suc n) (x ∷ xs) = omega (arith, length-take-le n xs)

  abbrev pub replicate : ℕ → A → List A
  replicate zero a = []
  replicate (suc n) a = a ∷ replicate n a

  -- A list that fits is not cut.
  pub take_of_le : (n : ℕ) (xs : List A) → length xs ≤ n → take n xs ≡ xs
  take_of_le zero [] h = refl
  take_of_le zero (x ∷ xs) h = absurd (omega arith)
  take_of_le (suc n) [] h = refl
  take_of_le (suc n) (x ∷ xs) h = rw (take_of_le n xs (omega arith))

module _ {ℓ} {A : Type ℓ} (p : A → Bool) where
  pub all-append : (xs ys : List A) → all p (xs ++ ys) ≡ (all p xs && all p ys)
  all-append [] ys = refl
  all-append (x ∷ xs) ys = ground (arith, all-append xs ys)

  pub all-reverse : (xs : List A) → all p (reverse xs) ≡ all p xs
  all-reverse [] = refl
  all-reverse (x ∷ xs) =
      rw (reverse-cons, all-append (reverse xs) (x ∷ [])) (ground (arith, all-reverse xs))

  pub all-take : (n : ℕ) (xs : List A) → all p xs ≡ true → all p (take n xs) ≡ true
  all-take zero xs h = refl
  all-take (suc n) [] h = refl
  all-take (suc n) (x ∷ xs) h = ground (arith, all-take n xs)

  pub any_sound : (xs : List A) → any p xs ≡ true → (x : A) × Memᴰ x xs × (p x ≡ true)
  any_sound [] h = cc
  any_sound (x ∷ xs) h = elim (Bool-cases (p x)) [
    | inl now ↦ (x, Memᴰ.head refl, now)
    | inr later ↦
        let (y, listed, passes) = any_sound xs (ground arith) in (y, Memᴰ.tail listed, passes)
  ]

  pub any_complete : (xs : List A) {x : A} → Memᴰ x xs → p x ≡ true → any p xs ≡ true
  any_complete [] m h = elim m [ ]
  any_complete (y ∷ xs) (Memᴰ.head e) h = ground arith
  any_complete (y ∷ xs) (Memᴰ.tail m) h = ground (arith, any_complete xs m h)

  pub none_of_any-false : (xs : List A) {x : A} → any p xs ≡ false → Memᴰ x xs → p x ≡ false
  none_of_any-false [] h m = elim m [ ]
  none_of_any-false (y ∷ xs) h (Memᴰ.head e) = ground arith
  none_of_any-false (y ∷ xs) h (Memᴰ.tail m) = none_of_any-false xs (ground arith) m

  pub any-false_of_none : (xs : List A) → ((x : A) → Memᴰ x xs → p x ≡ false) → any p xs ≡ false
  any-false_of_none [] h = refl
  any-false_of_none (y ∷ xs) h =
      ground (arith, h y (Memᴰ.head refl), any-false_of_none xs (λ x m. h x (Memᴰ.tail m)))

  kept_cases :
      (b : Bool) {x y : A} {xs rest : List A}
      → p y ≡ b
      → (Memᴰ x rest → Memᴰ x xs × (p x ≡ true))
      → Memᴰ x (if b then y ∷ rest else rest)
      → Memᴰ x (y ∷ xs) × (p x ≡ true)
  kept_cases true passes ih (Memᴰ.head e) = (Memᴰ.head e, rw e passes)
  kept_cases true passes ih (Memᴰ.tail m) = let (listed, q) = ih m in (Memᴰ.tail listed, q)
  kept_cases false passes ih m = let (listed, q) = ih m in (Memᴰ.tail listed, q)

  pub keep_sound : (xs : List A) {x : A} → Memᴰ x (keep p xs) → Memᴰ x xs × (p x ≡ true)
  keep_sound [] m = elim m [ ]
  keep_sound (y ∷ xs) m = kept_cases (p y) refl (keep_sound xs) m

  pub keep_complete : (xs : List A) {x : A} → Memᴰ x xs → p x ≡ true → Memᴰ x (keep p xs)
  keep_complete [] m h = elim m [ ]
  keep_complete (y ∷ xs) (Memᴰ.head e) h =
      let passes : p y ≡ true = rw (← e) h in rw passes (Memᴰ.head e)
  keep_complete (y ∷ xs) (Memᴰ.tail m) h = elim (Bool-cases (p y)) [
    | inl now ↦ rw now (Memᴰ.tail (keep_complete xs m h))
    | inr later ↦ rw later (keep_complete xs m h)
  ]
