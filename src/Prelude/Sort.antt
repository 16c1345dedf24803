-- ===== src/Prelude/Sort.antt =====
-- `sort.Strings` and `sort.Ints`: the ascending list of the same elements. It depends on the elements
-- alone and not on their order.
use Prim.Native.Char.{code}
use Prim.Native.String.{String}
use mathlib.Core.Path.{◌≡◌, refl, ◌∙◌}
use mathlib.Core.Logic.{inl, inr, ◌↔◌, ∥∥₁_elim}
use mathlib.Core.Bool.{Bool, true, false, ◌&&◌, ◌||◌}
use mathlib.Core.List.{List, [], ◌∷◌, Perm, Permᴰ}
use mathlib.Core.List.Perm
use native.Mathlib.Omega.{arith}
use text.Mathlib.TextEquality.{Char-path}
use azure_admission_controll.Prelude.Tests.{ltb, leb, eqb, Bool-cases, if◌then◌else◌}
use azure_admission_controll.Prelude.Int.{ℤ, pos, negsuc, eqb_ℤ, eqb_ℤ_iff}

-- A total order with a test.
pub record Order (A : Type 0) : Type 0 where
  pub le : A → A → Bool
  pub total : (a b : A) → le a b ≡ false → le b a ≡ true
  pub trans : (a b c : A) → le a b ≡ true → le b c ≡ true → le a c ≡ true
  pub antisym : (a b : A) → le a b ≡ true → le b a ≡ true → a ≡ b

module _ {A : Type 0} (o : Order A) where
  abbrev pub insert : A → List A → List A
  insert x [] = x ∷ []
  insert x (y ∷ ys) = let rest = insert x ys in if o.le x y then x ∷ y ∷ ys else y ∷ rest

  abbrev pub sort : List A → List A
  sort [] = []
  sort (x ∷ xs) = insert x (sort xs)

  insert_comm : (x y : A) (l : List A) → insert x (insert y l) ≡ insert y (insert x l)
  insert_comm x y [] = ground (arith, o.total x y, o.total y x, o.antisym x y)
  insert_comm x y (z ∷ l) = ground (
    arith,
    o.total x y,
    o.total y x,
    o.antisym x y,
    o.trans x y z,
    o.trans y x z,
    o.total x z,
    o.total y z,
    o.trans x z y,
    o.trans y z x,
    insert_comm x y l,
  )

  Permᴰ-sort : {l m : List A} → Permᴰ l m → sort l ≡ sort m
  Permᴰ-sort Permᴰ.nil = refl
  Permᴰ-sort (Permᴰ.cons e d) = ground (arith, Permᴰ-sort d)
  Permᴰ-sort (Permᴰ.swap {a' = a} {b' = b} {l = l} e f) = rw (e, f) (insert_comm b a (sort l))
  Permᴰ-sort (Permᴰ.trans d e) = Permᴰ-sort d ∙ Permᴰ-sort e

  insert-perm : (x : A) (l : List A) → Perm (x ∷ l) (insert x l)
  insert-perm x [] = Perm.refl (x ∷ [])
  insert-perm x (y ∷ l) = elim (Bool-cases (o.le x y)) [
    | inl below ↦ rw below (Perm.refl (x ∷ y ∷ l))
    | inr above ↦ rw above (Perm.trans (Perm.swap y x l) (Perm.cons y (insert-perm x l)))
  ]

  pub sort-perm : (l : List A) → Perm l (sort l)
  sort-perm [] = Perm.refl []
  sort-perm (x ∷ l) = Perm.trans (Perm.cons x (sort-perm l)) (insert-perm x (sort l))

  -- A test of equality finds two sorted lists equal exactly when the lists are permutations.
  pub sort-eq_iff :
      (same : List A → List A → Bool)
      → ((l m : List A) → (same l m ≡ true) ↔ (l ≡ m))
      → (l m : List A) → (same (sort l) (sort m) ≡ true) ↔ Perm l m
  sort-eq_iff same same_iff l m = (
    λ h.
        let e : sort l ≡ sort m = (same_iff (sort l) (sort m)).0 h in
        Perm.trans (sort-perm l) (rw e (Perm.symm (sort-perm m))),
    λ q.
        ∥∥₁_elim q (bool_prop (same (sort l) (sort m)))
          λ d. (same_iff (sort l) (sort m)).1 (Permᴰ-sort d),
  )
    where
      bool_prop : (b : Bool) → IsProp (b ≡ true)
      bool_prop b = hlevel

abbrev pub leb_ℤ : ℤ → ℤ → Bool
leb_ℤ (pos a) (pos b) = leb a b
leb_ℤ (pos a) (negsuc b) = false
leb_ℤ (negsuc a) (pos b) = true
leb_ℤ (negsuc a) (negsuc b) = leb b a

pub leb_ℤ_total : (a b : ℤ) → leb_ℤ a b ≡ false → leb_ℤ b a ≡ true
leb_ℤ_total (pos a) (pos b) h = ground arith
leb_ℤ_total (pos a) (negsuc b) h = refl
leb_ℤ_total (negsuc a) (pos b) h = cc
leb_ℤ_total (negsuc a) (negsuc b) h = ground arith

pub leb_ℤ_trans : (a b c : ℤ) → leb_ℤ a b ≡ true → leb_ℤ b c ≡ true → leb_ℤ a c ≡ true
leb_ℤ_trans (pos a) (pos b) (pos c) p q = ground arith
leb_ℤ_trans (pos a) (pos b) (negsuc c) p q = cc
leb_ℤ_trans (pos a) (negsuc b) c p q = cc
leb_ℤ_trans (negsuc a) b (pos c) p q = refl
leb_ℤ_trans (negsuc a) (pos b) (negsuc c) p q = cc
leb_ℤ_trans (negsuc a) (negsuc b) (negsuc c) p q = ground arith

pub leb_ℤ_antisym : (a b : ℤ) → leb_ℤ a b ≡ true → leb_ℤ b a ≡ true → a ≡ b
leb_ℤ_antisym (pos a) (pos b) p q = ground arith
leb_ℤ_antisym (pos a) (negsuc b) p q = cc
leb_ℤ_antisym (negsuc a) (pos b) p q = cc
leb_ℤ_antisym (negsuc a) (negsuc b) p q = ground arith

abbrev pub eqb_ints : List ℤ → List ℤ → Bool
eqb_ints [] [] = true
eqb_ints (a ∷ l) (b ∷ m) = eqb_ℤ a b && eqb_ints l m
eqb_ints _ _ = false

pub eqb_ints_iff : (l m : List ℤ) → (eqb_ints l m ≡ true) ↔ (l ≡ m)
eqb_ints_iff [] [] = ground arith
eqb_ints_iff [] (b ∷ m) = ground arith
eqb_ints_iff (a ∷ l) [] = ground arith
eqb_ints_iff (a ∷ l) (b ∷ m) = ground (arith, eqb_ℤ_iff a b, eqb_ints_iff l m)

abbrev pub ints : Order ℤ
ints = record { le = leb_ℤ; total = leb_ℤ_total; trans = leb_ℤ_trans; antisym = leb_ℤ_antisym }

-- Bytes of UTF-8 are ordered as the code points are.
abbrev pub leb_text : String → String → Bool
leb_text String.[] t = true
leb_text (String.◌∷◌ c s) String.[] = false
leb_text (String.◌∷◌ c s) (String.◌∷◌ d t) =
    ltb (code c) (code d) || (eqb (code c) (code d) && leb_text s t)

pub leb_text_total : (s t : String) → leb_text s t ≡ false → leb_text t s ≡ true
leb_text_total String.[] t h = cc
leb_text_total (String.◌∷◌ c s) String.[] h = refl
leb_text_total (String.◌∷◌ c s) (String.◌∷◌ d t) h = ground (arith, leb_text_total s t)

pub leb_text_trans :
    (s t u : String) → leb_text s t ≡ true → leb_text t u ≡ true → leb_text s u ≡ true
leb_text_trans String.[] t u p q = refl
leb_text_trans (String.◌∷◌ c s) String.[] u p q = cc
leb_text_trans (String.◌∷◌ c s) (String.◌∷◌ d t) String.[] p q = cc
leb_text_trans (String.◌∷◌ c s) (String.◌∷◌ d t) (String.◌∷◌ e u) p q =
    ground (arith, leb_text_trans s t u)

pub leb_text_antisym : (s t : String) → leb_text s t ≡ true → leb_text t s ≡ true → s ≡ t
leb_text_antisym String.[] String.[] p q = refl
leb_text_antisym String.[] (String.◌∷◌ d t) p q = cc
leb_text_antisym (String.◌∷◌ c s) String.[] p q = cc
leb_text_antisym (String.◌∷◌ c s) (String.◌∷◌ d t) p q =
    let e : code c ≡ code d = ground arith in
    let r : s ≡ t = leb_text_antisym s t (ground arith) (ground arith) in
    λ i. String.◌∷◌ (Char-path c d e i) (r i)

abbrev pub texts : Order String
texts = record {
  le = leb_text;
  total = leb_text_total;
  trans = leb_text_trans;
  antisym = leb_text_antisym;
}
