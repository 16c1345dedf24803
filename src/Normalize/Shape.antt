-- ===== src/Normalize/Shape.antt =====
-- The shape of a name that `AsDNSLabelName` returns.
use azure_admission_controll.Prelude.{
  Memᴰ, ℕ, zero, suc, ◌≤◌, List, [], ◌∷◌, ◌++◌, Bool, true, false, eqb, map, length, all, take, ◌≡◌,
  refl, sym, ap, ◌∙◌, inl, inr, arith, all-reverse, all-take, length-take-le, take_of_le,
  Bool-cases,
}
use mathlib.Core.List.{reverse, reverse-append, reverse-reverse}
use azure_admission_controll.Platform.{Platform}
use azure_admission_controll.Normalize.{
  dash, is_dash_at_head, is_allowed, append_rune, collect, strip, strip_both, full_name,
  as_dns_label_name,
}

strip-no_dash : (xs : List ℕ) → is_dash_at_head (strip xs) ≡ false
unfolding strip
strip-no_dash [] = refl
strip-no_dash (x ∷ xs) = ground (arith, strip-no_dash xs)

-- `strip` takes a part off the front.
strip_suffix : (xs : List ℕ) → (front : List ℕ) × (xs ≡ front ++ strip xs)
unfolding strip
strip_suffix [] = ([], refl)
strip_suffix (x ∷ xs) = elim (Bool-cases (eqb x dash)) [
  | inl now ↦ let (front, e) = strip_suffix xs in (x ∷ front, rw now (ap (λ l. x ∷ l) e))
  | inr later ↦ ([], rw later)
]

-- So the text stripped at the end is a prefix.
strip_end_prefix : (xs : List ℕ) → (back : List ℕ) × (xs ≡ reverse (strip (reverse xs)) ++ back)
strip_end_prefix xs =
    let (front, e) = strip_suffix (reverse xs) in
    (
      reverse front,
      sym (reverse-reverse xs) ∙ ap reverse e ∙ reverse-append front (strip (reverse xs)),
    )

head_of_prefix :
    (xs back : List ℕ) → is_dash_at_head (xs ++ back) ≡ false → is_dash_at_head xs ≡ false
head_of_prefix [] back h = refl
head_of_prefix (x ∷ xs) back h = h

take_head : (n : ℕ) (xs : List ℕ) → is_dash_at_head xs ≡ false → is_dash_at_head (take n xs) ≡ false
take_head zero xs h = refl
take_head (suc n) [] h = refl
take_head (suc n) (x ∷ xs) h = h

take-append_one :
    (n : ℕ) (start rest : List ℕ)
    → length start ≡ n
    → take (suc n) (start ++ dash ∷ rest) ≡ start ++ dash ∷ []
take-append_one zero [] rest e = refl
take-append_one zero (x ∷ start) rest e = absurd (omega arith)
take-append_one (suc n) [] rest e = absurd (omega arith)
take-append_one (suc n) (x ∷ start) rest e = rw (take-append_one n start rest (omega arith))

all-strip : (q : ℕ → Bool) (xs : List ℕ) → all q xs ≡ true → all q (strip xs) ≡ true
unfolding strip
all-strip q [] h = refl
all-strip q (x ∷ xs) h = ground (arith, all-strip q xs)

strip_both-no_dash_start : (xs : List ℕ) → is_dash_at_head (strip_both xs) ≡ false
unfolding strip_both
strip_both-no_dash_start xs =
    let (back, e) = strip_end_prefix (strip xs) in
    head_of_prefix (strip_both xs) back (rw (← e) (strip-no_dash xs))

strip_both-no_dash_end : (xs : List ℕ) → is_dash_at_head (reverse (strip_both xs)) ≡ false
unfolding strip_both
strip_both-no_dash_end xs = rw reverse-reverse (strip-no_dash (reverse (strip xs)))

all-strip_both : (q : ℕ → Bool) (xs : List ℕ) → all q xs ≡ true → all q (strip_both xs) ≡ true
unfolding strip_both
all-strip_both q xs h = rw all-reverse (all-strip q _ (rw all-reverse (all-strip q xs h)))

module _ (p : Platform) where
  append_rune-allowed :
      (xs : List ℕ) (x : ℕ)
      → all (is_allowed p) xs ≡ true
      → all (is_allowed p) (append_rune p xs x) ≡ true
  unfolding append_rune
  append_rune-allowed [] x h = ground arith
  append_rune-allowed (y ∷ xs) x h = ground arith

  collect-allowed :
      (xs v : List ℕ) → all (is_allowed p) xs ≡ true → all (is_allowed p) (collect p xs v) ≡ true
  unfolding collect
  collect-allowed xs [] h = h
  collect-allowed xs (x ∷ v) h = collect-allowed (append_rune p xs x) v (append_rune-allowed xs x h)

  full_name-allowed : (v : List ℕ) → all (is_allowed p) (full_name p v) ≡ true
  unfolding full_name
  full_name-allowed v =
      all-strip_both (is_allowed p) _
        (rw all-reverse (collect-allowed [] (map p.vendor.rune_to_lower v) refl))

  -- A dash, a digit in the sense of Unicode, or a lower-case ASCII letter.
  pub data IsLabelRune (x : ℕ) : Type 0 where
    is_dash : x ≡ 45 → IsLabelRune x
    is_digit : p.vendor.rune_is_digit x ≡ true → IsLabelRune x
    is_letter : 97 ≤ x → x ≤ 122 → IsLabelRune x

  allowed-IsLabelRune : (x : ℕ) → is_allowed p x ≡ true → IsLabelRune x
  allowed-IsLabelRune x h = elim (Bool-cases (eqb x dash)) [
    | inl now ↦ is_dash (ground arith)
    | inr other ↦ elim (Bool-cases (p.vendor.rune_is_digit x)) [
      | inl digit ↦ is_digit digit
      | inr neither ↦ is_letter (ground arith) (ground arith)
    ]
  ]

  all-IsLabelRune :
      (xs : List ℕ) → all (is_allowed p) xs ≡ true → (x : ℕ) → Memᴰ x xs → IsLabelRune x
  all-IsLabelRune [] h x m = elim m [ ]
  all-IsLabelRune (y ∷ ys) h x (Memᴰ.head e) = rw e (allowed-IsLabelRune y (ground arith))
  all-IsLabelRune (y ∷ ys) h x (Memᴰ.tail m) = all-IsLabelRune ys (ground arith) x m

  -- Every name that `AsDNSLabelName` returns has at most 63 runes, each of them a dash, a digit (which
  -- for Go may be any decimal digit of Unicode) or a lower-case ASCII letter, and does not start with a
  -- dash.
  pub as_dns_label_name-shape :
      (v : List ℕ)
      → (length (as_dns_label_name p v) ≤ 63)
        × ((x : ℕ) → Memᴰ x (as_dns_label_name p v) → IsLabelRune x)
        × (is_dash_at_head (as_dns_label_name p v) ≡ false)
  unfolding as_dns_label_name full_name
  as_dns_label_name-shape v = (
    length-take-le 63 (full_name p v),
    all-IsLabelRune (take 63 (full_name p v))
        (all-take (is_allowed p) 63 (full_name p v) (full_name-allowed v)),
    take_head 63 (full_name p v) (strip_both-no_dash_start _),
  )

  -- If the text before the cut fits in 63 runes, the name does not end with a dash.
  pub as_dns_label_name-no_dash_end :
      (v : List ℕ)
      → length (full_name p v) ≤ 63
      → is_dash_at_head (reverse (as_dns_label_name p v)) ≡ false
  unfolding as_dns_label_name full_name
  as_dns_label_name-no_dash_end v fits =
      rw (take_of_le 63 (full_name p v) fits) (strip_both-no_dash_end _)

  -- If it does not fit and its 63rd rune is a dash, the name ends with that dash: the cut comes after
  -- the dashes of the end were taken off.
  pub as_dns_label_name-dash_end :
      (v start rest : List ℕ)
      → full_name p v ≡ start ++ dash ∷ rest
      → length start ≡ 62
      → is_dash_at_head (reverse (as_dns_label_name p v)) ≡ true
  unfolding as_dns_label_name
  as_dns_label_name-dash_end v start rest e n = rw (e, cut) (rw reverse-append refl)
    where
      cut : take 63 (start ++ dash ∷ rest) ≡ start ++ dash ∷ []
      cut = take-append_one 62 start rest n
