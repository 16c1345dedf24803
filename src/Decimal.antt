-- ===== src/Decimal.antt =====
-- Go's decimal integers: `strconv.ParseInt(s, 10, bits)`, `strconv.Atoi` on a 64-bit platform, and
-- the verb `%d`.
use azure_admission_controll.Prelude.{
  ℕ, zero, suc, ◌+◌, ◌*◌, ◌-◌, String, List, [], ◌∷◌, Option, none, some, Bool, true, false, ◌&&◌,
  leb, ltb, eqb, ℤ, pos, negsuc, codes, if◌then◌else◌,
}

abbrev is_digit : ℕ → Bool
is_digit c = leb b'0' c && leb c b'9'

-- The digits of a number; `none` at any other character.
unfoldable pub digits_value : ℕ → List ℕ → Option ℕ
digits_value n [] = some n
digits_value n (c ∷ cs) =
    let rest = digits_value (n * 10 + (c - 48)) cs in if is_digit c then rest else none

unfoldable pub magnitude : List ℕ → Option ℕ
unfolding digits_value
magnitude [] = none
magnitude (c ∷ cs) = digits_value 0 (c ∷ cs)

-- A value in the range of a signed integer, given its sign and its magnitude.
abbrev in_range : ℕ → Bool → Option ℕ → Option ℤ
in_range limit sign none = none
in_range limit false (some n) = if ltb n limit then some (pos n) else none
in_range limit true (some zero) = some (pos 0)
in_range limit true (some (suc n)) = if ltb n limit then some (negsuc n) else none

-- `limit` is 2^(bits - 1).
unfoldable pub parse_codes : ℕ → List ℕ → Option ℤ
unfolding magnitude
parse_codes limit [] = none
parse_codes limit (c ∷ cs) =
    if eqb c b'-'
    then in_range limit true (magnitude cs)
    else if eqb c b'+'
    then in_range limit false (magnitude cs)
    else in_range limit false (magnitude (c ∷ cs))

abbrev pub int32_limit : ℕ
int32_limit = 2147483648

abbrev pub int64_limit : ℕ
int64_limit = 9223372036854775808

-- `strconv.ParseInt(s, 10, 32)`
unfoldable pub parse_int32 : String → Option ℤ
unfolding parse_codes
parse_int32 s = parse_codes int32_limit (codes s)

unfoldable pub atoi : String → Option ℤ
unfolding parse_codes
atoi s = parse_codes int64_limit (codes s)
