-- ===== src/Patch/Escaping.antt =====
-- Escaped keys of a JSON pointer (RFC 6901): what a reader of the pointer gets back.
use Prim.Native.Char.{code}
use azure_admission_controll.Prelude.{
  ℕ, String, List, [], ◌∷◌, true, false, ◌≡◌, refl, ap, arith, eqb, codes, if◌then◌else◌,
  Bool-cases, inl, inr, all, not,
}
use azure_admission_controll.Patch.{replace_tilde, replace_slash, escape_json_patch_string}

-- A reader's decoding of the code points of a key: `~1` is a slash and `~0` a tilde.
pub unescape : List ℕ → List ℕ
unescape [] = []
unescape (c ∷ []) = c ∷ []
unescape (c ∷ d ∷ s) =
    let rest = unescape s in
    let tail = unescape (d ∷ s) in
    if eqb c b'~'
    then if eqb d b'1' then b'/' ∷ rest else if eqb d b'0' then b'~' ∷ rest else c ∷ tail
    else c ∷ tail

-- The escape on code points, in one pass.
escaped : List ℕ → List ℕ
escaped [] = []
escaped (c ∷ s) =
    let rest = escaped s in
    if eqb c b'~' then b'~' ∷ b'0' ∷ rest else if eqb c b'/' then b'~' ∷ b'1' ∷ rest else c ∷ rest

one_pass : (s : String) → codes (replace_slash (replace_tilde s)) ≡ escaped (codes s)
unfolding replace_tilde replace_slash escaped
one_pass String.[] = refl
one_pass (String.◌∷◌ c s) = elim (Bool-cases (eqb (code c) b'~')) [
  | inl tilde ↦ rw tilde (ap (λ cs. b'~' ∷ b'0' ∷ cs) (one_pass s))
  | inr plain ↦ elim (Bool-cases (eqb (code c) b'/')) [
    | inl slash ↦ rw (plain, slash) (ap (λ cs. b'~' ∷ b'1' ∷ cs) (one_pass s))
    | inr other ↦ rw (plain, other) (ap (λ cs. code c ∷ cs) (one_pass s))
  ]
]

unescape-plain : (c : ℕ) (s : List ℕ) → eqb c b'~' ≡ false → unescape (c ∷ s) ≡ c ∷ unescape s
unfolding unescape
unescape-plain c [] h = refl
unescape-plain c (d ∷ s) h = rw h

unescape-escaped : (s : List ℕ) → unescape (escaped s) ≡ s
unfolding escaped unescape
unescape-escaped [] = refl
unescape-escaped (c ∷ s) = elim (Bool-cases (eqb c b'~')) [
  | inl tilde ↦ ground (arith, unescape-escaped s)
  | inr plain ↦ elim (Bool-cases (eqb c b'/')) [
    | inl slash ↦ ground (arith, unescape-escaped s)
    | inr other ↦ ground (arith, unescape-plain c (escaped s) plain, unescape-escaped s)
  ]
]

-- A reader of the JSON pointer, who turns ~1 into a slash and ~0 into a tilde, gets back the key that
-- `escapeJSONPatchString` was given.
pub unescape-escape_json_patch_string :
    (s : String) → unescape (codes (escape_json_patch_string s)) ≡ codes s
unfolding escape_json_patch_string
unescape-escape_json_patch_string s = rw (one_pass s) (unescape-escaped (codes s))

no_slash : (cs : List ℕ) → all (λ c. not (eqb c b'/')) (escaped cs) ≡ true
unfolding escaped
no_slash [] = refl
no_slash (c ∷ cs) = ground (arith, no_slash cs)

-- No slash is left, so that an escaped key is one step of the pointer.
pub escape_json_patch_string-no_slash :
    (s : String) → all (λ c. not (eqb c b'/')) (codes (escape_json_patch_string s)) ≡ true
unfolding escape_json_patch_string
escape_json_patch_string-no_slash s = rw (one_pass s) (no_slash (codes s))
