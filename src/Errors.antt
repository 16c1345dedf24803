-- ===== src/Errors.antt =====
-- internal/errors/errors.go: the errors of Cluster API's own validation that are let pass.
pub mod Ignoring
pub mod Ignored
pub mod Chain
mod Tests
use Prim.Native.Char.{Char, code}
use Prim.Native.String
use azure_admission_controll.Prelude.{
  String, List, [], ◌∷◌, Option, none, some, Bool, true, false, not, ◌&&◌, ◌||◌, ◌==◌, starts_with,
  slice, eqb, keep, if◌then◌else◌,
}
use azure_admission_controll.Error.{Error, Status, StatusCause, api_status}
use azure_admission_controll.Result.{Result, Check, ok, err, panic, accept}

infixr 65 ◌<>◌
abbrev ◌<>◌ : String → String → String
s <> t = String.◌++◌ s t

abbrev is_space : Char → Bool
is_space c =
    eqb (code c) 32 || eqb (code c) 9 || eqb (code c) 10 || eqb (code c) 12 || eqb (code c) 13

-- `(\[)?(.*?)(\]|$)` matches here: a closing bracket or the end comes before the line's end.
abbrev closes : String → Bool
closes String.[] = true
closes (String.◌∷◌ c s) =
    let rest = closes s in
    if eqb (code c) b']' then true else if eqb (code c) 10 then false else rest

abbrev phrase : String
phrase = "is invalid:"

-- What follows the phrase: a blank, and then the rest of the expression.
abbrev blank_and_rest : String → Bool
blank_and_rest String.[] = false
blank_and_rest (String.◌∷◌ c s) = is_space c && closes s

abbrev after_phrase : String → String
after_phrase s = slice s 11 (String.len s)

abbrev phrase_here : String → Option String
phrase_here s =
    if starts_with s phrase && blank_and_rest (after_phrase s) then some (slice s 0 12) else none

-- `(.*is invalid:\s)` with the longest `.*` that the rest of the expression allows.
unfoldable pub longest_prefix : String → Option String
longest_prefix String.[] = none
longest_prefix (String.◌∷◌ c s) =
    let rest = longest_prefix s in
    if eqb (code c) 10
    then none
    else elim rest [ none ↦ phrase_here (String.◌∷◌ c s) | some t ↦ some (String.◌∷◌ c t) ]

-- The first group of the leftmost match of `capiErrorMessageRegexp`.
unfoldable pub first_group : String → Option String
unfolding longest_prefix
first_group String.[] = none
first_group (String.◌∷◌ c s) =
    let later = first_group s in
    elim (longest_prefix (String.◌∷◌ c s)) [ none ↦ later | some t ↦ some t ]

-- The causes with a comma between them.
unfoldable pub joined : List StatusCause → String
joined [] = ""
joined (c ∷ []) = c.field <> ": " <> c.message
joined (c ∷ d ∷ cs) = c.field <> ": " <> c.message <> ", " <> joined (d ∷ cs)

abbrev is_for : String → StatusCause → Bool
is_for field cause = starts_with cause.field field

-- `matches[0][1]` panics where there is no match.
unfoldable pub with_causes : Status → List StatusCause → Check
unfolding first_group joined
with_causes status causes = elim (first_group status.message) [
  | none ↦ panic
  | some prefix ↦ err (
      api_status
        (record status { message = prefix <> "[" <> joined causes <> "]"; details = some causes }))
]

abbrev remaining : String → List StatusCause → List StatusCause
remaining field causes = keep (λ c. not (is_for field c)) causes

abbrev without_causes : String → Status → List StatusCause → Check
without_causes field status causes = elim (remaining field causes) [
  | [] ↦ accept
  | c ∷ cs ↦ with_causes status (c ∷ cs)
]

abbrev ignore_status : String → Status → Check
ignore_status field status =
    if not (status.reason == "Invalid") then err (api_status status) else elim status.details [
      | none ↦ err (api_status status)
      | some causes ↦ without_causes field status causes
    ]

-- `errors.As` finds a status of the API machinery; every other error, and nil, is returned as it is.
unfoldable pub ignore_capi_error_for_field : String → Check → Check
unfolding with_causes
ignore_capi_error_for_field field (err (api_status status)) = ignore_status field status
ignore_capi_error_for_field field r = r
