-- ===== src/Admitter.antt =====
-- pkg/admission, and the functions Handler of pkg/mutator/handler.go and pkg/validator/handler.go: HTTP
-- handlers for an object that takes a whole request.
pub mod Alike
mod Tests
use Prim.Native.String
use azure_admission_controll.Prelude.{
  String, List, [], ◌∷◌, Option, none, some, Bool, not, ◌==◌, if◌then◌else◌,
}
use azure_admission_controll.Result.{Result, ok, err, panic}
use azure_admission_controll.Exec.{Exec, lift, pure, ◌>>=◌}
use azure_admission_controll.Objects.{ObjectMeta}
use azure_admission_controll.Patch.{PatchOperation}
use azure_admission_controll.Webhook.{
  Request, HttpRequest, Answer, status, refused, allowed, answer_of,
}

-- The deserializers of the three packages: a review, which may lack its request, and the metadata of an
-- object of any type.
pub record Reader : Type 0 where
  pub review : String → Option (Option Request)
  pub partial_object_metadata : String → Option ObjectMeta

-- The answer to what a validator returns.
abbrev pub verdict : String → Result (Unit {0}) → Result Answer
verdict uid (ok _) = ok (allowed uid [])
verdict uid (err e) = ok (refused uid)
verdict uid panic = panic

module _ (reader : Reader) where
  abbrev name_of : ObjectMeta → String
  name_of meta =
      if not (meta.name == "")
      then meta.name
      else if not (meta.generate_name == "")
      then String.◌++◌ meta.generate_name "<generated>"
      else "<unknown>"

  -- The name that the logs show; pkg/mutator and pkg/admission have the same function.
  unfoldable pub extract_name : Request → String
  extract_name request =
      if not (request.name == "")
      then request.name
      else elim (reader.partial_object_metadata request.object) [
        | none ↦ "<unknown>"
        | some meta ↦ name_of meta
      ]

  module _ {S : Type 0} where
    -- The head of each Handler: the request of a review, or the status that is answered.
    abbrev pub with_review : HttpRequest → (Option Request → Exec S Answer) → Exec S Answer
    with_review http handle =
        if not (http.content_type == "application/json")
        then pure (status 400)
        else elim http.body [
          | none ↦ pure (status 500)
          | some bytes ↦ elim (reader.review bytes) [
            | none ↦ pure (status 400)
            | some request ↦ handle request
          ]
        ]

    abbrev pub answered_patches :
        (Request → Exec S (List PatchOperation)) → Option Request → Exec S Answer
    answered_patches act none s = (panic, s)
    answered_patches act (some request) s =
        let (r, s') = act request s in (answer_of request.uid r, s')

    -- pkg/admission: the resource's name for the logs is read from the request before it is admitted.
    unfoldable pub handler : (Request → Exec S (List PatchOperation)) → HttpRequest → Exec S Answer
    handler admit http = with_review http (answered_patches admit)

    unfoldable pub mutator_handler :
        (Request → Exec S (List PatchOperation)) → HttpRequest → Exec S Answer
    mutator_handler mutate http = with_review http (answered_patches mutate)

    -- A validator is called with a nil request too; the answer then dereferences it.
    abbrev pub answered_verdict :
        (Option Request → Exec S (Unit {0})) → Option Request → Exec S Answer
    answered_verdict validate none s = (panic, (validate none s).1)
    answered_verdict validate (some request) s =
        let (r, s') = validate (some request) s in (verdict request.uid r, s')

    unfoldable pub validator_handler :
        (Option Request → Exec S (Unit {0})) → HttpRequest → Exec S Answer
    validator_handler validate http = with_review http (answered_verdict validate)
