-- ===== src/Admitter/Alike.antt =====
-- The plain handlers against those of the factories.
use azure_admission_controll.Prelude.{
  String, List, Option, none, some, false, ◌==◌, ◌≡◌, refl, ap, ◌∙◌, Bool-cases, inl, inr,
  Option-cases,
}
use azure_admission_controll.Result.{panic, Result-cases, is_ok, is_err, is_panic}
use azure_admission_controll.Exec.{Exec, lift}
use azure_admission_controll.Objects.{ObjectMeta}
use azure_admission_controll.Platform.{Platform}
use azure_admission_controll.Patch.{PatchOperation}
use azure_admission_controll.Webhook.{
  Request, HttpRequest, Answer, Codec, is_dry_run, with_request, mutator_http_handler,
  validator_http_handler,
}
use azure_admission_controll.Admitter.{Reader, with_review, mutator_handler, validator_handler}

module _ (codec : Codec) (metadata : String → Option ObjectMeta) where
  abbrev pub reader : Reader
  reader = record { review = codec.decode_review; partial_object_metadata = metadata }

-- The same checks of content type, body and review stand before both.
with_review-with_request :
    (p : Platform) (codec : Codec) (metadata : String → Option ObjectMeta) {S : Type 0}
    (f : Option Request → Exec S Answer) (g : Request → Exec S Answer) (http : HttpRequest) (s : S)
    → f none s ≡ (panic, s)
    → ((bytes : String) (request : Request)
        → http.body ≡ some bytes
        → codec.decode_review bytes ≡ some (some request)
        → f (some request) s ≡ g request s)
    → with_review (reader codec metadata) http f s ≡ with_request p codec http g s
with_review-with_request p codec metadata f g http s at_nil at_request =
    elim (Bool-cases (http.content_type == "application/json")) [
      | inr other ↦ rw other refl
      | inl json ↦ elim (Option-cases http.body) [
        | inl unread ↦ rw (json, unread) refl
        | inr (bytes, read) ↦ elim (Option-cases (codec.decode_review bytes)) [
          | inl bad ↦ rw (json, read, bad) refl
          | inr (review, decoded) ↦ elim (Option-cases review) [
            | inl empty ↦ rw (json, read, decoded, empty) at_nil
            | inr (request, carried) ↦
                rw (json, read, decoded, carried)
                  (at_request bytes request read (decoded ∙ ap some carried))
          ]
        ]
      ]
    ]

module _ (p : Platform) (codec : Codec) (metadata : String → Option ObjectMeta) {S : Type 0} where
  -- On a request that is not a dry run, Handler of pkg/mutator answers as the handler of the factory
  -- does; where no request can be read at all, both answer with the same status.
  pub mutator_handler-mutator_http_handler :
      (mutate : Request → Exec S (List PatchOperation)) (http : HttpRequest) (s : S)
      → ((bytes : String) (request : Request)
          → http.body ≡ some bytes
          → codec.decode_review bytes ≡ some (some request)
          → is_dry_run request ≡ false)
      → mutator_handler (reader codec metadata) mutate http s
        ≡ mutator_http_handler p codec mutate http s
  unfolding mutator_handler mutator_http_handler
  mutator_handler-mutator_http_handler mutate http s wet =
      with_review-with_request p codec metadata _ _ http s refl
        λ bytes request read decoded. rw (wet bytes request read decoded) refl

  -- Handler of pkg/validator answers as the handler of the factory does, for a validator that panics at
  -- a nil request.
  pub validator_handler-validator_http_handler :
      (validate : Request → Exec S (Unit {0})) (http : HttpRequest) (s : S)
      → validator_handler
          (reader codec metadata)
          (λ r. elim r [ none ↦ lift panic | some q ↦ validate q ])
          http
          s
        ≡ validator_http_handler p codec validate http s
  unfolding validator_handler validator_http_handler
  validator_handler-validator_http_handler validate http s =
      with_review-with_request p codec metadata _ _ http s refl λ bytes request read decoded.
        elim (Result-cases (validate request s).0) [
          | is_ok _ e ↦ rw e refl
          | is_err x e ↦ rw e refl
          | is_panic e ↦ rw e refl
        ]
