-- ===== src/Webhook/Admission.antt =====
-- When a request is answered as allowed.
use azure_admission_controll.Prelude.{
  String, [], some, true, false, ◌≡◌, refl, sym, ap, ◌∙◌, ◌↔◌, inl, inr, arith, eq_iff, Bool-cases,
}
use azure_admission_controll.Result.{
  Result, ok, err, panic, accept, is_ok, is_err, is_panic, Result-cases,
}
use azure_admission_controll.Exec.{Exec, pure, ◌>>◌}
use azure_admission_controll.Objects.{Object}
use azure_admission_controll.Platform.{Platform}
use azure_admission_controll.Webhook.{
  Request, HttpRequest, Answer, allowed, Codec, is_legacy_object, on_create, on_update,
  validate_on_create, validate_on_update, with_request, answered, validator_http_handler,
}

module _ (codec : Codec) where
  -- A well-formed HTTP request that carries a request.
  pub record Carries (http : HttpRequest) (request : Request) : Type 0 where
    pub json_content : http.content_type ≡ "application/json"
    pub bytes : String
    pub readable : http.body ≡ some bytes
    pub review : codec.decode_review bytes ≡ some (some request)

module _ (p : Platform) (codec : Codec) {S : Type 0} where
  -- The object is decoded, and it is of another release or its checks accept it.
  pub data Admits (check : Object → Exec S (Unit {0})) (request : Request) (s : S) : Type 0 where
    skipped :
        (object : Object)
        → codec.decode request.object ≡ ok object
        → is_legacy_object p object ≡ ok false
        → Admits check request s
    checked :
        (object : Object)
        → codec.decode request.object ≡ ok object
        → is_legacy_object p object ≡ ok true
        → (check object s).0 ≡ accept
        → Admits check request s

  -- The function of the create handler accepts exactly the requests whose object belongs to no legacy
  -- release or is accepted by the checks.
  on_create_iff :
      (check : Object → Exec S (Unit {0})) (request : Request) (s : S)
      → ((on_create p codec check tt request s).0 ≡ accept) ↔ Admits check request s
  unfolding on_create
  on_create_iff check request s = (
    λ h. elim (Result-cases (codec.decode request.object)) [
      | is_ok object e ↦ elim (Result-cases (is_legacy_object p object)) [
        | is_ok legacy f ↦ elim (Bool-cases legacy) [
          | inl old ↦ checked object e (ground arith) (ground arith)
          | inr new ↦ skipped object e (ground arith)
        ]
        | is_err x f ↦ absurd (ground arith)
        | is_panic f ↦ absurd (ground arith)
      ]
      | is_err x e ↦ absurd (ground arith)
      | is_panic e ↦ absurd (ground arith)
    ],
    complete,
  )
    where
      complete : Admits check request s → (on_create p codec check tt request s).0 ≡ accept
      complete (skipped object e f) = ground arith
      complete (checked object e f g) = ground arith

  through :
      (http : HttpRequest) (request : Request) (handle : Request → Exec S Answer) (s : S)
      → Carries codec http request
      → with_request p codec http handle s ≡ handle request s
  through http request handle s c =
      rw ((eq_iff http.content_type "application/json").1 c.json_content, c.readable, c.review) refl

  answered_iff :
      (request : Request) (m : Exec S (Unit {0})) (s : S)
      → ((answered p codec request (m >> pure []) s).0 ≡ ok (allowed request.uid []))
        ↔ ((m s).0 ≡ accept)
  answered_iff request m s = go (m s).0 refl
    where
      go :
          (r : Result (Unit {0}))
          → (m s).0 ≡ r
          → ((answered p codec request (m >> pure []) s).0 ≡ ok (allowed request.uid []))
            ↔ ((m s).0 ≡ accept)
      go (ok tt) e = (λ h. e, λ h. rw e refl)
      go (err x) e = (λ h. absurd (ground arith), λ h. absurd (ground arith))
      go panic e = (λ h. absurd (ground arith), λ h. absurd (ground arith))

  -- A well-formed request is answered as allowed exactly when the function accepts its content.
  pub allowed_iff :
      (validate : Request → Exec S (Unit {0})) (http : HttpRequest) (request : Request) (s : S)
      → Carries codec http request
      → ((validator_http_handler p codec validate http s).0 ≡ ok (allowed request.uid []))
        ↔ ((validate request s).0 ≡ accept)
  unfolding validator_http_handler
  allowed_iff validate http request s c =
      let answer = answered_iff request (validate request) s in
      let whole = through http request (λ q. answered p codec q (validate q >> pure [])) s c in
      let first = ap (λ (r : Result Answer × S). r.0) whole in
      (λ h. answer.0 (sym first ∙ h), λ a. first ∙ answer.1 a)

  -- A well-formed create request is answered as allowed exactly when its object can be decoded and it
  -- belongs to no legacy release or is accepted by the resource's checks.
  pub validator_http_handler-Admits :
      (check : Object → Exec S (Unit {0})) (http : HttpRequest) (request : Request) (s : S)
      → Carries codec http request
      → ((validator_http_handler p codec (validate_on_create p codec check) http s).0
          ≡ ok (allowed request.uid []))
        ↔ Admits check request s
  validator_http_handler-Admits check http request s c =
      let same = on_create_iff check request s in
      let whole = allowed_iff (on_create p codec check tt) http request s c in
      (λ h. same.0 (whole.0 h), λ a. whole.1 (same.1 a))

module _ (p : Platform) (codec : Codec) {S : Type 0} where
  -- Both objects are decoded where the new one is of a legacy release, else only the new one is.
  pub data AdmitsUpdate (check : Object → Object → Exec S (Unit {0})) (request : Request) (s : S)
      : Type 0 where
    skipped :
        (object : Object)
        → codec.decode request.object ≡ ok object
        → is_legacy_object p object ≡ ok false
        → AdmitsUpdate check request s
    checked :
        (old object : Object)
        → codec.decode request.object ≡ ok object
        → is_legacy_object p object ≡ ok true
        → codec.decode request.old_object ≡ ok old
        → (check old object s).0 ≡ accept
        → AdmitsUpdate check request s

  on_update_iff :
      (check : Object → Object → Exec S (Unit {0})) (request : Request) (s : S)
      → ((on_update p codec check tt request s).0 ≡ accept) ↔ AdmitsUpdate check request s
  unfolding on_update
  on_update_iff check request s = (
    λ h. elim (Result-cases (codec.decode request.object)) [
      | is_ok object e ↦ elim (Result-cases (is_legacy_object p object)) [
        | is_ok legacy f ↦ elim (Bool-cases legacy) [
          | inl old ↦ elim (Result-cases (codec.decode request.old_object)) [
            | is_ok before g ↦ checked before object e (ground arith) g (ground arith)
            | is_err x g ↦ absurd (ground arith)
            | is_panic g ↦ absurd (ground arith)
          ]
          | inr new ↦ skipped object e (ground arith)
        ]
        | is_err x f ↦ absurd (ground arith)
        | is_panic f ↦ absurd (ground arith)
      ]
      | is_err x e ↦ absurd (ground arith)
      | is_panic e ↦ absurd (ground arith)
    ],
    complete,
  )
    where
      complete : AdmitsUpdate check request s → (on_update p codec check tt request s).0 ≡ accept
      complete (skipped object e f) = ground arith
      complete (checked old object e f g h) = ground arith

  pub validator_http_handler-AdmitsUpdate :
      (check : Object → Object → Exec S (Unit {0})) (http : HttpRequest) (request : Request) (s : S)
      → Carries codec http request
      → ((validator_http_handler p codec (validate_on_update p codec check) http s).0
          ≡ ok (allowed request.uid []))
        ↔ AdmitsUpdate check request s
  validator_http_handler-AdmitsUpdate check http request s c =
      let same = on_update_iff check request s in
      let whole = allowed_iff p codec (on_update p codec check tt) http request s c in
      (λ h. same.0 (whole.0 h), λ a. whole.1 (same.1 a))
