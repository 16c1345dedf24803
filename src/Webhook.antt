-- ===== src/Webhook.antt =====
-- pkg/validator and pkg/mutator: the HTTP handlers round a resource's webhook, from the request to the
-- answer. `S` is the state that a resource's checks share (the cache of VM sizes).
pub mod Admission
pub mod Tests
use azure_admission_controll.Prelude.{
  ℕ, String, List, [], ◌∷◌, Option, none, some, Bool, true, false, not, ◌==◌, if◌then◌else◌,
}
use azure_admission_controll.Error.{Error}
use azure_admission_controll.Result
use azure_admission_controll.Result.{Result, ok, err, panic, deref}
use azure_admission_controll.Exec.{Exec, lift, pure, ◌>>=◌, ◌>>◌}
use azure_admission_controll.Objects.{
  ObjectMeta, Cluster, Object, cluster, azure_cluster, machine_pool, azure_machine_pool,
  azure_machine, spark, azure_cluster_config, azure_config, other,
}
use azure_admission_controll.Platform.{Platform}
use azure_admission_controll.Patch.{PatchOperation}
use azure_admission_controll.Generic.{try_get_owner_cluster}
use azure_admission_controll.Release.{is_object_reconciled_by_legacy_release}

-- v1beta1.AdmissionRequest: `object` and `old_object` are raw JSON.
pub record Request : Type 0 where
  pub uid : String
  pub name : String
  pub object : String
  pub old_object : String
  pub dry_run : Option Bool

-- An HTTP request: `body` is `none` where it cannot be read.
pub record HttpRequest : Type 0 where
  pub content_type : String
  pub body : Option String

-- A bare status code, or a review: refused, or allowed with patches.
pub data Answer : Type 0 where
  status : ℕ → Answer
  refused : String → Answer
  allowed : String → List PatchOperation → Answer

-- What a handler's `Decode` and the deserializer of reviews do. A review may lack its request.
pub record Codec : Type 0 where
  pub decode : String → Result Object
  pub decode_review : String → Option (Option Request)

abbrev pub meta_of : Object → Result ObjectMeta
meta_of (cluster c) = ok c.meta
meta_of (azure_cluster c) = ok c.meta
meta_of (machine_pool c) = ok c.meta
meta_of (azure_machine_pool c) = ok c.meta
meta_of (azure_machine c) = ok c.meta
meta_of (spark c) = ok c.meta
meta_of (azure_cluster_config c) = ok c.meta
meta_of (azure_config c) = ok c.meta
meta_of other = panic

abbrev pub answer_of : String → Result (List PatchOperation) → Result Answer
answer_of uid (ok patches) = ok (allowed uid patches)
answer_of uid (err e) = ok (refused uid)
answer_of uid panic = panic

-- A dry run is answered without patches.
abbrev pub is_dry_run : Request → Bool
is_dry_run request = elim request.dry_run [ none ↦ false | some b ↦ b ]

module _ (p : Platform) where
  unfoldable pub is_legacy_object : Object → Result Bool
  is_legacy_object object =
      Result.◌>>=◌ (meta_of object)
        λ meta. is_object_reconciled_by_legacy_release p meta (try_get_owner_cluster p meta)

module _ (p : Platform) (codec : Codec) {S : Type 0} where
  -- `NewCreateHandler`'s function, for validation and for mutation: what is skipped gives `skipped`.
  unfoldable pub on_create : {A : Type 0} → (Object → Exec S A) → A → Request → Exec S A
  on_create handle skipped request = do
    object ← lift (codec.decode request.object)
    legacy ← lift (is_legacy_object p object)
    if legacy then handle object else pure skipped

  -- `NewUpdateHandler`'s function. The old object is decoded only where it is needed.
  unfoldable pub on_update : {A : Type 0} → (Object → Object → Exec S A) → A → Request → Exec S A
  on_update handle skipped request = do
    object ← lift (codec.decode request.object)
    legacy ← lift (is_legacy_object p object)
    if not legacy
        then pure skipped
        else do old_object ← lift (codec.decode request.old_object); handle old_object object

  -- The head of `newHttpHandler`: a review's request, or the status that is answered. A review without
  -- a request is dereferenced.
  abbrev pub with_request : HttpRequest → (Request → Exec S Answer) → Exec S Answer
  with_request http handle =
      if not (http.content_type == "application/json") then pure (status 400) else elim http.body [
        | none ↦ pure (status 500)
        | some bytes ↦ elim (codec.decode_review bytes) [
          | none ↦ pure (status 400)
          | some none ↦ lift panic
          | some (some request) ↦ handle request
        ]
      ]

  abbrev pub answered : Request → Exec S (List PatchOperation) → Exec S Answer
  answered request action s = let (r, s') = action s in (answer_of request.uid r, s')

  unfoldable pub validator_http_handler :
      (Request → Exec S (Unit {0})) → HttpRequest → Exec S Answer
  validator_http_handler validate http =
      with_request http λ request. answered request do validate request; pure []

  unfoldable pub mutator_http_handler :
      (Request → Exec S (List PatchOperation)) → HttpRequest → Exec S Answer
  mutator_http_handler mutate http =
      with_request http
        λ request. answered request (if is_dry_run request then pure [] else mutate request)

module _ (p : Platform) (codec : Codec) {S : Type 0} where
  -- pkg/validator: what is skipped is accepted.
  abbrev pub validate_on_create : (Object → Exec S (Unit {0})) → Request → Exec S (Unit {0})
  validate_on_create validate request = on_create p codec validate tt request

  abbrev pub validate_on_update :
      (Object → Object → Exec S (Unit {0})) → Request → Exec S (Unit {0})
  validate_on_update validate request = on_update p codec validate tt request

  -- pkg/mutator: what is skipped gets no patch.
  abbrev pub mutate_on_create :
      (Object → Exec S (List PatchOperation)) → Request → Exec S (List PatchOperation)
  mutate_on_create mutate request = on_create p codec mutate [] request

  abbrev pub mutate_on_update :
      (Object → Object → Exec S (List PatchOperation)) → Request → Exec S (List PatchOperation)
  mutate_on_update mutate request = on_update p codec mutate [] request
