-- ===== src/App/Serving.antt =====
-- What a running server answers, from the path to the checks of the resource.
use azure_admission_controll.Prelude.{
  String, [], ◌∷◌, some, true, false, ◌≡◌, refl, sym, ap, ◌∙◌, ◌↔◌, ◌⊎◌, inl, inr, Bool,
  if◌then◌else◌,
}
use azure_admission_controll.Error.{invalid_config}
use azure_admission_controll.Deleting.{DeletedOr}
use azure_admission_controll.Result.{Result, ok, err, accept}
use azure_admission_controll.Exec.{Exec, lift}
use azure_admission_controll.Objects.{
  Object, Cluster, AzureMachinePool, cluster, azure_machine_pool,
}
use azure_admission_controll.Platform.{Platform}
use azure_admission_controll.Vmcapabilities.{Cache, Skus}
use azure_admission_controll.Vmcapabilities.Caching.{IsFaithful}
use azure_admission_controll.Scheduledupgrades.{Clock}
use azure_admission_controll.Webhook.{Request, HttpRequest, allowed, Codec, is_legacy_object}
use azure_admission_controll.Webhook.Admission.{
  Carries, Admits, AdmitsUpdate, validator_http_handler-Admits, validator_http_handler-AdmitsUpdate,
}
use azure_admission_controll.Handler.{Deserializer}
use azure_admission_controll.Config.{Config}
use azure_admission_controll.App.{
  Dependencies, HttpHandler, ServeMux, serve_http, register_webhook_handlers,
}
use azure_admission_controll.App.Table.{codec, routes, located, based}
use azure_admission_controll.App.Routes.{is_complete, register_webhook_handlers-routes}
use azure_admission_controll.Cluster as C
use azure_admission_controll.Cluster.Handler as CH
use azure_admission_controll.Cluster.Update as CU
use azure_admission_controll.Azuremachinepool as AMP
use azure_admission_controll.Azuremachinepool.Handler as AMPH
use azure_admission_controll.Azuremachinepool.Create as AMPC

only_ok : (b : Bool) (x y : ServeMux) → (if b then ok x else err invalid_config) ≡ ok y → y ≡ x
only_ok true x y h = cc
only_ok false x y h = cc

-- Of a legacy release, and then `P`; or of no legacy release.
abbrev pub Unless : Result Bool → Type 0 → Type 0
Unless legacy P = (legacy ≡ ok false) ⊎ ((legacy ≡ ok true) × P)

Unless-map : {P Q : Type 0} (legacy : Result Bool) → P ↔ Q → Unless legacy P ↔ Unless legacy Q
Unless-map {P} {Q} legacy f = (go f.0, go f.1)
  where
    go : {A B : Type 0} → (A → B) → Unless legacy A → Unless legacy B
    go f (inl e) = inl e
    go f (inr (e, a)) = inr (e, f a)

-- Where the objects of a request are known.
module _ (p : Platform) (c : Codec) {S : Type 0} (request : Request) (object : Object) where
  Admits-known :
      (check : Object → Exec S (Unit {0})) (s : S)
      → c.decode request.object ≡ ok object
      → Admits p c check request s
        ↔ Unless (is_legacy_object p object) ((check object s).0 ≡ accept)
  Admits-known check s read = (sound, complete)
    where
      sound :
          Admits p c check request s
          → Unless (is_legacy_object p object) ((check object s).0 ≡ accept)
      sound (Admits.skipped o e f) = let same : o ≡ object = cc in inl (rw (← same) f)
      sound (Admits.checked o e f g) =
          let same : o ≡ object = cc in inr (rw (← same) f, rw (← same) g)

      complete :
          Unless (is_legacy_object p object) ((check object s).0 ≡ accept)
          → Admits p c check request s
      complete (inl f) = Admits.skipped object read f
      complete (inr (f, g)) = Admits.checked object read f g

  AdmitsUpdate-known :
      (check : Object → Object → Exec S (Unit {0})) (before : Object) (s : S)
      → c.decode request.object ≡ ok object
      → c.decode request.old_object ≡ ok before
      → AdmitsUpdate p c check request s
        ↔ Unless (is_legacy_object p object) ((check before object s).0 ≡ accept)
  AdmitsUpdate-known check before s read read_old = (sound, complete)
    where
      sound :
          AdmitsUpdate p c check request s
          → Unless (is_legacy_object p object) ((check before object s).0 ≡ accept)
      sound (AdmitsUpdate.skipped o e f) = let same : o ≡ object = cc in inl (rw (← same) f)
      sound (AdmitsUpdate.checked b o e f e' g) =
          let same : o ≡ object = cc in
          let same_old : b ≡ before = cc in inr (rw (← same) f, rw (← same, ← same_old) g)

      complete :
          Unless (is_legacy_object p object) ((check before object s).0 ≡ accept)
          → AdmitsUpdate p c check request s
      complete (inl f) = AdmitsUpdate.skipped object read f
      complete (inr (f, g)) = AdmitsUpdate.checked before object read f read_old g

module _ (p : Platform) (clock : Clock) (azure : String → Result Cache) (d : Deserializer)
    (cfg : Config) (deps : Dependencies) (health : HttpHandler) (mux : ServeMux)
    (started : register_webhook_handlers p clock azure d cfg deps (("/healthz", health) ∷ [])
      ≡ ok mux) where
  mux-routes : mux ≡ ("/healthz", health) ∷ routes p clock azure d cfg
  mux-routes =
      only_ok (is_complete cfg deps) _ mux
        (sym (register_webhook_handlers-routes p clock azure d cfg deps health) ∙ started)

  -- A running server answers a well-formed request to update a Cluster as allowed exactly when the new
  -- Cluster belongs to no legacy release, or it is being deleted, or it may take the place of the old
  -- one by the rules for Clusters with the base domain of the server's flags.
  pub serve_http-cluster_update :
      (http : HttpRequest) (request : Request) (old new : Cluster) (s : Skus)
      → Carries (codec p d (CH.decode d)) http request
      → d.cluster request.object ≡ some new
      → d.cluster request.old_object ≡ some old
      → ((serve_http mux "/validate/cluster/update" http s).0 ≡ ok (allowed request.uid []))
        ↔ Unless
            (is_legacy_object p (cluster new))
            (DeletedOr new.meta (CU.IsUpdatable (based p clock azure d cfg) clock old new))
  unfolding serve_http CH.decode
  serve_http-cluster_update http request old new s carried e e' =
      let here = based p clock azure d cfg in
      let c = codec p d (CH.decode d) in
      let check : Object → Object → Exec Skus (Unit {0}) =
        λ a b. lift (C.on_update_validate here clock a b) in
      let served = ap (λ m. (serve_http m "/validate/cluster/update" http s).0) mux-routes in
      let answer = validator_http_handler-AdmitsUpdate p c check http request s carried in
      let known =
        AdmitsUpdate-known p c request (cluster new) check (cluster old) s (rw e refl)
          (rw e' refl) in
      let rules =
        Unless-map (is_legacy_object p (cluster new))
          (CU.on_update_validate-cluster here clock old new) in
      (
        λ h. rules.0 (known.0 (answer.0 (sym served ∙ h))),
        λ h. served ∙ answer.1 (known.1 (rules.1 h)),
      )

  -- A running server answers a well-formed request to create an AzureMachinePool as allowed exactly when
  -- the AzureMachinePool belongs to no legacy release, or it may be created by the rules for
  -- AzureMachinePools in the location of the server's flags, whatever the cache of VM sizes holds, if it
  -- is faithful to Azure.
  pub serve_http-azure_machine_pool_create :
      (http : HttpRequest) (request : Request) (mp : AzureMachinePool) (s : Skus)
      → Carries (codec p d (AMPH.decode d)) http request
      → d.azure_machine_pool request.object ≡ some mp
      → IsFaithful azure s
      → ((serve_http mux "/validate/azuremachinepool/create" http s).0
          ≡ ok (allowed request.uid []))
        ↔ Unless
            (is_legacy_object p (azure_machine_pool mp))
            (AMPC.IsCreatable (located p clock azure d cfg) azure mp)
  unfolding serve_http AMPH.decode
  serve_http-azure_machine_pool_create http request mp s carried e f =
      let here = located p clock azure d cfg in
      let c = codec p d (AMPH.decode d) in
      let check = AMP.on_create_validate here azure in
      let served =
        ap (λ m. (serve_http m "/validate/azuremachinepool/create" http s).0) mux-routes in
      let answer = validator_http_handler-Admits p c check http request s carried in
      let known = Admits-known p c request (azure_machine_pool mp) check s (rw e refl) in
      let rules =
        Unless-map (is_legacy_object p (azure_machine_pool mp))
          (AMPC.on_create_validate_iff here azure mp s f) in
      (
        λ h. rules.0 (known.0 (answer.0 (sym served ∙ h))),
        λ h. served ∙ answer.1 (known.1 (rules.1 h)),
      )
