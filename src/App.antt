-- ===== src/App.antt =====
-- pkg/app/handlers.go: the handlers that are built, and the paths that they are registered at.
pub mod Table
pub mod Routes
pub mod Serving
pub mod Tests
use Prim.Native.String
use azure_admission_controll.Prelude.{
  ℕ, String, List, [], ◌∷◌, ◌++◌, Option, none, some, ◌==◌, Map, get, if◌then◌else◌,
}
use azure_admission_controll.Result.{Result, ok, panic, ◌>>=◌, ◌>>◌}
use azure_admission_controll.Exec.{Exec, pure}
use azure_admission_controll.Platform.{Platform}
use azure_admission_controll.Vmcapabilities.{Cache, Skus}
use azure_admission_controll.Scheduledupgrades.{Clock}
use azure_admission_controll.Webhook.{
  HttpRequest, Answer, status, Codec, validate_on_create, validate_on_update, mutate_on_create,
  mutate_on_update, validator_http_handler, mutator_http_handler,
}
use azure_admission_controll.Handler.{Dependency, given, Deserializer, ResourceHandler}
use azure_admission_controll.Config.{Config}
use azure_admission_controll.Factory.{
  new_validator_http_handler_factory, new_mutator_http_handler_factory,
}
use azure_admission_controll.Cluster.Handler as ClusterHandler
use azure_admission_controll.Azurecluster.Handler as AzureclusterHandler
use azure_admission_controll.Azuremachine.Handler as AzuremachineHandler
use azure_admission_controll.Azuremachinepool.Handler as AzuremachinepoolHandler
use azure_admission_controll.Machinepool.Handler as MachinepoolHandler
use azure_admission_controll.Azureupdate.Handler as AzureupdateHandler
use azure_admission_controll.Spark as SparkHandler

-- What `RegisterWebhookHandlers` is given besides the configuration.
pub record Dependencies : Type 0 where
  pub logger : Dependency
  pub ctrl_client : Dependency
  pub ctrl_reader : Dependency
  pub vmcaps : Dependency

abbrev pub HttpHandler : Type 0
HttpHandler = HttpRequest → Exec Skus Answer

-- http.ServeMux for patterns that do not end in a slash: they match the path that they are.
abbrev pub ServeMux : Type 0
ServeMux = Map HttpHandler

-- `ServeMux.Handle` panics at an empty pattern and at one that is registered already.
unfoldable pub handle : String → HttpHandler → ServeMux → Result ServeMux
unfolding get
handle pattern handler mux =
    if pattern == ""
    then panic
    else elim (get pattern mux) [ none ↦ ok (mux ++ ((pattern, handler) ∷ [])) | some _ ↦ panic ]

-- `ServeMux.ServeHTTP` for a path without empty or dotted elements.
unfoldable pub serve_http : ServeMux → String → HttpHandler
unfolding get
serve_http mux path http = elim (get path mux) [
  | none ↦ pure (status 404)
  | some handler ↦ handler http
]

-- `fmt.Sprintf("/validate/%s/create", resource)` and the like
abbrev pub pattern_of : (kind operation resource : String) → String
pattern_of kind operation resource =
    String.◌++◌ "/"
      (String.◌++◌ kind (String.◌++◌ "/" (String.◌++◌ resource (String.◌++◌ "/" operation))))

-- `if webhookHandler, ok := h.(I); ok { … httpRequestHandler.Handle(pattern, …) }`
abbrev pub register :
    {A : Type 0} → Option A → String → (A → HttpHandler) → ServeMux → Result ServeMux
register none pattern handler mux = ok mux
register (some method) pattern handler mux = handle pattern (handler method) mux

module _ (p : Platform) (deserializer : Deserializer) where
  abbrev pub codec_of : ResourceHandler → Codec
  codec_of h = record { decode = h.decode; decode_review = deserializer.review }

  -- The body of the loop of `RegisterWebhookHandlers`.
  unfoldable pub register_handler : ResourceHandler → ServeMux → Result ServeMux
  unfolding handle
  register_handler h mux = do
    mux₁ ←
        register h.on_create_validate (pattern_of "validate" "create" h.resource)
          (λ f. validator_http_handler p (codec_of h) (validate_on_create p (codec_of h) f)) mux
    mux₂ ←
        register h.on_update_validate (pattern_of "validate" "update" h.resource)
          (λ f. validator_http_handler p (codec_of h) (validate_on_update p (codec_of h) f)) mux₁
    mux₃ ←
        register h.on_create_mutate (pattern_of "mutate" "create" h.resource)
          (λ f. mutator_http_handler p (codec_of h) (mutate_on_create p (codec_of h) f)) mux₂
    register h.on_update_mutate (pattern_of "mutate" "update" h.resource)
        (λ f. mutator_http_handler p (codec_of h) (mutate_on_update p (codec_of h) f)) mux₃

  unfoldable pub register_all : List ResourceHandler → ServeMux → Result ServeMux
  unfolding register_handler
  register_all [] mux = ok mux
  register_all (h ∷ hs) mux = register_handler h mux >>= register_all hs

module _ (p : Platform) (clock : Clock) (azure : String → Result Cache)
    (deserializer : Deserializer) where
  unfoldable pub get_all_handlers : Config → Dependencies → Result (List ResourceHandler)
  get_all_handlers cfg deps = do
    azure_config ←
        AzureupdateHandler.new_azure_config_webhook_handler
          (record { ctrl_client = deps.ctrl_client; decoder = given; logger = deps.logger })
    azure_cluster ← AzureclusterHandler.new_webhook_handler (record {
      base_domain = cfg.base_domain;
      ctrl_reader = deps.ctrl_reader;
      ctrl_client = deps.ctrl_client;
      decoder = given;
      location = cfg.location;
      logger = deps.logger;
    })
    azure_cluster_config ←
        AzureupdateHandler.new_azure_cluster_config_webhook_handler
          (record { ctrl_client = deps.ctrl_client; decoder = given; logger = deps.logger })
    azure_machine ← AzuremachineHandler.new_webhook_handler (record {
      ctrl_client = deps.ctrl_client;
      decoder = given;
      location = cfg.location;
      logger = deps.logger;
      vmcaps = deps.vmcaps;
    })
    azure_machine_pool ← AzuremachinepoolHandler.new_webhook_handler (record {
      ctrl_client = deps.ctrl_client;
      decoder = given;
      location = cfg.location;
      logger = deps.logger;
      vmcaps = deps.vmcaps;
    })
    cluster ← ClusterHandler.new_webhook_handler (record {
      base_domain = cfg.base_domain;
      ctrl_client = deps.ctrl_client;
      ctrl_reader = deps.ctrl_reader;
      decoder = given;
      logger = deps.logger;
    })
    machine_pool ← MachinepoolHandler.new_webhook_handler (record {
      ctrl_client = deps.ctrl_client;
      decoder = given;
      logger = deps.logger;
      vmcaps = deps.vmcaps;
    })
    spark ←
        SparkHandler.new_webhook_handler
          (record { ctrl_client = deps.ctrl_client; decoder = given; logger = deps.logger })
    ok (
        AzureupdateHandler.as_azure_config_resource_handler p deserializer azure_config
        ∷ AzureclusterHandler.as_resource_handler p deserializer azure_cluster
        ∷ AzureupdateHandler.as_azure_cluster_config_resource_handler p deserializer
            azure_cluster_config
        ∷ AzuremachineHandler.as_resource_handler p azure deserializer azure_machine
        ∷ AzuremachinepoolHandler.as_resource_handler p azure deserializer azure_machine_pool
        ∷ ClusterHandler.as_resource_handler p clock deserializer cluster
        ∷ MachinepoolHandler.as_resource_handler p azure deserializer machine_pool
        ∷ SparkHandler.as_resource_handler p deserializer spark
        ∷ [])

  unfoldable pub register_webhook_handlers : Config → Dependencies → ServeMux → Result ServeMux
  unfolding register_all get_all_handlers
  register_webhook_handlers cfg deps mux = do
    _ ← new_validator_http_handler_factory (record {
      ctrl_reader = deps.ctrl_reader;
      ctrl_client = deps.ctrl_client;
      logger = deps.logger;
    })
    _ ← new_mutator_http_handler_factory (record {
      ctrl_reader = deps.ctrl_reader;
      ctrl_client = deps.ctrl_client;
      logger = deps.logger;
    })
    handlers ← get_all_handlers cfg deps
    register_all p deserializer handlers mux
