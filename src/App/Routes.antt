-- ===== src/App/Routes.antt =====
-- Which paths the server answers, and when the handlers can be built at all.
use azure_admission_controll.Prelude.{
  String, [], ◌∷◌, Bool, true, false, not, ◌&&◌, ◌≡◌, refl, ◌==◌, inl, inr, Bool-cases,
  if◌then◌else◌,
}
use azure_admission_controll.Error.{invalid_config}
use azure_admission_controll.Result.{Result, ok, err}
use azure_admission_controll.Platform.{Platform}
use azure_admission_controll.Vmcapabilities.{Cache}
use azure_admission_controll.Scheduledupgrades.{Clock}
use azure_admission_controll.Handler.{Dependency, nil, given, is_nil, Deserializer}
use azure_admission_controll.Config.{Config}
use azure_admission_controll.App.{Dependencies, HttpHandler, ServeMux, register_webhook_handlers}
use azure_admission_controll.Factory.{
  new_validator_http_handler_factory, new_mutator_http_handler_factory,
}
use azure_admission_controll.Cluster.Handler as CH
use azure_admission_controll.Azurecluster.Handler as ACH
use azure_admission_controll.Azuremachine.Handler as AMH
use azure_admission_controll.Azuremachinepool.Handler as AMPH
use azure_admission_controll.Machinepool.Handler as MPH
use azure_admission_controll.Azureupdate.Handler as AUH
use azure_admission_controll.Spark
use azure_admission_controll.App.Table.{routes}

-- No dependency is nil, and the base domain and the location are not empty.
abbrev pub is_complete : Config → Dependencies → Bool
is_complete cfg deps =
    not (is_nil deps.logger)
    && not (is_nil deps.ctrl_client)
    && not (is_nil deps.ctrl_reader)
    && not (is_nil deps.vmcaps)
    && not (cfg.base_domain == "")
    && not (cfg.location == "")

-- The constructors that `RegisterWebhookHandlers` calls.
unfoldable constructors : Unit {0}
unfolding register_webhook_handlers new_validator_http_handler_factory
    new_mutator_http_handler_factory AUH.new_azure_config_webhook_handler
    AUH.new_azure_cluster_config_webhook_handler ACH.new_webhook_handler AMH.new_webhook_handler
    AMPH.new_webhook_handler CH.new_webhook_handler MPH.new_webhook_handler
    Spark.new_webhook_handler AUH.as_azure_config_resource_handler
    AUH.as_azure_cluster_config_resource_handler ACH.as_resource_handler AMH.as_resource_handler
    AMPH.as_resource_handler CH.as_resource_handler MPH.as_resource_handler
    Spark.as_resource_handler
constructors = tt

module _ (p : Platform) (clock : Clock) (azure : String → Result Cache) (d : Deserializer)
    (cfg : Config) where
  abbrev built : Dependency → Dependency → Dependency → Dependency → HttpHandler → Result ServeMux
  built logger ctrl_client ctrl_reader vmcaps health =
      register_webhook_handlers p clock azure d cfg
        (record {
          logger = logger;
          ctrl_client = ctrl_client;
          ctrl_reader = ctrl_reader;
          vmcaps = vmcaps;
        })
        (("/healthz", health) ∷ [])

  all_given :
      (health : HttpHandler)
      → (cfg.base_domain == "") ≡ false
      → (cfg.location == "") ≡ false
      → built given given given given health
        ≡ ok (("/healthz", health) ∷ routes p clock azure d cfg)
  unfolding constructors
  all_given health b l = rw (b, l) refl

  no_base :
      (health : HttpHandler)
      → (cfg.base_domain == "") ≡ true
      → built given given given given health ≡ err invalid_config
  unfolding constructors
  no_base health b = rw b refl

  no_location :
      (health : HttpHandler)
      → (cfg.base_domain == "") ≡ false
      → (cfg.location == "") ≡ true
      → built given given given given health ≡ err invalid_config
  unfolding constructors
  no_location health b l = rw (b, l) refl

  no_vmcaps : (health : HttpHandler) → built given given given nil health ≡ err invalid_config
  unfolding constructors
  no_vmcaps health = elim (Bool-cases (cfg.base_domain == "")) [
    | inl b ↦ rw b refl
    | inr b ↦ elim (Bool-cases (cfg.location == "")) [
      | inl l ↦ rw (b, l) refl
      | inr l ↦ rw (b, l) refl
    ]
  ]

  -- By the four dependencies.
  by_dependency :
      (logger ctrl_client ctrl_reader vmcaps : Dependency) (health : HttpHandler)
      → built logger ctrl_client ctrl_reader vmcaps health ≡ (
          if is_complete cfg (record {
            logger = logger;
            ctrl_client = ctrl_client;
            ctrl_reader = ctrl_reader;
            vmcaps = vmcaps;
          })
          then ok (("/healthz", health) ∷ routes p clock azure d cfg)
          else err invalid_config)
  unfolding register_webhook_handlers new_validator_http_handler_factory
      new_mutator_http_handler_factory
  by_dependency given given given given health = elim (Bool-cases (cfg.base_domain == "")) [
    | inl b ↦ rw b (no_base health b)
    | inr b ↦ elim (Bool-cases (cfg.location == "")) [
      | inl l ↦ rw (b, l) (no_location health b l)
      | inr l ↦ rw (b, l) (all_given health b l)
    ]
  ]
  by_dependency given given given nil health = no_vmcaps health
  by_dependency given given nil vmcaps health = refl
  by_dependency given nil given vmcaps health = refl
  by_dependency given nil nil vmcaps health = refl
  by_dependency nil given given vmcaps health = refl
  by_dependency nil given nil vmcaps health = refl
  by_dependency nil nil given vmcaps health = refl
  by_dependency nil nil nil vmcaps health = refl

  -- With everything given, the server's paths are the health check's and those of the table, each with
  -- its resource's webhook, and no path is registered twice, which would panic. With a nil dependency,
  -- an empty base domain or an empty location, the start fails with an error.
  pub register_webhook_handlers-routes :
      (deps : Dependencies) (health : HttpHandler)
      → register_webhook_handlers p clock azure d cfg deps (("/healthz", health) ∷ []) ≡ (
          if is_complete cfg deps
          then ok (("/healthz", health) ∷ routes p clock azure d cfg)
          else err invalid_config)
  register_webhook_handlers-routes deps health =
      by_dependency deps.logger deps.ctrl_client deps.ctrl_reader deps.vmcaps health
