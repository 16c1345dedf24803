-- ===== src/Main/Start.antt =====
-- When the server starts, and with which paths.
use azure_admission_controll.Prelude.{String, List, [], ◌∷◌, true, not, ◌≡◌, ◌≢◌}
use azure_admission_controll.Error.{external}
use azure_admission_controll.Result.{Result, ok, accept, reject_if, ◌>>=◌, ◌>>◌}
use azure_admission_controll.Platform.{Platform}
use azure_admission_controll.Vmcapabilities.{Cache}
use azure_admission_controll.Scheduledupgrades.{Clock}
use azure_admission_controll.Handler.{Deserializer, given}
use azure_admission_controll.Config.{Config, parse}
use azure_admission_controll.App.{ServeMux, register_webhook_handlers}
use azure_admission_controll.App.Table.{routes}
use azure_admission_controll.Main.{serve, Environment, check_env, health_check}

abbrev pub AllSet : (String → String) → List String → Type 0
AllSet getenv [] = Unit
AllSet getenv (name ∷ names) = (getenv name ≢ "") × AllSet getenv names

module _ (p : Platform) (clock : Clock) (azure : String → Result Cache) (d : Deserializer)
    (env : Environment) where
  -- The variables that Azure's client is configured by.
  abbrev pub names : List String
  names = env.client_id ∷ env.client_secret ∷ env.subscription_id ∷ env.tenant_id ∷ []

  pub record Starts (cfg : Config) (mux : ServeMux) : Type 0 where
    pub flags : parse env.flags ≡ ok cfg
    pub logger : env.new_logger ≡ accept
    pub cluster_config : env.in_cluster_config ≡ accept
    pub clients : env.new_clients ≡ accept
    pub mapper : env.new_dynamic_rest_mapper ≡ accept
    pub cache : env.new_cache ≡ accept
    pub synced : env.cache_synced ≡ true
    pub variables : AllSet env.getenv names
    pub settings : env.get_settings ≡ accept
    pub authorizer : env.get_authorizer ≡ accept
    pub base_domain : cfg.base_domain ≢ ""
    pub location : cfg.location ≢ ""
    pub certificates : env.new_certman cfg.cert_file cfg.key_file ≡ accept
    pub watched : env.watch ≡ accept
    pub served : mux ≡ ("/healthz", health_check) ∷ routes p clock azure d cfg

  -- The last steps: the health check and the webhooks.
  abbrev registered : Config → Result (Config × ServeMux)
  registered cfg =
      register_webhook_handlers p clock azure d cfg
        (record { logger = given; ctrl_client = given; ctrl_reader = given; vmcaps = given })
        (("/healthz", health_check) ∷ [])
      >>= serve env cfg

  -- `mainError` once the flags are read.
  abbrev after_flags : Config → Result (Config × ServeMux)
  after_flags cfg =
      env.new_logger
      >> (env.in_cluster_config
          >> (env.new_clients
              >> (env.new_dynamic_rest_mapper
                  >> (env.new_cache
                      >> (reject_if (not env.cache_synced) (external "couldn't wait for cache sync")
                          >> (check_env env.getenv names
                              >> (env.get_settings >> (env.get_authorizer >> registered cfg))))))))
