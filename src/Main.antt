-- ===== src/Main.antt =====
-- main.go: what happens before the server listens, and what it then serves.
pub mod Start
mod Tests
use azure_admission_controll.Prelude.{ℕ, String, List, [], ◌∷◌, Bool, not, Map, ◌==◌}
use azure_admission_controll.Error.{external}
use azure_admission_controll.Result.{Result, Check, ok, err, panic, accept, reject_if, ◌>>=◌, ◌>>◌}
use azure_admission_controll.Exec.{pure}
use azure_admission_controll.Platform.{Platform}
use azure_admission_controll.Vmcapabilities.{Cache}
use azure_admission_controll.Scheduledupgrades.{Clock}
use azure_admission_controll.Webhook.{status}
use azure_admission_controll.Handler.{Dependency, given, Deserializer, check_given}
use azure_admission_controll.Config.{Config, parse}
use azure_admission_controll.App.{HttpHandler, ServeMux, handle, register_webhook_handlers}

-- The calls of other libraries in `mainError`, each with the error that it returns.
pub record Environment : Type 0 where
  pub flags : Map String
  pub new_logger : Check
  pub in_cluster_config : Check
  pub new_clients : Check
  pub new_dynamic_rest_mapper : Check
  pub new_cache : Check
  pub cache_synced : Bool
  -- os.Getenv: the empty text for a variable that is not set
  pub getenv : String → String
  pub get_settings : Check
  pub get_authorizer : Check
  -- certman.New and Watch
  pub new_certman : (cert_file key_file : String) → Check
  pub watch : Check
  -- github.com/Azure/go-autorest/autorest/azure/auth: the names of the variables
  pub client_id : String
  pub client_secret : String
  pub subscription_id : String
  pub tenant_id : String

-- The loop over the names of the environment variables.
unfoldable pub check_env : (String → String) → List String → Check
check_env getenv [] = accept
check_env getenv (name ∷ names) = do
  reject_if (getenv name == "") (external name)
  check_env getenv names

-- `vmcapabilities.New`; the map of SKUs that it makes is empty.
unfoldable pub new_vmsku : (logger azure : Dependency) → Result Dependency
new_vmsku logger azure = do check_given logger; check_given azure; ok given

unfoldable pub health_check : HttpHandler
health_check http = pure (status 200)

-- `if err != nil { panic(…) }`
abbrev pub or_panic : Check → Check
or_panic (err e) = panic
or_panic r = r

-- `serve` up to the call of ListenAndServeTLS, with what it is called on: the configuration has the
-- address, and the certificates are those of the two files.
unfoldable pub serve : Environment → Config → ServeMux → Result (Config × ServeMux)
serve env cfg mux = do
  or_panic (env.new_certman cfg.cert_file cfg.key_file)
  or_panic env.watch
  ok (cfg, mux)

module _ (p : Platform) (clock : Clock) (azure : String → Result Cache)
    (deserializer : Deserializer) where
  -- `mainError` up to the call of ListenAndServeTLS in `serve`.
  unfoldable pub main_error : Environment → Result (Config × ServeMux)
  unfolding check_env new_vmsku serve
  main_error env = do
    cfg ← parse env.flags
    env.new_logger
    env.in_cluster_config
    env.new_clients
    env.new_dynamic_rest_mapper
    env.new_cache
    reject_if (not env.cache_synced) (external "couldn't wait for cache sync")
    check_env env.getenv
        (env.client_id ∷ env.client_secret ∷ env.subscription_id ∷ env.tenant_id ∷ [])
    env.get_settings
    env.get_authorizer
    vmcaps ← new_vmsku given given
    mux ← handle "/healthz" health_check []
    mux' ←
        register_webhook_handlers p clock azure deserializer cfg
          (record { logger = given; ctrl_client = given; ctrl_reader = given; vmcaps = vmcaps }) mux
    serve env cfg mux'
