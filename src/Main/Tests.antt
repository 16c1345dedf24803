-- ===== src/Main/Tests.antt =====
-- A start with every flag and variable, and starts that fail.
use azure_admission_controll.Prelude.{String, [], ◌∷◌, ◌≡◌, refl, Map, true, ◌==◌, if◌then◌else◌}
use azure_admission_controll.Error.{external}
use azure_admission_controll.Result.{ok, err, accept}
use azure_admission_controll.Config.{parse}
use azure_admission_controll.App.{ServeMux}
use azure_admission_controll.App.Table.{routes}
use azure_admission_controll.App.Tests.{config, deserializer}
use azure_admission_controll.Main.{Environment, main_error, health_check}
use azure_admission_controll.Scheduledupgrades.Tests.{clock}
use azure_admission_controll.Generic.Tests.{here}
use azure_admission_controll.Example.{azure}

abbrev flags : Map String
flags =
    ("tls-cert-file", "cert.pem")
    ∷ ("tls-key-file", "key.pem")
    ∷ ("base-domain", "k8s.example.io")
    ∷ ("location", "westeurope")
    ∷ []

abbrev environment : Environment
environment = record {
  flags = flags;
  new_logger = accept;
  in_cluster_config = accept;
  new_clients = accept;
  new_dynamic_rest_mapper = accept;
  new_cache = accept;
  cache_synced = true;
  getenv = λ name. if name == "AZURE_TENANT_ID" then "" else "set";
  get_settings = accept;
  get_authorizer = accept;
  new_certman = λ cert key. accept;
  watch = accept;
  client_id = "AZURE_CLIENT_ID";
  client_secret = "AZURE_CLIENT_SECRET";
  subscription_id = "AZURE_SUBSCRIPTION_ID";
  tenant_id = "AZURE_TENANT_ID";
}

abbrev mux : ServeMux
mux = ("/healthz", health_check) ∷ routes here clock azure deserializer config

start_cases :
    (parse flags ≡ ok config)
    × (parse (("location", "westeurope") ∷ []) ≡ err (external "tls-cert-file"))
    × (main_error here clock azure deserializer environment ≡ err (external "AZURE_TENANT_ID"))
unfolding parse main_error
start_cases = (refl, refl, refl)
