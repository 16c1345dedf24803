-- ===== src/App/Tests.antt =====
-- A server with every dependency, and requests that it answers.
use azure_admission_controll.Deleting.{DeletedOr}
use azure_admission_controll.Prelude.{[], ◌∷◌, none, some, ◌≡◌, refl, ◌↔◌, ◌==◌, if◌then◌else◌}
use azure_admission_controll.Result.{ok, err}
use azure_admission_controll.Error.{invalid_config}
use azure_admission_controll.Exec.{pure}
use azure_admission_controll.Objects.{cluster, azure_machine_pool}
use azure_admission_controll.Config.{Config}
use azure_admission_controll.Cluster.Handler as CH
use azure_admission_controll.Cluster.Update as CU
use azure_admission_controll.Cluster.Tests.{sample, portless}
use azure_admission_controll.Azuremachinepool.Handler as AMPH
use azure_admission_controll.Azuremachinepool.Create as AMPC
use azure_admission_controll.Azuremachinepool.Tests.{pool}
use azure_admission_controll.Webhook.{Request, HttpRequest, status, allowed, is_legacy_object}
use azure_admission_controll.Webhook.Admission.{Carries}
use azure_admission_controll.Handler.{given, nil, Deserializer}
use azure_admission_controll.App.{
  Dependencies, HttpHandler, ServeMux, serve_http, register_webhook_handlers,
}
use azure_admission_controll.App.Table.{codec, routes, based, located}
use azure_admission_controll.App.Routes.{register_webhook_handlers-routes}
use azure_admission_controll.App.Serving.{
  Unless, serve_http-cluster_update, serve_http-azure_machine_pool_create,
}
use azure_admission_controll.Scheduledupgrades.Tests.{clock}
use azure_admission_controll.Generic.Tests.{here}
use azure_admission_controll.Example.{azure, cold, cold-IsFaithful}

abbrev request : Request
request = record { uid = "1"; name = "np"; object = "{new}"; old_object = "{old}"; dry_run = none }

abbrev pub deserializer : Deserializer
deserializer = record {
  review = λ bytes. if bytes == "{review}" then some (some request) else none;
  cluster = λ raw. if raw == "{new}" then some portless else some sample;
  azure_cluster = λ _. none;
  machine_pool = λ _. none;
  azure_machine_pool = λ _. some pool;
  azure_machine = λ _. none;
  spark = λ _. none;
  azure_cluster_config = λ _. none;
  azure_config = λ _. none;
}

abbrev pub config : Config
config = record {
  base_domain = "k8s.example.io";
  cert_file = "cert.pem";
  key_file = "key.pem";
  address = ":8080";
  availability_zones = "";
  location = "westeurope";
}

abbrev everything : Dependencies
everything = record { logger = given; ctrl_client = given; ctrl_reader = given; vmcaps = given }

abbrev health : HttpHandler
health http = pure (status 200)

abbrev mux : ServeMux
mux = ("/healthz", health) ∷ routes here clock azure deserializer config

abbrev http : HttpRequest
http = record { content_type = "application/json"; body = some "{review}" }

register_webhook_handlers-routes_example :
    register_webhook_handlers here clock azure deserializer config
      (record everything { vmcaps = nil })
      (("/healthz", health) ∷ [])
    ≡ err invalid_config
register_webhook_handlers-routes_example =
    register_webhook_handlers-routes here clock azure deserializer config
      (record everything { vmcaps = nil }) health

started :
    register_webhook_handlers here clock azure deserializer config everything
      (("/healthz", health) ∷ [])
    ≡ ok mux
started = register_webhook_handlers-routes here clock azure deserializer config everything health

serving_cases :
    ((serve_http mux "/healthz" http cold).0 ≡ ok (status 200))
    × ((serve_http mux "/validate/spark/create" http cold).0 ≡ ok (status 404))
unfolding serve_http
serving_cases = (refl, refl)

carried_cluster : Carries (codec here deserializer (CH.decode deserializer)) http request
carried_cluster = record { json_content = refl; bytes = "{review}"; readable = refl; review = refl }

carried_pool : Carries (codec here deserializer (AMPH.decode deserializer)) http request
carried_pool = record { json_content = refl; bytes = "{review}"; readable = refl; review = refl }

serve_http-cluster_update_example :
    ((serve_http mux "/validate/cluster/update" http cold).0 ≡ ok (allowed "1" []))
    ↔ Unless (is_legacy_object here (cluster portless)) (
        DeletedOr portless.meta
          (CU.IsUpdatable (based here clock azure deserializer config) clock sample portless))
serve_http-cluster_update_example =
    serve_http-cluster_update here clock azure deserializer config everything health mux started
      http request sample portless cold carried_cluster refl refl

serve_http-azure_machine_pool_create_example :
    ((serve_http mux "/validate/azuremachinepool/create" http cold).0 ≡ ok (allowed "1" []))
    ↔ Unless
        (is_legacy_object here (azure_machine_pool pool))
        (AMPC.IsCreatable (located here clock azure deserializer config) azure pool)
serve_http-azure_machine_pool_create_example =
    serve_http-azure_machine_pool_create here clock azure deserializer config everything health mux
      started http request pool cold carried_pool refl cold-IsFaithful
