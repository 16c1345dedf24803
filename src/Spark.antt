-- ===== src/Spark.antt =====
-- pkg/spark/webhook_handler.go: the construction of the handler, its decoding, and its methods.
use azure_admission_controll.Prelude.{String, none, some}
use azure_admission_controll.Result.{Result, ok, ◌>>◌}
use azure_admission_controll.Exec.{lift}
use azure_admission_controll.Objects.{Object, spark}
use azure_admission_controll.Platform.{Platform}
use azure_admission_controll.Handler.{
  Dependency, Deserializer, ResourceHandler, check_given, decoded,
}
use azure_admission_controll.Mutator.{on_create_mutate}

pub record WebhookHandler : Type 0 where
  pub ctrl_client : Dependency
  pub decoder : Dependency
  pub logger : Dependency

pub record WebhookHandlerConfig : Type 0 where
  pub ctrl_client : Dependency
  pub decoder : Dependency
  pub logger : Dependency

unfoldable pub new_webhook_handler : WebhookHandlerConfig → Result WebhookHandler
new_webhook_handler config = do
  check_given config.ctrl_client
  check_given config.decoder
  check_given config.logger
  ok (record { ctrl_client = config.ctrl_client; decoder = config.decoder; logger = config.logger })

abbrev pub resource : String
resource = "spark"

unfoldable pub decode : Deserializer → String → Result Object
decode deserializer raw = decoded spark (deserializer.spark raw)

module _ (p : Platform) where
  -- The methods of the type.
  unfoldable pub as_resource_handler : Deserializer → WebhookHandler → ResourceHandler
  unfolding decode
  as_resource_handler deserializer h = record {
    resource = resource;
    decode = decode deserializer;
    on_create_validate = none;
    on_update_validate = none;
    on_create_mutate = some (λ object. lift (on_create_mutate p object));
    on_update_mutate = none;
  }
