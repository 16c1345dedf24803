-- ===== src/Machinepool/Handler.antt =====
-- pkg/machinepool/webhook_handler.go: the construction of the handler, its decoding, and its methods.
use azure_admission_controll.Prelude.{String, some}
use azure_admission_controll.Result.{Result, ok, ◌>>◌}
use azure_admission_controll.Exec.{lift}
use azure_admission_controll.Objects.{Object, machine_pool}
use azure_admission_controll.Platform.{Platform}
use azure_admission_controll.Vmcapabilities.{Cache}
use azure_admission_controll.Handler.{
  Dependency, Deserializer, ResourceHandler, check_given, decoded,
}
use azure_admission_controll.Machinepool.{on_create_validate, on_update_validate}
use azure_admission_controll.Machinepool.Mutation.{on_create_mutate, on_update_mutate}

pub record WebhookHandler : Type 0 where
  pub ctrl_client : Dependency
  pub decoder : Dependency
  pub logger : Dependency
  pub vmcaps : Dependency

pub record WebhookHandlerConfig : Type 0 where
  pub ctrl_client : Dependency
  pub decoder : Dependency
  pub logger : Dependency
  pub vmcaps : Dependency

unfoldable pub new_webhook_handler : WebhookHandlerConfig → Result WebhookHandler
new_webhook_handler config = do
  check_given config.ctrl_client
  check_given config.decoder
  check_given config.logger
  check_given config.vmcaps
  ok (record {
    ctrl_client = config.ctrl_client;
    decoder = config.decoder;
    logger = config.logger;
    vmcaps = config.vmcaps;
  })

abbrev pub resource : String
resource = "machinepool"

unfoldable pub decode : Deserializer → String → Result Object
decode deserializer raw = decoded machine_pool (deserializer.machine_pool raw)

module _ (p : Platform) (azure : String → Result Cache) where
  -- The methods of the type.
  unfoldable pub as_resource_handler : Deserializer → WebhookHandler → ResourceHandler
  unfolding decode
  as_resource_handler deserializer h = record {
    resource = resource;
    decode = decode deserializer;
    on_create_validate = some (on_create_validate p azure);
    on_update_validate = some (λ old object. lift (on_update_validate p old object));
    on_create_mutate = some (λ object. lift (on_create_mutate p object));
    on_update_mutate = some (λ _ object. lift (on_update_mutate p object));
  }
