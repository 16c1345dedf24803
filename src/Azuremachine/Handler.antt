-- ===== src/Azuremachine/Handler.antt =====
-- pkg/azuremachine/webhook_handler.go: the construction of the handler, its decoding, and its methods.
use azure_admission_controll.Prelude.{String, some}
use azure_admission_controll.Result.{Result, ok, ◌>>◌}
use azure_admission_controll.Exec.{lift}
use azure_admission_controll.Objects.{Object, azure_machine}
use azure_admission_controll.Platform.{Platform}
use azure_admission_controll.Vmcapabilities.{Cache}
use azure_admission_controll.Handler.{
  Dependency, Deserializer, ResourceHandler, check_given, check_text, decoded,
}
use azure_admission_controll.Azuremachine.{on_create_validate, on_update_validate}
use azure_admission_controll.Azuremachine.Mutation.{on_create_mutate, on_update_mutate}

pub record WebhookHandler : Type 0 where
  pub ctrl_client : Dependency
  pub decoder : Dependency
  pub location : String
  pub logger : Dependency
  pub vmcaps : Dependency

pub record WebhookHandlerConfig : Type 0 where
  pub ctrl_client : Dependency
  pub decoder : Dependency
  pub location : String
  pub logger : Dependency
  pub vmcaps : Dependency

unfoldable pub new_webhook_handler : WebhookHandlerConfig → Result WebhookHandler
new_webhook_handler config = do
  check_given config.ctrl_client
  check_given config.decoder
  check_given config.logger
  check_text config.location
  check_given config.vmcaps
  ok (record {
    ctrl_client = config.ctrl_client;
    decoder = config.decoder;
    location = config.location;
    logger = config.logger;
    vmcaps = config.vmcaps;
  })

abbrev pub resource : String
resource = "azuremachine"

unfoldable pub decode : Deserializer → String → Result Object
decode deserializer raw = decoded azure_machine (deserializer.azure_machine raw)

module _ (p : Platform) (azure : String → Result Cache) where
  -- The platform with what the handler keeps of its configuration.
  abbrev pub here : WebhookHandler → Platform
  here h = record p { location = h.location }

  -- The methods of the type.
  unfoldable pub as_resource_handler : Deserializer → WebhookHandler → ResourceHandler
  unfolding decode
  as_resource_handler deserializer h = record {
    resource = resource;
    decode = decode deserializer;
    on_create_validate = some (on_create_validate (here h) azure);
    on_update_validate = some (λ old object. lift (on_update_validate (here h) old object));
    on_create_mutate = some (λ object. lift (on_create_mutate (here h) object));
    on_update_mutate = some (λ _ object. lift (on_update_mutate (here h) object));
  }
