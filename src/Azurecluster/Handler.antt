-- ===== src/Azurecluster/Handler.antt =====
-- pkg/azurecluster/webhook_handler.go: the construction of the handler, its decoding, and its methods.
use azure_admission_controll.Prelude.{String, some}
use azure_admission_controll.Result.{Result, ok, ◌>>◌}
use azure_admission_controll.Exec.{lift}
use azure_admission_controll.Objects.{Object, azure_cluster}
use azure_admission_controll.Platform.{Platform}
use azure_admission_controll.Handler.{
  Dependency, Deserializer, ResourceHandler, check_given, check_text, decoded,
}
use azure_admission_controll.Azurecluster.{on_create_validate, on_update_validate}
use azure_admission_controll.Azurecluster.Mutation.{on_create_mutate, on_update_mutate}

pub record WebhookHandler : Type 0 where
  pub base_domain : String
  pub ctrl_reader : Dependency
  pub ctrl_client : Dependency
  pub decoder : Dependency
  pub location : String
  pub logger : Dependency

pub record WebhookHandlerConfig : Type 0 where
  pub base_domain : String
  pub ctrl_reader : Dependency
  pub ctrl_client : Dependency
  pub decoder : Dependency
  pub location : String
  pub logger : Dependency

unfoldable pub new_webhook_handler : WebhookHandlerConfig → Result WebhookHandler
new_webhook_handler config = do
  check_text config.base_domain
  check_given config.ctrl_reader
  check_given config.ctrl_client
  check_given config.decoder
  check_given config.logger
  check_text config.location
  ok (record {
    base_domain = config.base_domain;
    ctrl_reader = config.ctrl_reader;
    ctrl_client = config.ctrl_client;
    decoder = config.decoder;
    location = config.location;
    logger = config.logger;
  })

abbrev pub resource : String
resource = "azurecluster"

unfoldable pub decode : Deserializer → String → Result Object
decode deserializer raw = decoded azure_cluster (deserializer.azure_cluster raw)

module _ (p : Platform) where
  -- The platform with what the handler keeps of its configuration.
  abbrev pub here : WebhookHandler → Platform
  here h = record p { base_domain = h.base_domain; location = h.location }

  -- The methods of the type.
  unfoldable pub as_resource_handler : Deserializer → WebhookHandler → ResourceHandler
  unfolding decode
  as_resource_handler deserializer h = record {
    resource = resource;
    decode = decode deserializer;
    on_create_validate = some (λ object. lift (on_create_validate (here h) object));
    on_update_validate = some (λ old object. lift (on_update_validate (here h) old object));
    on_create_mutate = some (λ object. lift (on_create_mutate (here h) object));
    on_update_mutate = some (λ _ object. lift (on_update_mutate (here h) object));
  }
