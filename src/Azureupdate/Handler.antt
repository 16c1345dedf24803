-- ===== src/Azureupdate/Handler.antt =====
-- pkg/azureupdate: the construction of the two handlers, their decoding, and their methods.
use azure_admission_controll.Prelude.{String, none, some}
use azure_admission_controll.Result.{Result, ok, ◌>>◌}
use azure_admission_controll.Exec.{lift}
use azure_admission_controll.Objects.{Object, azure_cluster_config, azure_config}
use azure_admission_controll.Platform.{Platform}
use azure_admission_controll.Handler.{
  Dependency, Deserializer, ResourceHandler, check_given, decoded,
}
use azure_admission_controll.Azureupdate.{
  on_update_validate_config, on_update_validate_cluster_config,
}

pub record AzureConfigWebhookHandler : Type 0 where
  pub ctrl_client : Dependency
  pub decoder : Dependency
  pub logger : Dependency

pub record AzureConfigWebhookHandlerConfig : Type 0 where
  pub ctrl_client : Dependency
  pub decoder : Dependency
  pub logger : Dependency

unfoldable pub new_azure_config_webhook_handler :
    AzureConfigWebhookHandlerConfig → Result AzureConfigWebhookHandler
new_azure_config_webhook_handler config = do
  check_given config.ctrl_client
  check_given config.decoder
  check_given config.logger
  ok (record { ctrl_client = config.ctrl_client; decoder = config.decoder; logger = config.logger })

abbrev pub azure_config_resource : String
azure_config_resource = "azureconfig"

unfoldable pub decode_azure_config : Deserializer → String → Result Object
decode_azure_config deserializer raw = decoded azure_config (deserializer.azure_config raw)

pub record AzureClusterConfigWebhookHandler : Type 0 where
  pub ctrl_client : Dependency
  pub decoder : Dependency
  pub logger : Dependency

pub record AzureClusterConfigWebhookHandlerConfig : Type 0 where
  pub ctrl_client : Dependency
  pub decoder : Dependency
  pub logger : Dependency

unfoldable pub new_azure_cluster_config_webhook_handler :
    AzureClusterConfigWebhookHandlerConfig → Result AzureClusterConfigWebhookHandler
new_azure_cluster_config_webhook_handler config = do
  check_given config.ctrl_client
  check_given config.decoder
  check_given config.logger
  ok (record { ctrl_client = config.ctrl_client; decoder = config.decoder; logger = config.logger })

abbrev pub azure_cluster_config_resource : String
azure_cluster_config_resource = "azureclusterconfig"

unfoldable pub decode_azure_cluster_config : Deserializer → String → Result Object
decode_azure_cluster_config deserializer raw =
    decoded azure_cluster_config (deserializer.azure_cluster_config raw)

module _ (p : Platform) where
  -- The methods of the type.
  unfoldable pub as_azure_config_resource_handler :
      Deserializer → AzureConfigWebhookHandler → ResourceHandler
  unfolding decode_azure_config
  as_azure_config_resource_handler deserializer h = record {
    resource = azure_config_resource;
    decode = decode_azure_config deserializer;
    on_create_validate = none;
    on_update_validate = some (λ old object. lift (on_update_validate_config p old object));
    on_create_mutate = none;
    on_update_mutate = none;
  }

  -- The methods of the type.
  unfoldable pub as_azure_cluster_config_resource_handler :
      Deserializer → AzureClusterConfigWebhookHandler → ResourceHandler
  unfolding decode_azure_cluster_config
  as_azure_cluster_config_resource_handler deserializer h = record {
    resource = azure_cluster_config_resource;
    decode = decode_azure_cluster_config deserializer;
    on_create_validate = none;
    on_update_validate = some (λ old object. lift (on_update_validate_cluster_config p old object));
    on_create_mutate = none;
    on_update_mutate = none;
  }
