-- ===== src/Handler.antt =====
-- What the packages' webhook_handler.go files share: the dependencies that a constructor is given, the
-- deserializer of the API machinery, and a webhook handler as the interfaces that its type implements
-- (pkg/app/types.go, pkg/generic/types.go, pkg/validator/webhook_handler.go,
-- pkg/mutator/webhook_handler.go).
use azure_admission_controll.Prelude.{String, List, Option, none, some, Bool, true, false, ◌==◌}
use azure_admission_controll.Error.{invalid_config, parsing_failed}
use azure_admission_controll.Result.{Result, Check, ok, err, reject_if}
use azure_admission_controll.Exec.{Exec}
use azure_admission_controll.Objects.{
  Cluster, AzureCluster, MachinePool, AzureMachinePool, AzureMachine, Spark, AzureClusterConfig,
  AzureConfig, Object,
}
use azure_admission_controll.Vmcapabilities.{Skus}
use azure_admission_controll.Patch.{PatchOperation}
use azure_admission_controll.Webhook.{Request}

-- A client, a decoder, a logger or the cache of VM sizes: a constructor asks whether it is nil.
pub data Dependency : Type 0 where
  nil : Dependency
  given : Dependency

abbrev pub is_nil : Dependency → Bool
is_nil nil = true
is_nil given = false

-- `if config.X == nil { return invalidConfigError }`
abbrev pub check_given : Dependency → Check
check_given d = reject_if (is_nil d) invalid_config

-- `if config.X == "" { return invalidConfigError }`
abbrev pub check_text : String → Check
check_text s = reject_if (s == "") invalid_config

-- `UniversalDeserializer().Decode` into a variable of each type: `none` is an error. A review may lack
-- its request.
pub record Deserializer : Type 0 where
  pub review : String → Option (Option Request)
  pub cluster : String → Option Cluster
  pub azure_cluster : String → Option AzureCluster
  pub machine_pool : String → Option MachinePool
  pub azure_machine_pool : String → Option AzureMachinePool
  pub azure_machine : String → Option AzureMachine
  pub spark : String → Option Spark
  pub azure_cluster_config : String → Option AzureClusterConfig
  pub azure_config : String → Option AzureConfig

-- The body of each `Decode`.
abbrev pub decoded : {A : Type 0} → (A → Object) → Option A → Result Object
decoded as_object none = err parsing_failed
decoded as_object (some cr) = ok (as_object cr)

-- `none` for an interface that the handler's type does not implement. A validating method shares the
-- cache of VM sizes.
pub record ResourceHandler : Type 0 where
  pub resource : String
  pub decode : String → Result Object
  pub on_create_validate : Option (Object → Exec Skus (Unit {0}))
  pub on_update_validate : Option (Object → Object → Exec Skus (Unit {0}))
  pub on_create_mutate : Option (Object → Exec Skus (List PatchOperation))
  pub on_update_mutate : Option (Object → Object → Exec Skus (List PatchOperation))
