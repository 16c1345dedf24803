-- ===== src/Platform.antt =====
-- What the controller takes from code outside the repository: semantic versions (blang/semver),
-- the names that the API packages define, the Kubernetes API as the controller-runtime client
-- shows it, and the webhooks that Cluster API's own types bring along.
use azure_admission_controll.Prelude.{ℕ, String, List, Option, Bool, Ordering}
use azure_admission_controll.Error.{Error}
use azure_admission_controll.Result.{Result, Check}
use azure_admission_controll.Objects.{
  ObjectMeta, Condition, Cluster, AzureCluster, MachinePool, AzureMachinePool, AzureMachine,
  Release, Object,
}
use azure_admission_controll.Patch.{PatchOperation}

-- blang/semver: `compare` is `Version.Compare`.
pub record Semver : Type 1 where
  pub Version : Type 0
  pub major : Version → ℕ
  pub minor : Version → ℕ
  pub compare : Version → Version → Ordering
  pub to_string : Version → String
  pub parse : String → Option Version
  pub parse_tolerant : String → Option Version

-- Constants of apiextensions, Cluster API, the core API and the Azure SDK.
pub record Names : Type 0 where
  pub release_version : String
  pub organization : String
  pub cluster_label : String
  pub capi_cluster_name : String
  pub azure_operator_version : String
  pub cluster_operator_version : String
  pub update_schedule_target_time : String
  pub update_schedule_target_release : String
  pub node_pool_min_size : String
  pub node_pool_max_size : String
  pub creating_condition : String
  pub upgrading_condition : String
  pub condition_true : String
  pub condition_false : String
  pub condition_unknown : String
  pub state_deprecated : String
  pub standard_lrs : String
  pub premium_lrs : String

-- The answer to a `Get` by name: the object, a NotFound status, or another error.
pub data Lookup {ℓ} (A : Type ℓ) : Type ℓ where
  found : A → Lookup A
  missing : Lookup A
  failed : Error → Lookup A

-- What the API server answers while one request is handled; the controller only reads. The name of
-- an Organization is given by its code points, as `normalize` computes it.
pub record Client : Type 0 where
  pub list_releases : Result (List Release)
  pub list_clusters : (cluster_label : String) → Result (List Cluster)
  pub get_release : (name : String) → Lookup Release
  pub get_organization : (name : List ℕ) → Lookup ObjectMeta
  pub get_cluster : (namespace name : String) → Lookup Cluster
  pub get_azure_cluster : (namespace name : String) → Lookup AzureCluster
  pub get_azure_machine_pool : (namespace name : String) → Lookup AzureMachinePool
  -- capiutil.GetOwnerCluster: nil where no owner reference names a Cluster
  pub get_owner_cluster : ObjectMeta → Result (Option Cluster)

-- Functions of Cluster API and its Azure provider on their own types.
pub record Vendor : Type 0 where
  pub validate_create_cluster : Cluster → Check
  pub validate_update_cluster : Cluster → Cluster → Check
  pub validate_create_azure_cluster : AzureCluster → Check
  pub validate_update_azure_cluster : AzureCluster → AzureCluster → Check
  pub validate_create_machine_pool : MachinePool → Check
  pub validate_update_machine_pool : MachinePool → MachinePool → Check
  pub validate_create_azure_machine_pool : AzureMachinePool → Check
  pub validate_update_azure_machine_pool : AzureMachinePool → AzureMachinePool → Check
  pub validate_create_azure_machine : AzureMachine → Check
  pub validate_update_azure_machine : AzureMachine → AzureMachine → Check
  -- capiconditions.Get and IsTrue
  pub get_condition : Cluster → String → Option Condition
  pub is_condition_true : Cluster → String → Bool
  -- `==` on resource.Quantity structs
  pub quantity_eq : String → String → Bool
  -- The JSON patch (json.Marshal and jsonpatch.CreatePatch) from an object to the same object after its
  -- method `Default`
  pub default_patches : Object → Result (List PatchOperation)
  -- unicode.ToLower and unicode.IsDigit
  pub rune_to_lower : ℕ → ℕ
  pub rune_is_digit : ℕ → Bool

pub record Platform : Type 1 where
  pub semver : Semver
  pub open semver use *
  pub names : Names
  pub client : Client
  pub vendor : Vendor
  -- the installation's base domain and Azure region
  pub base_domain : String
  pub location : String
