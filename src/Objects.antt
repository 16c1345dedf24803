-- ===== src/Objects.antt =====
-- The custom resources, with the fields that the controller reads. The types are those of
-- Cluster API, its Azure provider and the Giant Swarm API; a field that no code here names is left
-- out. Where the code compares a whole struct with one that it builds (`reflect.DeepEqual`),
-- `rest_is_zero` says that every field without a name here has its zero value, as in the struct
-- that the code builds.
use azure_admission_controll.Prelude.{ℕ, String, List, Option, Bool, ℤ, Map, none, some, eqb, true}

pub record ObjectMeta : Type 0 where
  pub name : String
  pub generate_name : String
  pub namespace : String
  pub labels : Map String
  pub annotations : Map String
  -- `none` is nil, and `some 0` a pointer to the zero time
  pub deletion_timestamp : Option ℕ

-- `GetDeletionTimestamp().IsZero()`
abbrev pub is_zero_time : Option ℕ → Bool
is_zero_time none = true
is_zero_time (some t) = eqb t 0

pub record Condition : Type 0 where
  pub type : String
  pub status : String

pub record ApiEndpoint : Type 0 where
  pub host : String
  pub port : ℤ

-- `cidr_blocks` is `none` for a nil slice, which `DeepEqual` tells from an empty one.
pub record NetworkRanges : Type 0 where
  pub cidr_blocks : Option (List String)

pub record ClusterNetwork : Type 0 where
  pub api_server_port : Option ℤ
  pub service_domain : String
  pub services : Option NetworkRanges
  pub pods : Option NetworkRanges

pub record Cluster : Type 0 where
  pub meta : ObjectMeta
  pub cluster_network : Option ClusterNetwork
  pub control_plane_endpoint : ApiEndpoint
  pub conditions : List Condition

pub record FrontendIp : Type 0 where
  pub name : String
  pub rest_is_zero : Bool

pub record LoadBalancerSpec : Type 0 where
  pub name : String
  pub sku : String
  pub type : String
  pub frontend_ips : List FrontendIp
  pub rest_is_zero : Bool

pub record AzureCluster : Type 0 where
  pub meta : ObjectMeta
  pub location : String
  pub control_plane_endpoint : ApiEndpoint
  pub api_server_lb : LoadBalancerSpec

pub record InfrastructureRef : Type 0 where
  pub namespace : String
  pub name : String

pub record MachinePool : Type 0 where
  pub meta : ObjectMeta
  pub replicas : Option ℤ
  pub failure_domains : List String
  pub infrastructure_ref : InfrastructureRef

pub record DataDisk : Type 0 where
  pub name_suffix : String
  pub disk_size_gb : ℤ
  pub lun : Option ℤ
  pub rest_is_zero : Bool

-- `max_price` is the text of a resource.Quantity.
pub record SpotVmOptions : Type 0 where
  pub max_price : Option String

pub record AzureMachinePool : Type 0 where
  pub meta : ObjectMeta
  pub location : String
  pub vm_size : String
  pub accelerated_networking : Option Bool
  pub data_disks : List DataDisk
  pub spot_vm_options : Option SpotVmOptions
  pub storage_account_type : String
  pub ssh_public_key : String

pub record AzureMachine : Type 0 where
  pub meta : ObjectMeta
  pub location : String
  pub vm_size : String
  pub failure_domain : Option String
  pub ssh_public_key : String
  pub caching_type : String

pub record Spark : Type 0 where
  pub meta : ObjectMeta

pub record AzureClusterConfig : Type 0 where
  pub meta : ObjectMeta
  pub release_version : String

pub record AzureConfig : Type 0 where
  pub meta : ObjectMeta
  pub master_subnet_cidr : String
  pub availability_zones : List ℤ

pub record Component : Type 0 where
  pub name : String
  pub version : String

pub record Release : Type 0 where
  pub meta : ObjectMeta
  pub state : String
  pub components : List Component

-- An `interface{}` that a handler is given.
pub data Object : Type 0 where
  cluster : Cluster → Object
  azure_cluster : AzureCluster → Object
  machine_pool : MachinePool → Object
  azure_machine_pool : AzureMachinePool → Object
  azure_machine : AzureMachine → Object
  spark : Spark → Object
  azure_cluster_config : AzureClusterConfig → Object
  azure_config : AzureConfig → Object
  -- nil, or a value of another type
  other : Object
