-- ===== src/Key.antt =====
-- pkg/key/key.go: derived names, and the cast of a webhook's object to its type.
use Prim.Native.String
use azure_admission_controll.Prelude.{String, ℤ, pos}
use azure_admission_controll.Error.{wrong_type}
use azure_admission_controll.Result.{Result, ok, err}
use azure_admission_controll.Objects.{
  Cluster, AzureCluster, MachinePool, AzureMachinePool, AzureMachine, Spark, AzureClusterConfig,
  AzureConfig, Object, cluster, azure_cluster, machine_pool, azure_machine_pool, azure_machine,
  spark, azure_cluster_config, azure_config,
}

infixr 65 ◌<>◌
abbrev ◌<>◌ : String → String → String
s <> t = String.◌++◌ s t

abbrev pub control_plane_endpoint_port : ℤ
control_plane_endpoint_port = pos 443

abbrev pub cluster_network_service_cidr : String
cluster_network_service_cidr = "172.31.0.0/16"

unfoldable pub get_control_plane_endpoint_host : (cluster_name base_domain : String) → String
get_control_plane_endpoint_host cluster_name base_domain =
    "api." <> cluster_name <> "." <> base_domain

abbrev pub service_domain : String
service_domain = "cluster.local"

unfoldable pub api_server_lb_name : String → String
api_server_lb_name cluster_name = cluster_name <> "-API-PublicLoadBalancer"

abbrev pub api_server_lb_sku : String
api_server_lb_sku = "Standard"

abbrev pub api_server_lb_type : String
api_server_lb_type = "Public"

unfoldable pub api_server_lb_frontend_ip_name : String → String
unfolding api_server_lb_name
api_server_lb_frontend_ip_name cluster_name = api_server_lb_name cluster_name <> "-Frontend"

abbrev pub os_disk_caching_type : String
os_disk_caching_type = "ReadWrite"

unfoldable pub to_cluster_ptr : Object → Result Cluster
to_cluster_ptr (cluster c) = ok c
to_cluster_ptr _ = err wrong_type

unfoldable pub to_azure_cluster_ptr : Object → Result AzureCluster
to_azure_cluster_ptr (azure_cluster c) = ok c
to_azure_cluster_ptr _ = err wrong_type

unfoldable pub to_machine_pool_ptr : Object → Result MachinePool
to_machine_pool_ptr (machine_pool m) = ok m
to_machine_pool_ptr _ = err wrong_type

unfoldable pub to_azure_machine_pool_ptr : Object → Result AzureMachinePool
to_azure_machine_pool_ptr (azure_machine_pool m) = ok m
to_azure_machine_pool_ptr _ = err wrong_type

unfoldable pub to_azure_machine_ptr : Object → Result AzureMachine
to_azure_machine_ptr (azure_machine m) = ok m
to_azure_machine_ptr _ = err wrong_type

unfoldable pub to_spark_ptr : Object → Result Spark
to_spark_ptr (spark s) = ok s
to_spark_ptr _ = err wrong_type

unfoldable pub to_azure_cluster_config_ptr : Object → Result AzureClusterConfig
to_azure_cluster_config_ptr (azure_cluster_config c) = ok c
to_azure_cluster_config_ptr _ = err wrong_type

unfoldable pub to_azure_config_ptr : Object → Result AzureConfig
to_azure_config_ptr (azure_config c) = ok c
to_azure_config_ptr _ = err wrong_type
