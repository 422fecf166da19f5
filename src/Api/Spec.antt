-- ===== src/Api/Spec.antt =====
-- api/v1alpha1/tlndb_types.go: the desired state. An optional pointer is an `Option`; a Go string,
-- slice or map that is left out is empty. `int32` and `int64` fields are integers.
use talon_db_k8s_operator.Base.{String, Bool, Option, List}
use talon_db_k8s_operator.Base.Int.{ℤ}
use talon_db_k8s_operator.Base.Dict.{Dict}
use talon_db_k8s_operator.Kube.{
  Platform, EnvVar, Container, Volume, VolumeMount, PodSecurityContext, SecurityContext,
  NetworkPolicyRule,
}

pub record ImageSpec : Type 0 where
  pub repository : String
  pub tag : String
  pub digest : String
  pub pull_policy : String
  pub pull_secrets : List String

pub record TlnDbConfig : Type 0 where
  pub db_path : String
  pub tcp : String
  pub http : String
  pub socket : String
  pub extra_config : String

pub record PersistenceSpec (K : Platform) : Type 0 where
  pub enabled : Option Bool
  pub size : K.Quantity
  pub storage_class_name : Option String
  pub access_modes : List String
  pub existing_claim : String

pub record StorageSpec (K : Platform) : Type 0 where
  pub persistence : PersistenceSpec K

pub record ReplicationSpec : Type 0 where
  pub read_replicas : ℤ
  pub oplog_retention : ℤ

pub record ServiceSpec : Type 0 where
  pub service_type : String
  pub annotations : Dict String
  pub labels : Dict String

pub record IngressSpec : Type 0 where
  pub enabled : Bool
  pub class_name : Option String
  pub host : String
  pub path : String
  pub tls_secret_name : String
  pub annotations : Dict String

pub record NetworkPolicySpec (K : Platform) : Type 0 where
  pub enabled : Bool
  pub ingress_rules : List (NetworkPolicyRule K)
  pub egress_rules : List (NetworkPolicyRule K)

pub record NetworkingSpec (K : Platform) : Type 0 where
  pub service : ServiceSpec
  pub ingress : IngressSpec
  pub network_policy : NetworkPolicySpec K

pub record ServiceMonitorSpec : Type 0 where
  pub enabled : Bool
  pub interval : String
  pub labels : Dict String

pub record MetricsSpec : Type 0 where
  pub enabled : Option Bool
  pub port : ℤ
  pub path : String
  pub service_monitor : ServiceMonitorSpec

pub record HealthSpec : Type 0 where
  pub initial_delay_seconds : ℤ
  pub startup_timeout_seconds : ℤ

pub record ObservabilitySpec : Type 0 where
  pub metrics : MetricsSpec
  pub health : HealthSpec

pub record PdbSpec : Type 0 where
  pub enabled : Bool
  pub min_available : Option ℤ
  pub max_unavailable : Option ℤ

pub record HpaSpec : Type 0 where
  pub enabled : Bool
  pub min_replicas : Option ℤ
  pub max_replicas : ℤ
  pub cpu_utilization : Option ℤ
  pub memory_utilization : Option ℤ

pub record AvailabilitySpec : Type 0 where
  pub pod_disruption_budget : PdbSpec
  pub horizontal_pod_autoscaler : HpaSpec

pub record SecuritySpec (K : Platform) : Type 0 where
  pub pod_security_context : Option (PodSecurityContext K)
  pub container_security_context : Option (SecurityContext K)
  pub fs_group : Option ℤ

pub record TlnDbSpec (K : Platform) : Type 0 where
  pub mode : String
  pub replication : ReplicationSpec
  pub image : ImageSpec
  pub replicas : Option ℤ
  pub config : TlnDbConfig
  pub config_from : Option String
  pub env : List (EnvVar K)
  pub env_from : List K.EnvFromSource
  pub resources : K.ResourceRequirements
  pub storage : StorageSpec K
  pub networking : NetworkingSpec K
  pub security : SecuritySpec K
  pub observability : ObservabilitySpec
  pub availability : AvailabilitySpec
  pub node_selector : Dict String
  pub tolerations : List K.Toleration
  pub affinity : Option K.Affinity
  pub pod_annotations : Dict String
  pub service_account_name : String
  pub init_containers : List (Container K)
  pub additional_containers : List (Container K)
  pub additional_volumes : List (Volume K)
  pub additional_volume_mounts : List (VolumeMount K)
