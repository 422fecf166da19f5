-- ===== src/Kube/Pod.antt =====
-- The fields of containers, volumes and StatefulSets that the operator sets or reads.
use talon_db_k8s_operator.Base.{ℕ, String, Bool, Option, List}
use talon_db_k8s_operator.Base.Int.{ℤ}
use talon_db_k8s_operator.Base.Dict.{Dict}
use talon_db_k8s_operator.Kube.External.{Platform}
use talon_db_k8s_operator.Kube.Meta.{ObjectMeta, IntOrString}

pub record EnvVar (K : Platform) : Type 0 where
  pub name : String
  pub value : String
  pub value_from : Option K.EnvVarSource

pub record ContainerPort : Type 0 where
  pub name : String
  pub container_port : ℤ
  pub protocol : String

pub record VolumeMount (K : Platform) : Type 0 where
  pub name : String
  pub mount_path : String
  pub read_only : Bool
  pub other : Option K.VolumeMountRest

pub record HttpGetAction : Type 0 where
  pub path : String
  pub port : IntOrString

pub record Probe : Type 0 where
  pub http_get : HttpGetAction
  pub initial_delay_seconds : ℤ
  pub period_seconds : ℤ
  pub timeout_seconds : ℤ
  pub failure_threshold : ℤ

pub record SecurityContext (K : Platform) : Type 0 where
  pub run_as_non_root : Option Bool
  pub allow_privilege_escalation : Option Bool
  pub read_only_root_filesystem : Option Bool
  pub drop_capabilities : List String
  pub other : Option K.SecurityRest

pub record PodSecurityContext (K : Platform) : Type 0 where
  pub run_as_non_root : Option Bool
  pub fs_group : Option ℤ
  pub seccomp_profile_type : Option String
  pub other : Option K.PodSecurityRest

pub record Container (K : Platform) : Type 0 where
  pub name : String
  pub image : String
  pub image_pull_policy : String
  pub args : List String
  pub ports : List ContainerPort
  pub env : List (EnvVar K)
  pub env_from : List K.EnvFromSource
  pub resources : K.ResourceRequirements
  pub volume_mounts : List (VolumeMount K)
  pub security_context : Option (SecurityContext K)
  pub liveness_probe : Option Probe
  pub readiness_probe : Option Probe
  pub startup_probe : Option Probe
  pub other : Option K.ContainerRest

pub data VolumeSource (K : Platform) : Type 0 where
  config_map : (name : String) → (default_mode : ℕ) → VolumeSource K
  empty_dir : VolumeSource K
  claim : (name : String) → VolumeSource K
  other_source : K.OtherSource → VolumeSource K

pub record Volume (K : Platform) : Type 0 where
  pub name : String
  pub source : VolumeSource K

pub record PersistentVolumeClaim (K : Platform) : Type 0 where
  pub meta : ObjectMeta K
  pub access_modes : List String
  pub requests : Dict K.Quantity
  pub storage_class_name : Option String

pub record PodSpec (K : Platform) : Type 0 where
  pub service_account_name : String
  pub security_context : PodSecurityContext K
  pub image_pull_secrets : List String
  pub node_selector : Dict String
  pub tolerations : List K.Toleration
  pub affinity : Option K.Affinity
  pub init_containers : List (Container K)
  pub containers : List (Container K)
  pub volumes : List (Volume K)

pub record PodTemplate (K : Platform) : Type 0 where
  pub labels : Dict String
  pub annotations : Dict String
  pub spec : PodSpec K

pub record StatefulSetSpec (K : Platform) : Type 0 where
  pub replicas : Option ℤ
  pub service_name : String
  pub pod_management_policy : String
  pub selector : Dict String
  pub template : PodTemplate K
  pub volume_claim_templates : List (PersistentVolumeClaim K)

pub record StatefulSetStatus : Type 0 where
  pub observed_generation : ℤ
  pub ready_replicas : ℤ

pub record StatefulSet (K : Platform) : Type 0 where
  pub meta : ObjectMeta K
  pub spec : StatefulSetSpec K
  pub status : StatefulSetStatus
