-- ===== src/Api/Status.antt =====
-- api/v1alpha1/tlndb_types.go: the observed state, the custom resource, and the names of phases
-- and conditions.
use talon_db_k8s_operator.Base.{ℕ, String, Bool, Option, List}
use talon_db_k8s_operator.Base.Int.{ℤ}
use talon_db_k8s_operator.Kube.{Platform, ObjectMeta}
use talon_db_k8s_operator.Api.Spec.{TlnDbSpec}

abbrev pub phase_pending : String
phase_pending = "Pending"

abbrev pub phase_provisioning : String
phase_provisioning = "Provisioning"

abbrev pub phase_running : String
phase_running = "Running"

abbrev pub phase_degraded : String
phase_degraded = "Degraded"

abbrev pub phase_failed : String
phase_failed = "Failed"

abbrev pub phase_terminating : String
phase_terminating = "Terminating"

abbrev pub condition_stateful_set_ready : String
condition_stateful_set_ready = "StatefulSetReady"

abbrev pub condition_config_map_ready : String
condition_config_map_ready = "ConfigMapReady"

abbrev pub condition_service_ready : String
condition_service_ready = "ServiceReady"

abbrev pub condition_rbac_ready : String
condition_rbac_ready = "RBACReady"

abbrev pub condition_network_policy_ready : String
condition_network_policy_ready = "NetworkPolicyReady"

abbrev pub condition_service_monitor_ready : String
condition_service_monitor_ready = "ServiceMonitorReady"

-- `metav1.Condition`; the status is true or false, the operator writes no "Unknown".
pub record Condition : Type 0 where
  pub condition_type : String
  pub status : Bool
  pub reason : String
  pub message : String
  pub observed_generation : ℤ

pub record TlnDbStatus : Type 0 where
  pub phase : String
  pub conditions : List Condition
  pub observed_generation : ℤ
  pub ready_replicas : ℤ
  pub current_image : String
  pub managed_resources : List String
  pub last_update_time : Option ℕ

pub record TlnDb (K : Platform) : Type 0 where
  pub meta : ObjectMeta K
  pub spec : TlnDbSpec K
  pub status : TlnDbStatus
