-- ===== src/Controller/Installs/Table.antt =====
-- The objects of a new instance, in the order in which `reconcileResources` of
-- internal/controller/tlndb_controller.go creates them: a table, to compare it with.
use talon_db_k8s_operator.Base.{String, List, [], ◌∷◌, ◌++◌, ◌==◌, if◌then◌else◌}
use talon_db_k8s_operator.Base.Int.{pos, ltb_ℤ}
use talon_db_k8s_operator.Kube.{
  Platform, ConfigMap, ServiceAccount, Role, RoleBinding, StatefulSet, Service, Ingress,
  NetworkPolicy, PodDisruptionBudget, HorizontalPodAutoscaler,
}
use talon_db_k8s_operator.Api.{TlnDb}
use talon_db_k8s_operator.Resources.Common.{replicated}
use talon_db_k8s_operator.Resources.Hash.{hash_string_data}
use talon_db_k8s_operator.Resources.ConfigMap.{build_config_map}
use talon_db_k8s_operator.Resources.StatefulSet.{
  build_stateful_set, build_leader_stateful_set, build_follower_stateful_set,
}
use talon_db_k8s_operator.Resources.Service.{
  build_service, build_write_service, build_read_service, build_headless_service,
}
use talon_db_k8s_operator.Resources.Ingress.{build_ingress}
use talon_db_k8s_operator.Resources.NetworkPolicy.{build_network_policy}
use talon_db_k8s_operator.Resources.Rbac.{build_service_account, build_role, build_role_binding}
use talon_db_k8s_operator.Resources.ServiceMonitor.{build_service_monitor}
use talon_db_k8s_operator.Resources.Pdb.{build_pdb}
use talon_db_k8s_operator.Resources.Hpa.{build_hpa}
use talon_db_k8s_operator.Controller.Environment.{Runtime}
use talon_db_k8s_operator.Controller.Provision.{leader_address}
use talon_db_k8s_operator.Controller.Installs.{made_if}
use talon_db_k8s_operator.Controller.Installs.EmptyServer.{
  Created, new_config_map, new_service_account, new_role, new_role_binding, new_stateful_set,
  new_service, new_ingress, new_network_policy, new_pdb, new_hpa, new_service_monitor, Empty,
}

module _ {K : Platform} {R : Runtime K} {inst : TlnDb K} (E : Empty R inst) where
  abbrev pub owned_config_map : ConfigMap K → Created K
  owned_config_map desired = new_config_map (record desired { meta = E.owned desired.meta })

  abbrev pub owned_service_account : ServiceAccount K → Created K
  owned_service_account desired =
      new_service_account (record desired { meta = E.owned desired.meta })

  abbrev pub owned_role : Role K → Created K
  owned_role desired = new_role (record desired { meta = E.owned desired.meta })

  abbrev pub owned_role_binding : RoleBinding K → Created K
  owned_role_binding desired = new_role_binding (record desired { meta = E.owned desired.meta })

  abbrev pub owned_stateful_set : StatefulSet K → Created K
  owned_stateful_set desired = new_stateful_set (record desired { meta = E.owned desired.meta })

  abbrev pub owned_service : Service K → Created K
  owned_service desired = new_service (record desired { meta = E.owned desired.meta })

  abbrev pub owned_ingress : Ingress K → Created K
  owned_ingress desired = new_ingress (record desired { meta = E.owned desired.meta })

  abbrev pub owned_network_policy : NetworkPolicy K → Created K
  owned_network_policy desired = new_network_policy (record desired { meta = E.owned desired.meta })

  abbrev pub owned_pdb : PodDisruptionBudget K → Created K
  owned_pdb desired = new_pdb (record desired { meta = E.owned desired.meta })

  abbrev pub owned_hpa : HorizontalPodAutoscaler K → Created K
  owned_hpa desired = new_hpa (record desired { meta = E.owned desired.meta })

  abbrev pub rbac_made : List (Created K)
  rbac_made = made_if (inst.spec.service_account_name == "") (
      owned_service_account (build_service_account inst)
      ∷ owned_role (build_role inst)
      ∷ owned_role_binding (build_role_binding inst)
      ∷ [])

  abbrev pub config_made : List (Created K)
  config_made = owned_config_map (build_config_map inst) ∷ []

  abbrev pub config_hash : String
  config_hash = hash_string_data K (build_config_map inst).entries

  abbrev pub headless_made : List (Created K)
  headless_made = owned_service (build_headless_service inst) ∷ []

  abbrev pub followers_made : List (Created K)
  followers_made =
      let replication = inst.spec.replication in
      made_if (ltb_ℤ (pos 0) replication.read_replicas) (
        owned_stateful_set (
          build_follower_stateful_set inst config_hash (leader_address inst)
            replication.read_replicas replication.oplog_retention)
        ∷ [])

  abbrev pub replicated_made : List (Created K)
  replicated_made =
      owned_stateful_set
        (build_leader_stateful_set inst config_hash inst.spec.replication.oplog_retention)
      ∷ (followers_made
          ++ (owned_service (build_write_service inst)
              ∷ owned_service (build_read_service inst)
              ∷ []))

  abbrev pub standalone_made : List (Created K)
  standalone_made =
      owned_stateful_set (build_stateful_set inst config_hash)
      ∷ owned_service (build_service inst)
      ∷ []

  abbrev pub workload_made : List (Created K)
  workload_made = if replicated inst then replicated_made else standalone_made

  abbrev pub ingress_made : List (Created K)
  ingress_made =
      made_if inst.spec.networking.ingress.enabled (owned_ingress (build_ingress inst) ∷ [])

  abbrev pub network_policy_made : List (Created K)
  network_policy_made =
      made_if inst.spec.networking.network_policy.enabled
        (owned_network_policy (build_network_policy inst) ∷ [])

  abbrev pub monitor_made : List (Created K)
  monitor_made =
      made_if inst.spec.observability.metrics.service_monitor.enabled
        (new_service_monitor (E.owned_value (build_service_monitor inst)) ∷ [])

  abbrev pub pdb_made : List (Created K)
  pdb_made =
      made_if inst.spec.availability.pod_disruption_budget.enabled (owned_pdb (build_pdb inst) ∷ [])

  abbrev pub hpa_made : List (Created K)
  hpa_made =
      made_if inst.spec.availability.horizontal_pod_autoscaler.enabled
        (owned_hpa (build_hpa inst) ∷ [])

  unfoldable pub all_made : List (Created K)
  all_made =
      rbac_made
      ++ (config_made
          ++ (headless_made
              ++ (workload_made
                  ++ (ingress_made
                      ++ (network_policy_made ++ (monitor_made ++ (pdb_made ++ hpa_made)))))))
