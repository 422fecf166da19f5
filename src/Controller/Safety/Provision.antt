-- ===== src/Controller/Safety/Provision.antt =====
-- Status writes and the blocks of `reconcileResources` make safe calls only.
use talon_db_k8s_operator.Base.{String, Bool, List}
use talon_db_k8s_operator.Kube.{Platform, ConfigMap}
use talon_db_k8s_operator.Api.{TlnDb}
use talon_db_k8s_operator.Controller.Exec.{Result, ok, err, Reason, not_found, conflict, other}
use talon_db_k8s_operator.Controller.Environment.{Runtime}
use talon_db_k8s_operator.Controller.Keeps.{Keeps, keeps_rules}
use talon_db_k8s_operator.Controller.Status.{patch_status, set_phase, set_condition, sync_status}
use talon_db_k8s_operator.Controller.Provision.{
  reconcile_rbac, external_config_error, external_hash, reconcile_config, reconcile_headless,
  reconcile_followers, reconcile_replicated, reconcile_standalone, reconcile_workload,
  reconcile_ingress, reconcile_network_policy, monitor_result, reconcile_service_monitor,
  reconcile_pdb, reconcile_hpa, persist_managed, reconcile_resources,
}
use talon_db_k8s_operator.Controller.Safety.Calls.{SafeCalls}
use talon_db_k8s_operator.Controller.Safety.Apply.{
  create_or_update_config_map-Keeps, create_or_update_service_account-Keeps,
  create_or_update_role-Keeps, create_or_update_role_binding-Keeps,
  create_or_update_stateful_set-Keeps, create_or_update_service-Keeps,
  create_or_update_ingress-Keeps, create_or_update_network_policy-Keeps,
  create_or_update_service_monitor-Keeps, create_or_update_pdb-Keeps, create_or_update_hpa-Keeps,
  delete_stateful_set_if_exists-Keeps,
}

module _ {K : Platform} {R : Runtime K} {P : R.World → Type 0} (safe : SafeCalls R P) where
  patch_status-Keeps : (change : TlnDb K → TlnDb K) → Keeps R P (patch_status R change)
  patch_status-Keeps change = search (keeps_rules, safe.instances.patch_status) depth 7

  pub set_phase-Keeps : (phase : String) → Keeps R P (set_phase R phase)
  unfolding set_phase
  set_phase-Keeps phase = search (keeps_rules, patch_status-Keeps) depth 7

  set_condition-Keeps :
      (condition_type : String) (status : Bool) (reason message : String)
      → Keeps R P (set_condition R condition_type status reason message)
  unfolding set_condition
  set_condition-Keeps condition_type status reason message =
      search (keeps_rules, patch_status-Keeps) depth 7

  pub sync_status-Keeps : Keeps R P (sync_status R)
  unfolding sync_status
  sync_status-Keeps = search (keeps_rules, patch_status-Keeps, safe.stateful_sets.get) depth 9

  reconcile_rbac-Keeps : Keeps R P (reconcile_rbac R)
  unfolding reconcile_rbac
  reconcile_rbac-Keeps =
      search
        (
          keeps_rules,
          set_condition-Keeps,
          create_or_update_service_account-Keeps safe,
          create_or_update_role-Keeps safe,
          create_or_update_role_binding-Keeps safe,
        )
        depth 12

  external_config_error-Keeps :
      (name message : String) (reason : Reason)
      → Keeps R P (external_config_error R name (record { reason = reason; message = message }))
  unfolding external_config_error
  external_config_error-Keeps name message not_found =
      search (keeps_rules, set_condition-Keeps) depth 7
  external_config_error-Keeps name message conflict = search keeps_rules
  external_config_error-Keeps name message other = search keeps_rules

  external_hash-Keeps :
      (name : String) (answer : Result (ConfigMap K)) → Keeps R P (external_hash R name answer)
  external_hash-Keeps name (ok external) = search (keeps_rules, set_condition-Keeps) depth 7
  external_hash-Keeps name (err e) = external_config_error-Keeps name e.message e.reason

  reconcile_config-Keeps : Keeps R P (reconcile_config R)
  unfolding reconcile_config
  reconcile_config-Keeps =
      search
        (
          keeps_rules,
          set_condition-Keeps,
          external_hash-Keeps,
          create_or_update_config_map-Keeps safe,
          safe.config_maps.get,
        )
        depth 12

  reconcile_headless-Keeps : Keeps R P (reconcile_headless R)
  unfolding reconcile_headless
  reconcile_headless-Keeps = search (keeps_rules, create_or_update_service-Keeps safe) depth 9

  reconcile_followers-Keeps : (hash : String) → Keeps R P (reconcile_followers R hash)
  unfolding reconcile_followers
  reconcile_followers-Keeps hash =
      search
        (
          keeps_rules,
          create_or_update_stateful_set-Keeps safe,
          delete_stateful_set_if_exists-Keeps safe,
        )
        depth 9

  reconcile_replicated-Keeps : (hash : String) → Keeps R P (reconcile_replicated R hash)
  unfolding reconcile_replicated
  reconcile_replicated-Keeps hash =
      search
        (
          keeps_rules,
          set_condition-Keeps,
          create_or_update_stateful_set-Keeps safe,
          create_or_update_service-Keeps safe,
          reconcile_followers-Keeps,
        )
        depth 14

  reconcile_standalone-Keeps : (hash : String) → Keeps R P (reconcile_standalone R hash)
  unfolding reconcile_standalone
  reconcile_standalone-Keeps hash =
      search
        (
          keeps_rules,
          set_condition-Keeps,
          create_or_update_stateful_set-Keeps safe,
          create_or_update_service-Keeps safe,
        )
        depth 12

  reconcile_workload-Keeps : (hash : String) → Keeps R P (reconcile_workload R hash)
  unfolding reconcile_workload
  reconcile_workload-Keeps hash =
      search (keeps_rules, reconcile_replicated-Keeps, reconcile_standalone-Keeps) depth 7

  reconcile_ingress-Keeps : Keeps R P (reconcile_ingress R)
  unfolding reconcile_ingress
  reconcile_ingress-Keeps = search (keeps_rules, create_or_update_ingress-Keeps safe) depth 9

  reconcile_network_policy-Keeps : Keeps R P (reconcile_network_policy R)
  unfolding reconcile_network_policy
  reconcile_network_policy-Keeps =
      search (keeps_rules, set_condition-Keeps, create_or_update_network_policy-Keeps safe) depth 9

  monitor_result-Keeps :
      (name : String) (answer : Result Unit) → Keeps R P (monitor_result R name answer)
  monitor_result-Keeps name (ok _) = search (keeps_rules, set_condition-Keeps) depth 7
  monitor_result-Keeps name (err e) = search (keeps_rules, set_condition-Keeps) depth 7

  reconcile_service_monitor-Keeps : Keeps R P (reconcile_service_monitor R)
  unfolding reconcile_service_monitor
  reconcile_service_monitor-Keeps =
      search (keeps_rules, monitor_result-Keeps, create_or_update_service_monitor-Keeps safe) depth
        9

  reconcile_pdb-Keeps : Keeps R P (reconcile_pdb R)
  unfolding reconcile_pdb
  reconcile_pdb-Keeps = search (keeps_rules, create_or_update_pdb-Keeps safe) depth 9

  reconcile_hpa-Keeps : Keeps R P (reconcile_hpa R)
  unfolding reconcile_hpa
  reconcile_hpa-Keeps = search (keeps_rules, create_or_update_hpa-Keeps safe) depth 9

  persist_managed-Keeps : (managed : List String) → Keeps R P (persist_managed R managed)
  unfolding persist_managed
  persist_managed-Keeps managed = search (keeps_rules, patch_status-Keeps) depth 7

  pub reconcile_resources-Keeps : Keeps R P (reconcile_resources R)
  unfolding reconcile_resources
  reconcile_resources-Keeps =
      search
        (
          keeps_rules, reconcile_rbac-Keeps, reconcile_config-Keeps, reconcile_headless-Keeps,
          reconcile_workload-Keeps, reconcile_ingress-Keeps, reconcile_network_policy-Keeps,
          reconcile_service_monitor-Keeps, reconcile_pdb-Keeps, reconcile_hpa-Keeps,
          persist_managed-Keeps,
        )
        depth 16
