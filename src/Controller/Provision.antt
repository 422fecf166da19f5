-- ===== src/Controller/Provision.antt =====
-- internal/controller/tlndb_controller.go: `reconcileResources`, a function for each block.
-- A block returns the names that the source appends to `managed`.
use talon_db_k8s_operator.Base.{
  String, ◌<>◌, true, false, some, List, [], ◌∷◌, ◌++◌, ◌==◌, if◌then◌else◌,
}
use talon_db_k8s_operator.Base.Int.{pos, ltb_ℤ}
use talon_db_k8s_operator.Base.Decimal.{format_int}
use talon_db_k8s_operator.Base.Lines.{quote}
use talon_db_k8s_operator.Kube.{Platform, ConfigMap}
use talon_db_k8s_operator.Api.{
  condition_config_map_ready, condition_service_ready, condition_rbac_ready,
  condition_network_policy_ready, condition_service_monitor_ready, TlnDb,
}
use talon_db_k8s_operator.Resources.Common.{
  default_grpc_port, resource_name, config_map_name, follower_stateful_set_name, replicated,
  image_ref, port_from_addr,
}
use talon_db_k8s_operator.Resources.Hash.{sort_strings, hash_string_data}
use talon_db_k8s_operator.Resources.ConfigMap.{build_config_map}
use talon_db_k8s_operator.Resources.StatefulSet.{
  build_stateful_set, build_leader_stateful_set, build_follower_stateful_set,
}
use talon_db_k8s_operator.Resources.Service.{
  build_service, build_write_service, build_read_service, build_headless_service,
}
use talon_db_k8s_operator.Resources.Ingress.{build_ingress}
use talon_db_k8s_operator.Resources.NetworkPolicy.{build_network_policy}
use talon_db_k8s_operator.Resources.Rbac.{build_service_account, build_role, build_role_binding}
use talon_db_k8s_operator.Resources.ServiceMonitor.{build_service_monitor}
use talon_db_k8s_operator.Resources.Pdb.{build_pdb}
use talon_db_k8s_operator.Resources.Hpa.{build_hpa}
use talon_db_k8s_operator.Controller.Exec.{
  not_found, other, Error, Result, ok, err, pure, raise, gets, attempt, when_found, wrapping,
  ignore_conflict, ◌>>=◌, ◌>>◌,
}
use talon_db_k8s_operator.Controller.Environment.{Runtime}
use talon_db_k8s_operator.Controller.Calls.{Reconcile, the_instance, call}
use talon_db_k8s_operator.Controller.Apply.{
  create_or_update_config_map, create_or_update_service_account, create_or_update_role,
  create_or_update_role_binding, create_or_update_stateful_set, delete_stateful_set_if_exists,
  create_or_update_service, create_or_update_ingress, create_or_update_network_policy,
  create_or_update_service_monitor, create_or_update_pdb, create_or_update_hpa,
}
use talon_db_k8s_operator.Controller.Status.{patch_status, set_condition}

-- `http.svc.cluster.local:%d` of the write Service
unfoldable pub leader_address : {K : Platform} → TlnDb K → String
unfolding port_from_addr format_int
leader_address inst =
    let port = port_from_addr inst.spec.config.tcp default_grpc_port in
    resource_name inst <> "." <> inst.meta.namespace <> ".svc.cluster.local:" <> format_int port

module _ {K : Platform} (R : Runtime K) where
  unfoldable pub reconcile_rbac : Reconcile R (List String)
  reconcile_rbac = do
    inst ← the_instance R
    if inst.spec.service_account_name == ""
        then (do
          wrapping "ServiceAccount"
              (create_or_update_service_account R (build_service_account inst))
          wrapping "role" (create_or_update_role R (build_role inst))
          wrapping "RoleBinding" (create_or_update_role_binding R (build_role_binding inst))
          set_condition R condition_rbac_ready true "RBACReady" "RBAC reconciled"
          let name = resource_name inst
          pure (("ServiceAccount/" <> name) ∷ ("Role/" <> name) ∷ ("RoleBinding/" <> name) ∷ []))
        else pure []

  abbrev nil_dereference : Error
  nil_dereference = record {
    reason = other;
    message = "runtime error: invalid memory address or nil pointer dereference";
  }

  -- A missing external ConfigMap is reported in a condition before the error is returned. The error
  -- names the one that the instance refers to after the patch of the condition; a nil pointer there
  -- is a panic, which controller-runtime turns into an error.
  unfoldable pub external_config_error : String → Error → Reconcile R String
  external_config_error name e = elim e.reason [
    | not_found ↦ do
      let quoted = quote K.is_print name
      set_condition R condition_config_map_ready false "ExternalConfigMapNotFound"
          ("referenced ConfigMap " <> quoted <> " not found")
      answered ← the_instance R
      when_found answered.spec.config_from (raise nil_dereference) (λ again. raise (record e {
        message = "external ConfigMap " <> quote K.is_print again <> " not found: " <> e.message;
      }))
    | _ ↦ raise e
  ]

  abbrev pub external_hash : String → Result (ConfigMap K) → Reconcile R String
  external_hash name (err e) = external_config_error name e
  external_hash name (ok external) = do
    set_condition R condition_config_map_ready true "ExternalConfigMapFound"
        "External ConfigMap found"
    pure (hash_string_data K external.entries)

  -- The hash of the configuration, and the names for `managed`. A rendered ConfigMap is hashed as it
  -- was built; a create may have written the server's answer into it.
  unfoldable pub reconcile_config : Reconcile R (String × List String)
  unfolding external_config_error
  reconcile_config = do
    inst ← the_instance R
    let cm = build_config_map inst
    let rendered = do
      wrapping "ConfigMap" (create_or_update_config_map R cm)
      set_condition R condition_config_map_ready true "ConfigMapReady" "ConfigMap reconciled"
      pure (hash_string_data K cm.entries, ("ConfigMap/" <> config_map_name inst) ∷ [])
    when_found inst.spec.config_from rendered (λ name. do
      answer ←
          attempt
            (call R (R.config_maps.get (record { namespace = inst.meta.namespace; name = name })))
      hash ← external_hash name answer
      pure (hash, []))

  unfoldable pub reconcile_headless : Reconcile R (List String)
  reconcile_headless = do
    inst ← the_instance R
    let headless = build_headless_service inst
    wrapping "headless Service" (create_or_update_service R headless)
    pure (("Service/" <> headless.meta.name) ∷ [])

  unfoldable pub reconcile_followers : String → Reconcile R (List String)
  reconcile_followers config_hash = do
    inst ← the_instance R
    let replication = inst.spec.replication
    let followers =
        build_follower_stateful_set inst config_hash (leader_address inst) replication.read_replicas
          replication.oplog_retention
    if ltb_ℤ (pos 0) replication.read_replicas
        then (do
          wrapping "follower StatefulSet" (create_or_update_stateful_set R followers)
          pure (("StatefulSet/" <> followers.meta.name) ∷ []))
        else (do
          wrapping "prune follower StatefulSet" (
              delete_stateful_set_if_exists R inst.meta.namespace (follower_stateful_set_name inst))
          pure [])

  unfoldable pub reconcile_replicated : String → Reconcile R (List String)
  unfolding reconcile_followers
  reconcile_replicated config_hash = do
    inst ← the_instance R
    let leader = build_leader_stateful_set inst config_hash inst.spec.replication.oplog_retention
    wrapping "leader StatefulSet" (create_or_update_stateful_set R leader)
    followers ← reconcile_followers config_hash
    inst' ← the_instance R
    let write = build_write_service inst'
    wrapping "write Service" (create_or_update_service R write)
    let read = build_read_service inst'
    wrapping "read Service" (create_or_update_service R read)
    set_condition R condition_service_ready true "ServiceReady" "Services reconciled"
    pure (
        ("StatefulSet/" <> leader.meta.name)
        ∷ (followers ++ ("Service/" <> write.meta.name) ∷ ("Service/" <> read.meta.name) ∷ []))

  unfoldable pub reconcile_standalone : String → Reconcile R (List String)
  reconcile_standalone config_hash = do
    inst ← the_instance R
    let sts = build_stateful_set inst config_hash
    wrapping "StatefulSet" (create_or_update_stateful_set R sts)
    let svc = build_service inst
    wrapping "service" (create_or_update_service R svc)
    set_condition R condition_service_ready true "ServiceReady" "Service reconciled"
    pure (("StatefulSet/" <> sts.meta.name) ∷ ("Service/" <> svc.meta.name) ∷ [])

  unfoldable pub reconcile_workload : String → Reconcile R (List String)
  unfolding reconcile_replicated reconcile_standalone
  reconcile_workload config_hash = do
    inst ← the_instance R
    if replicated inst then reconcile_replicated config_hash else reconcile_standalone config_hash

  unfoldable pub reconcile_ingress : Reconcile R (List String)
  reconcile_ingress = do
    inst ← the_instance R
    let ingress = build_ingress inst
    if inst.spec.networking.ingress.enabled
        then (do
          wrapping "ingress" (create_or_update_ingress R ingress)
          pure (("Ingress/" <> ingress.meta.name) ∷ []))
        else pure []

  unfoldable pub reconcile_network_policy : Reconcile R (List String)
  reconcile_network_policy = do
    inst ← the_instance R
    let policy = build_network_policy inst
    if inst.spec.networking.network_policy.enabled
        then (do
          wrapping "NetworkPolicy" (create_or_update_network_policy R policy)
          set_condition R condition_network_policy_ready true "NetworkPolicyReady"
              "NetworkPolicy reconciled"
          pure (("NetworkPolicy/" <> policy.meta.name) ∷ []))
        else pure []

  -- An error here sets a condition and is not returned.
  abbrev pub monitor_result : String → Result Unit → Reconcile R (List String)
  monitor_result name (err e) = do
    set_condition R condition_service_monitor_ready false "ServiceMonitorCRDMissing" e.message
    pure []
  monitor_result name (ok _) = do
    set_condition R condition_service_monitor_ready true "ServiceMonitorReady"
        "ServiceMonitor reconciled"
    pure (("ServiceMonitor/" <> name) ∷ [])

  unfoldable pub reconcile_service_monitor : Reconcile R (List String)
  reconcile_service_monitor = do
    inst ← the_instance R
    let monitor = build_service_monitor inst
    if inst.spec.observability.metrics.service_monitor.enabled
        then (do
          answer ← attempt (create_or_update_service_monitor R monitor)
          monitor_result (R.value_name monitor) answer)
        else pure []

  unfoldable pub reconcile_pdb : Reconcile R (List String)
  reconcile_pdb = do
    inst ← the_instance R
    let pdb = build_pdb inst
    if inst.spec.availability.pod_disruption_budget.enabled
        then (do
          wrapping "PodDisruptionBudget" (create_or_update_pdb R pdb)
          pure (("PodDisruptionBudget/" <> pdb.meta.name) ∷ []))
        else pure []

  unfoldable pub reconcile_hpa : Reconcile R (List String)
  reconcile_hpa = do
    inst ← the_instance R
    let hpa = build_hpa inst
    if inst.spec.availability.horizontal_pod_autoscaler.enabled
        then (do
          wrapping "HorizontalPodAutoscaler" (create_or_update_hpa R hpa)
          pure (("HorizontalPodAutoscaler/" <> hpa.meta.name) ∷ []))
        else pure []

  -- The sorted names, the image and the generation in the status.
  unfoldable pub persist_managed : List String → Reconcile R Unit
  persist_managed managed = do
    now ← gets (λ s. R.now s.world)
    ignore_conflict (
        patch_status R λ inst. record inst {
          status = record inst.status {
            managed_resources = sort_strings managed;
            current_image = image_ref inst.spec.image;
            last_update_time = some now;
            observed_generation = inst.meta.generation;
          };
        })

  unfoldable pub reconcile_resources : Reconcile R Unit
  reconcile_resources = do
    rbac ← reconcile_rbac
    (hash, config) ← reconcile_config
    headless ← reconcile_headless
    workload ← reconcile_workload hash
    ingress ← reconcile_ingress
    policy ← reconcile_network_policy
    monitor ← reconcile_service_monitor
    pdb ← reconcile_pdb
    hpa ← reconcile_hpa
    persist_managed (
        rbac
        ++ (config
            ++ (headless ++ (workload ++ (ingress ++ (policy ++ (monitor ++ (pdb ++ hpa))))))))
