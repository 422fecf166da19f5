-- ===== src/Controller/Apply.antt =====
-- internal/controller/tlndb_controller.go: the create-or-update helpers, one for each kind.
use talon_db_k8s_operator.Base.{
  String, ◌<>◌, Bool, true, false, ◌&&◌, not, none, some, List, ◌∷◌, ◌==◌, if◌then◌else◌,
}
use talon_db_k8s_operator.Base.Dict.{Dict, lookup}
use talon_db_k8s_operator.Kube.{
  Platform, ObjectMeta, Container, StatefulSet, Service, Ingress, NetworkPolicy, ConfigMap,
  ServiceAccount, Role, RoleBinding, PodDisruptionBudget, HorizontalPodAutoscaler, Value,
}
use talon_db_k8s_operator.Resources.Common.{config_hash_annotation}
use talon_db_k8s_operator.Controller.Exec.{
  ok, err, Result, pure, lift, ignore_conflict, ignore_not_found, when_found, ◌>>=◌, ◌>>◌,
}
use talon_db_k8s_operator.Controller.Environment.{Key, KindClient, Runtime}
use talon_db_k8s_operator.Controller.Calls.{Reconcile, the_instance, emit, call, find}

abbrev pub key_of : {K : Platform} → ObjectMeta K → Key
key_of meta = record { namespace = meta.namespace; name = meta.name }

-- A missing annotation reads as the empty text.
abbrev pub hash_annotation : Dict String → String
hash_annotation annotations = elim (lookup config_hash_annotation annotations) [
  | none ↦ ""
  | some hash ↦ hash
]

-- Whether the first containers of both lists differ in their image.
abbrev pub images_differ : {K : Platform} → List (Container K) → List (Container K) → Bool
images_differ (old ∷ _) (new ∷ _) = not (old.image == new.image)
images_differ _ _ = false

-- A failure to set the owner of a ServiceMonitor is only logged.
abbrev owned_or : Value → Result Value → Value
owned_or desired (ok owned) = owned
owned_or desired (err _) = desired

module _ {K : Platform} (R : Runtime K) where
  unfoldable pub stateful_set_needs_update : StatefulSet K → StatefulSet K → Bool
  unfolding lookup
  stateful_set_needs_update existing desired =
      let old = existing.spec.template in
      let new = desired.spec.template in
      if R.equal_replicas existing.spec.replicas desired.spec.replicas
      then if hash_annotation old.annotations == hash_annotation new.annotations
        then images_differ old.spec.containers new.spec.containers
        else true
      else true

  -- The first statement of each helper: the desired object's metadata with its owner.
  abbrev owned : ObjectMeta K → Reconcile R (ObjectMeta K)
  owned meta = do inst ← the_instance R; lift (R.set_controller_reference inst meta)

  -- `Get`, then `Create` where it is not found, and else the change of the existing object.
  abbrev create_or :
      {T : Type 0}
      → KindClient R.World T
      → Key
      → Reconcile R Unit
      → (T → Reconcile R Unit)
      → Reconcile R Unit
  create_or client key create change = do
    existing ← find R client key
    when_found existing create change

  unfoldable pub create_or_update_config_map : ConfigMap K → Reconcile R Unit
  create_or_update_config_map desired = do
    meta ← owned desired.meta
    create_or R.config_maps (key_of meta)
        (call R (R.config_maps.create (record desired { meta = meta })))
        (λ existing.
          if R.equal_entries existing.entries desired.entries
          then pure tt
          else call R (
              R.config_maps.update (record {
                meta = record existing.meta { labels = meta.labels };
                entries = desired.entries;
              })))

  unfoldable pub create_or_update_service_account : ServiceAccount K → Reconcile R Unit
  create_or_update_service_account desired = do
    meta ← owned desired.meta
    create_or R.service_accounts (key_of meta)
        (call R (R.service_accounts.create (record desired { meta = meta })))
        (λ existing. call R (
          R.service_accounts.update
            (record existing { meta = record existing.meta { labels = meta.labels } })))

  unfoldable pub create_or_update_role : Role K → Reconcile R Unit
  create_or_update_role desired = do
    meta ← owned desired.meta
    create_or R.roles (key_of meta) (call R (R.roles.create (record desired { meta = meta })))
        (λ existing.
          if R.equal_rules existing.rules desired.rules
          then pure tt
          else call R (
              R.roles.update (record {
                meta = record existing.meta { labels = meta.labels };
                rules = desired.rules;
              })))

  unfoldable pub create_or_update_role_binding : RoleBinding K → Reconcile R Unit
  create_or_update_role_binding desired = do
    meta ← owned desired.meta
    create_or R.role_bindings (key_of meta)
        (call R (R.role_bindings.create (record desired { meta = meta })))
        (λ existing.
          let same =
            R.equal_role_ref existing.role_ref desired.role_ref
            && R.equal_subjects existing.subjects desired.subjects in
          if same
          then pure tt
          else call R (
              R.role_bindings.update (record {
                meta = record existing.meta { labels = meta.labels };
                role_ref = desired.role_ref;
                subjects = desired.subjects;
              })))

  -- The existing set with the desired replicas, template and labels.
  abbrev pub updated_stateful_set : StatefulSet K → StatefulSet K → StatefulSet K
  updated_stateful_set existing desired = record existing {
    meta = record existing.meta { labels = desired.meta.labels };
    spec = record existing.spec {
      replicas = desired.spec.replicas;
      template = desired.spec.template;
    };
  }

  unfoldable pub create_or_update_stateful_set : StatefulSet K → Reconcile R Unit
  unfolding stateful_set_needs_update
  create_or_update_stateful_set desired = do
    meta ← owned desired.meta
    create_or R.stateful_sets (key_of meta)
        (do
          emit R "Normal" "Created" ("Created StatefulSet " <> meta.name)
          call R (R.stateful_sets.create (record desired { meta = meta })))
        (λ existing.
          if stateful_set_needs_update existing desired
          then (do
            emit R "Normal" "Updated" ("Updated StatefulSet " <> meta.name)
            call R (
                R.stateful_sets.update
                  (updated_stateful_set existing (record desired { meta = meta }))))
          else pure tt)

  unfoldable pub delete_stateful_set_if_exists : String → String → Reconcile R Unit
  delete_stateful_set_if_exists namespace name = do
    existing ← find R R.stateful_sets (record { namespace = namespace; name = name })
    when_found existing (pure tt) (λ old. ignore_not_found (call R (R.stateful_sets.delete old)))

  unfoldable pub create_or_update_service : Service K → Reconcile R Unit
  create_or_update_service desired = do
    meta ← owned desired.meta
    create_or R.services (key_of meta) (call R (R.services.create (record desired { meta = meta })))
        (λ existing. call R (
          R.services.update (record {
            meta = record existing.meta { labels = meta.labels; annotations = meta.annotations };
            spec = record desired.spec { cluster_ip = existing.spec.cluster_ip };
          })))

  unfoldable pub create_or_update_ingress : Ingress K → Reconcile R Unit
  create_or_update_ingress desired = do
    meta ← owned desired.meta
    create_or R.ingresses (key_of meta)
        (call R (R.ingresses.create (record desired { meta = meta })))
        (λ existing. call R (
          R.ingresses.update (record {
            meta = record existing.meta { labels = meta.labels; annotations = meta.annotations };
            spec = desired.spec;
          })))

  unfoldable pub create_or_update_network_policy : NetworkPolicy K → Reconcile R Unit
  create_or_update_network_policy desired = do
    meta ← owned desired.meta
    create_or R.network_policies (key_of meta)
        (call R (R.network_policies.create (record desired { meta = meta })))
        (λ existing. call R (
          R.network_policies.update
            (record { meta = record existing.meta { labels = meta.labels }; spec = desired.spec })))

  unfoldable pub create_or_update_service_monitor : Value → Reconcile R Unit
  create_or_update_service_monitor desired = do
    inst ← the_instance R
    let monitor = owned_or desired (R.set_value_controller_reference inst desired)
    create_or R.service_monitors
        (record { namespace = R.value_namespace monitor; name = R.value_name monitor })
        (call R (R.service_monitors.create monitor))
        (λ existing. call R (
          R.service_monitors.update
            (R.set_value_resource_version monitor (R.value_resource_version existing))))

  unfoldable pub create_or_update_pdb : PodDisruptionBudget K → Reconcile R Unit
  create_or_update_pdb desired = do
    meta ← owned desired.meta
    create_or R.pod_disruption_budgets (key_of meta)
        (call R (R.pod_disruption_budgets.create (record desired { meta = meta })))
        (λ existing. ignore_conflict (
          call R (
            R.pod_disruption_budgets.update (record {
              meta = record existing.meta { labels = meta.labels };
              spec = desired.spec;
            }))))

  unfoldable pub create_or_update_hpa : HorizontalPodAutoscaler K → Reconcile R Unit
  create_or_update_hpa desired = do
    meta ← owned desired.meta
    create_or R.autoscalers (key_of meta)
        (call R (R.autoscalers.create (record desired { meta = meta })))
        (λ existing. ignore_conflict (
          call R (
            R.autoscalers.update (record {
              meta = record existing.meta { labels = meta.labels };
              spec = desired.spec;
            }))))
