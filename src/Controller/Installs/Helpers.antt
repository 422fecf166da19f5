-- ===== src/Controller/Installs/Helpers.antt =====
-- internal/controller/tlndb_controller.go: where nothing is found, each create-or-update helper
-- creates its object with the owner set, and a condition or the status is written without a trace
-- in what is created.
use mathlib.Core.List.{append-nil}
use talon_db_k8s_operator.Base.{String, ◌≡◌, refl, sym, ◌∙◌, Bool, List, [], ◌∷◌}
use talon_db_k8s_operator.Kube.{
  Platform, ObjectMeta, StatefulSet, Service, Ingress, NetworkPolicy, ConfigMap, ServiceAccount,
  Role, RoleBinding, PodDisruptionBudget, HorizontalPodAutoscaler, Value,
}
use talon_db_k8s_operator.Api.{TlnDb}
use talon_db_k8s_operator.Controller.Exec.{lift, ◌>>=◌, ignore_conflict, ignore_error}
use talon_db_k8s_operator.Controller.Environment.{Runtime}
use talon_db_k8s_operator.Controller.Calls.{Reconcile, the_instance, steps}
use talon_db_k8s_operator.Controller.Apply.{
  create_or_update_config_map, create_or_update_service_account, create_or_update_role,
  create_or_update_role_binding, create_or_update_stateful_set, create_or_update_service,
  create_or_update_ingress, create_or_update_network_policy, create_or_update_pdb,
  create_or_update_hpa, create_or_update_service_monitor, delete_stateful_set_if_exists,
}
use talon_db_k8s_operator.Controller.Status.{patch_status, set_condition, with_condition}
use talon_db_k8s_operator.Controller.Total.Healthy.{SameAs, same_trans, status_only}
use talon_db_k8s_operator.Controller.Installs.{
  Makes, Any, Makes-bind, Makes-then, Makes-with_instance, Makes-lift, Makes-emit, Makes-create,
  Makes-create_or, Makes-pure,
}
use talon_db_k8s_operator.Controller.Installs.EmptyServer.{
  Created, new_config_map, new_service_account, new_role, new_role_binding, new_stateful_set,
  new_service, new_ingress, new_network_policy, new_pdb, new_hpa, new_service_monitor, Empty,
}

module _ {K : Platform} {R : Runtime K} {inst : TlnDb K} (E : Empty R inst) where
  owned-Makes :
      (meta : ObjectMeta K)
      → meta.namespace ≡ inst.meta.namespace
      → meta.owner_references ≡ []
      → Makes E
          (λ owned. owned ≡ E.owned meta)
          []
          (do i ← the_instance R; lift (R.set_controller_reference i meta))
  owned-Makes meta inside unowned =
      Makes-with_instance λ i same.
        Makes-lift _ (E.owned meta) (E.set_controller_reference i meta same inside unowned)

  pub create_or_update_config_map-Makes :
      (desired : ConfigMap K)
      → desired.meta.namespace ≡ inst.meta.namespace
      → desired.meta.owner_references ≡ []
      → Makes E Any
          (new_config_map (record desired { meta = E.owned desired.meta }) ∷ [])
          (create_or_update_config_map R desired)
  unfolding create_or_update_config_map
  create_or_update_config_map-Makes desired inside unowned =
      Makes-bind (owned-Makes desired.meta inside unowned)
        λ meta e. rw e (Makes-create_or E.config_maps _ _ (Makes-create E.config_maps _))

  pub create_or_update_service_account-Makes :
      (desired : ServiceAccount K)
      → desired.meta.namespace ≡ inst.meta.namespace
      → desired.meta.owner_references ≡ []
      → Makes E Any
          (new_service_account (record desired { meta = E.owned desired.meta }) ∷ [])
          (create_or_update_service_account R desired)
  unfolding create_or_update_service_account
  create_or_update_service_account-Makes desired inside unowned =
      Makes-bind (owned-Makes desired.meta inside unowned)
        λ meta e. rw e (Makes-create_or E.service_accounts _ _ (Makes-create E.service_accounts _))

  pub create_or_update_role-Makes :
      (desired : Role K)
      → desired.meta.namespace ≡ inst.meta.namespace
      → desired.meta.owner_references ≡ []
      → Makes E Any
          (new_role (record desired { meta = E.owned desired.meta }) ∷ [])
          (create_or_update_role R desired)
  unfolding create_or_update_role
  create_or_update_role-Makes desired inside unowned =
      Makes-bind (owned-Makes desired.meta inside unowned)
        λ meta e. rw e (Makes-create_or E.roles _ _ (Makes-create E.roles _))

  pub create_or_update_role_binding-Makes :
      (desired : RoleBinding K)
      → desired.meta.namespace ≡ inst.meta.namespace
      → desired.meta.owner_references ≡ []
      → Makes E Any
          (new_role_binding (record desired { meta = E.owned desired.meta }) ∷ [])
          (create_or_update_role_binding R desired)
  unfolding create_or_update_role_binding
  create_or_update_role_binding-Makes desired inside unowned =
      Makes-bind (owned-Makes desired.meta inside unowned)
        λ meta e. rw e (Makes-create_or E.role_bindings _ _ (Makes-create E.role_bindings _))

  pub create_or_update_stateful_set-Makes :
      (desired : StatefulSet K)
      → desired.meta.namespace ≡ inst.meta.namespace
      → desired.meta.owner_references ≡ []
      → Makes E Any
          (new_stateful_set (record desired { meta = E.owned desired.meta }) ∷ [])
          (create_or_update_stateful_set R desired)
  unfolding create_or_update_stateful_set
  create_or_update_stateful_set-Makes desired inside unowned =
      Makes-bind (owned-Makes desired.meta inside unowned) λ meta e. rw e (
        Makes-create_or E.stateful_sets _ _
          (Makes-then (Makes-emit _ _ _) λ _. Makes-create E.stateful_sets _))

  pub create_or_update_service-Makes :
      (desired : Service K)
      → desired.meta.namespace ≡ inst.meta.namespace
      → desired.meta.owner_references ≡ []
      → Makes E Any
          (new_service (record desired { meta = E.owned desired.meta }) ∷ [])
          (create_or_update_service R desired)
  unfolding create_or_update_service
  create_or_update_service-Makes desired inside unowned =
      Makes-bind (owned-Makes desired.meta inside unowned)
        λ meta e. rw e (Makes-create_or E.services _ _ (Makes-create E.services _))

  pub create_or_update_ingress-Makes :
      (desired : Ingress K)
      → desired.meta.namespace ≡ inst.meta.namespace
      → desired.meta.owner_references ≡ []
      → Makes E Any
          (new_ingress (record desired { meta = E.owned desired.meta }) ∷ [])
          (create_or_update_ingress R desired)
  unfolding create_or_update_ingress
  create_or_update_ingress-Makes desired inside unowned =
      Makes-bind (owned-Makes desired.meta inside unowned)
        λ meta e. rw e (Makes-create_or E.ingresses _ _ (Makes-create E.ingresses _))

  pub create_or_update_network_policy-Makes :
      (desired : NetworkPolicy K)
      → desired.meta.namespace ≡ inst.meta.namespace
      → desired.meta.owner_references ≡ []
      → Makes E Any
          (new_network_policy (record desired { meta = E.owned desired.meta }) ∷ [])
          (create_or_update_network_policy R desired)
  unfolding create_or_update_network_policy
  create_or_update_network_policy-Makes desired inside unowned =
      Makes-bind (owned-Makes desired.meta inside unowned)
        λ meta e. rw e (Makes-create_or E.network_policies _ _ (Makes-create E.network_policies _))

  pub create_or_update_pdb-Makes :
      (desired : PodDisruptionBudget K)
      → desired.meta.namespace ≡ inst.meta.namespace
      → desired.meta.owner_references ≡ []
      → Makes E Any
          (new_pdb (record desired { meta = E.owned desired.meta }) ∷ [])
          (create_or_update_pdb R desired)
  unfolding create_or_update_pdb
  create_or_update_pdb-Makes desired inside unowned =
      Makes-bind (owned-Makes desired.meta inside unowned) λ meta e.
        rw e
          (Makes-create_or E.pod_disruption_budgets _ _ (Makes-create E.pod_disruption_budgets _))

  pub create_or_update_hpa-Makes :
      (desired : HorizontalPodAutoscaler K)
      → desired.meta.namespace ≡ inst.meta.namespace
      → desired.meta.owner_references ≡ []
      → Makes E Any
          (new_hpa (record desired { meta = E.owned desired.meta }) ∷ [])
          (create_or_update_hpa R desired)
  unfolding create_or_update_hpa
  create_or_update_hpa-Makes desired inside unowned =
      Makes-bind (owned-Makes desired.meta inside unowned)
        λ meta e. rw e (Makes-create_or E.autoscalers _ _ (Makes-create E.autoscalers _))

  pub create_or_update_service_monitor-Makes :
      (desired : Value)
      → Makes E Any
          (new_service_monitor (E.owned_value desired) ∷ [])
          (create_or_update_service_monitor R desired)
  unfolding create_or_update_service_monitor
  create_or_update_service_monitor-Makes desired = Makes-with_instance λ i same.
      rw (E.set_value_controller_reference i desired same)
        (Makes-create_or E.service_monitors _ _ (Makes-create E.service_monitors _))

  pub delete_stateful_set_if_exists-Makes :
      (namespace name : String) → Makes E Any [] (delete_stateful_set_if_exists R namespace name)
  unfolding delete_stateful_set_if_exists
  delete_stateful_set_if_exists-Makes namespace name =
      Makes-create_or E.stateful_sets _ _ (Makes-pure tt tt)

  pub patch_status-Makes :
      (change : TlnDb K → TlnDb K)
      → ((i : TlnDb K) → SameAs i (change i))
      → Makes E Any [] (patch_status R change)
  unfolding steps
  patch_status-Makes change harmless = record {
    at = λ s h.
        let base = s.instance_in_memory in
        let (answer, e, same, kept) = E.patch_status base (change base) s.world in
        rw e
          (tt, refl, tt, kept ∙ sym (append-nil _), same_trans h (same_trans (harmless base) same));
  }

  pub Makes-ignore_conflict :
      {made : List (Created K)} {m : Reconcile R Unit}
      → Makes E Any made m
      → Makes E Any made (ignore_conflict m)
  unfolding steps
  Makes-ignore_conflict y = record {
    at = λ s h. let (a, e, q, grown, h') = y.at s h in (tt, rw e refl, tt, grown, h');
  }

  pub set_condition-Makes :
      (condition_type : String) (status : Bool) (reason message : String)
      → Makes E Any [] (set_condition R condition_type status reason message)
  unfolding set_condition with_condition ignore_error
  set_condition-Makes condition_type status reason message =
      let patched = patch_status-Makes _ λ i. status_only i _ in
      record { at = λ s h. let (a, e, q, grown, h') = patched.at s h in (tt, refl, tt, grown, h') }
