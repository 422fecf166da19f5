-- ===== src/Controller/Total/Apply.antt =====
-- internal/controller/tlndb_controller.go: on a healthy server the create-or-update helpers succeed.
use talon_db_k8s_operator.Base.{String, ◌≡◌, sym, ◌∙◌, []}
use talon_db_k8s_operator.Kube.{
  Platform, ObjectMeta, StatefulSet, Service, Ingress, NetworkPolicy, ConfigMap, ServiceAccount,
  Role, RoleBinding, PodDisruptionBudget, HorizontalPodAutoscaler, Value,
}
use talon_db_k8s_operator.Api.{TlnDb}
use talon_db_k8s_operator.Controller.Exec.{lift, ◌>>=◌}
use talon_db_k8s_operator.Controller.Environment.{Runtime}
use talon_db_k8s_operator.Controller.Calls.{the_instance}
use talon_db_k8s_operator.Controller.Apply.{
  create_or_update_config_map, create_or_update_service_account, create_or_update_role,
  create_or_update_role_binding, create_or_update_stateful_set, create_or_update_service,
  create_or_update_ingress, create_or_update_network_policy, delete_stateful_set_if_exists,
  create_or_update_service_monitor, create_or_update_pdb, create_or_update_hpa,
}
use talon_db_k8s_operator.Controller.Total.{Succeeds, Yields-with_instance}
use talon_db_k8s_operator.Controller.Total.Steps.{Succeeds-lift, succeeds_rules}
use talon_db_k8s_operator.Controller.Total.Healthy.{Healthy}

module _ {K : Platform} {R : Runtime K} (healthy : Healthy R) {inst : TlnDb K} where
  owned-Succeeds :
      (meta : ObjectMeta K)
      → meta.namespace ≡ inst.meta.namespace
      → meta.owner_references ≡ []
      → Succeeds R inst (do inst' ← the_instance R; lift (R.set_controller_reference inst' meta))
  owned-Succeeds meta inside unowned = Yields-with_instance λ inst' same.
      Succeeds-lift _
        (healthy.set_controller_reference inst' meta (inside ∙ sym same.namespace) unowned)

  pub create_or_update_config_map-Succeeds :
      (desired : ConfigMap K)
      → desired.meta.namespace ≡ inst.meta.namespace
      → desired.meta.owner_references ≡ []
      → Succeeds R inst (create_or_update_config_map R desired)
  unfolding create_or_update_config_map
  create_or_update_config_map-Succeeds desired inside unowned =
      let kind = healthy.config_maps in
      search (succeeds_rules, owned-Succeeds, kind.get, kind.create, kind.update) depth 9

  pub create_or_update_service_account-Succeeds :
      (desired : ServiceAccount K)
      → desired.meta.namespace ≡ inst.meta.namespace
      → desired.meta.owner_references ≡ []
      → Succeeds R inst (create_or_update_service_account R desired)
  unfolding create_or_update_service_account
  create_or_update_service_account-Succeeds desired inside unowned =
      let kind = healthy.service_accounts in
      search (succeeds_rules, owned-Succeeds, kind.get, kind.create, kind.update) depth 9

  pub create_or_update_role-Succeeds :
      (desired : Role K)
      → desired.meta.namespace ≡ inst.meta.namespace
      → desired.meta.owner_references ≡ []
      → Succeeds R inst (create_or_update_role R desired)
  unfolding create_or_update_role
  create_or_update_role-Succeeds desired inside unowned =
      let kind = healthy.roles in
      search (succeeds_rules, owned-Succeeds, kind.get, kind.create, kind.update) depth 9

  pub create_or_update_role_binding-Succeeds :
      (desired : RoleBinding K)
      → desired.meta.namespace ≡ inst.meta.namespace
      → desired.meta.owner_references ≡ []
      → Succeeds R inst (create_or_update_role_binding R desired)
  unfolding create_or_update_role_binding
  create_or_update_role_binding-Succeeds desired inside unowned =
      let kind = healthy.role_bindings in
      search (succeeds_rules, owned-Succeeds, kind.get, kind.create, kind.update) depth 9

  pub create_or_update_stateful_set-Succeeds :
      (desired : StatefulSet K)
      → desired.meta.namespace ≡ inst.meta.namespace
      → desired.meta.owner_references ≡ []
      → Succeeds R inst (create_or_update_stateful_set R desired)
  unfolding create_or_update_stateful_set
  create_or_update_stateful_set-Succeeds desired inside unowned =
      let kind = healthy.stateful_sets in
      search (succeeds_rules, owned-Succeeds, kind.get, kind.create, kind.update) depth 9

  pub create_or_update_service-Succeeds :
      (desired : Service K)
      → desired.meta.namespace ≡ inst.meta.namespace
      → desired.meta.owner_references ≡ []
      → Succeeds R inst (create_or_update_service R desired)
  unfolding create_or_update_service
  create_or_update_service-Succeeds desired inside unowned =
      let kind = healthy.services in
      search (succeeds_rules, owned-Succeeds, kind.get, kind.create, kind.update) depth 9

  pub create_or_update_ingress-Succeeds :
      (desired : Ingress K)
      → desired.meta.namespace ≡ inst.meta.namespace
      → desired.meta.owner_references ≡ []
      → Succeeds R inst (create_or_update_ingress R desired)
  unfolding create_or_update_ingress
  create_or_update_ingress-Succeeds desired inside unowned =
      let kind = healthy.ingresses in
      search (succeeds_rules, owned-Succeeds, kind.get, kind.create, kind.update) depth 9

  pub create_or_update_network_policy-Succeeds :
      (desired : NetworkPolicy K)
      → desired.meta.namespace ≡ inst.meta.namespace
      → desired.meta.owner_references ≡ []
      → Succeeds R inst (create_or_update_network_policy R desired)
  unfolding create_or_update_network_policy
  create_or_update_network_policy-Succeeds desired inside unowned =
      let kind = healthy.network_policies in
      search (succeeds_rules, owned-Succeeds, kind.get, kind.create, kind.update) depth 9

  pub create_or_update_pdb-Succeeds :
      (desired : PodDisruptionBudget K)
      → desired.meta.namespace ≡ inst.meta.namespace
      → desired.meta.owner_references ≡ []
      → Succeeds R inst (create_or_update_pdb R desired)
  unfolding create_or_update_pdb
  create_or_update_pdb-Succeeds desired inside unowned =
      let kind = healthy.pod_disruption_budgets in
      search (succeeds_rules, owned-Succeeds, kind.get, kind.create, kind.update) depth 9

  pub create_or_update_hpa-Succeeds :
      (desired : HorizontalPodAutoscaler K)
      → desired.meta.namespace ≡ inst.meta.namespace
      → desired.meta.owner_references ≡ []
      → Succeeds R inst (create_or_update_hpa R desired)
  unfolding create_or_update_hpa
  create_or_update_hpa-Succeeds desired inside unowned =
      let kind = healthy.autoscalers in
      search (succeeds_rules, owned-Succeeds, kind.get, kind.create, kind.update) depth 9

  pub create_or_update_service_monitor-Succeeds :
      (desired : Value) → Succeeds R inst (create_or_update_service_monitor R desired)
  unfolding create_or_update_service_monitor
  create_or_update_service_monitor-Succeeds desired =
      let kind = healthy.service_monitors in
      Yields-with_instance
        λ inst' same. search (succeeds_rules, kind.get, kind.create, kind.update) depth 9

  pub delete_stateful_set_if_exists-Succeeds :
      (namespace name : String) → Succeeds R inst (delete_stateful_set_if_exists R namespace name)
  unfolding delete_stateful_set_if_exists
  delete_stateful_set_if_exists-Succeeds namespace name =
      let kind = healthy.stateful_sets in search (succeeds_rules, kind.get, kind.delete) depth 9
