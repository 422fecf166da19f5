-- ===== src/Controller/Total/Blocks.antt =====
-- internal/controller/tlndb_controller.go: on a healthy server each optional block of
-- `reconcileResources` succeeds, with the names of what the instance asks for.
use talon_db_k8s_operator.Base.{String, ◌<>◌, ◌≡◌, refl, ap, [], ◌∷◌, ◌==◌}
use talon_db_k8s_operator.Kube.{Platform}
use talon_db_k8s_operator.Api.{TlnDb}
use talon_db_k8s_operator.Resources.Common.{labels}
use talon_db_k8s_operator.Resources.Pdb.{build_pdb}
use talon_db_k8s_operator.Resources.Hpa.{build_hpa}
use talon_db_k8s_operator.Resources.Ingress.{build_ingress}
use talon_db_k8s_operator.Resources.NetworkPolicy.{build_network_policy}
use talon_db_k8s_operator.Resources.Rbac.{build_service_account, build_role, build_role_binding}
use talon_db_k8s_operator.Resources.ServiceMonitor.{build_service_monitor}
use talon_db_k8s_operator.Resources.Service.{build_headless_service}
use talon_db_k8s_operator.Controller.Exec.{Result, ok}
use talon_db_k8s_operator.Controller.Environment.{Runtime}
use talon_db_k8s_operator.Controller.Provision.{
  reconcile_rbac, reconcile_headless, reconcile_ingress, reconcile_network_policy, monitor_result,
  reconcile_service_monitor, reconcile_pdb, reconcile_hpa,
}
use talon_db_k8s_operator.Controller.Managed.{
  rbac_names, headless_names, ingress_names, network_policy_names, monitor_names, pdb_names,
  hpa_names,
}
use talon_db_k8s_operator.Controller.Total.{
  Yields, Yields-with_instance, Yields-bind, Yields-then, Yields-attempt, Yields-listed,
  Yields-names,
}
use talon_db_k8s_operator.Controller.Total.Steps.{Succeeds-wrapping}
use talon_db_k8s_operator.Controller.Total.Healthy.{Healthy, SameAs}
use talon_db_k8s_operator.Controller.Total.Status.{set_condition-Succeeds}
use talon_db_k8s_operator.Controller.Total.Apply.{
  create_or_update_service_account-Succeeds, create_or_update_role-Succeeds,
  create_or_update_role_binding-Succeeds, create_or_update_service-Succeeds,
  create_or_update_ingress-Succeeds, create_or_update_network_policy-Succeeds,
  create_or_update_service_monitor-Succeeds, create_or_update_pdb-Succeeds,
  create_or_update_hpa-Succeeds,
}

module _ {K : Platform} {R : Runtime K} (healthy : Healthy R) {inst : TlnDb K} where
  pub reconcile_pdb-Yields : Yields R inst (λ got. got ≡ pdb_names inst) (reconcile_pdb R)
  unfolding reconcile_pdb build_pdb
  reconcile_pdb-Yields = Yields-with_instance λ inst' same.
      Yields-listed _ _ (ap (λ spec. spec.availability.pod_disruption_budget.enabled) same.spec) (
        Yields-names
          (Succeeds-wrapping _
            (create_or_update_pdb-Succeeds healthy (build_pdb inst') same.namespace refl))
          (ap (λ name. ("PodDisruptionBudget/" <> name) ∷ []) same.name))

  pub reconcile_hpa-Yields : Yields R inst (λ got. got ≡ hpa_names inst) (reconcile_hpa R)
  unfolding reconcile_hpa build_hpa
  reconcile_hpa-Yields = Yields-with_instance λ inst' same.
      Yields-listed _ _ (ap (λ spec. spec.availability.horizontal_pod_autoscaler.enabled) same.spec)
        (Yields-names
          (Succeeds-wrapping _
            (create_or_update_hpa-Succeeds healthy (build_hpa inst') same.namespace refl))
          (ap (λ name. ("HorizontalPodAutoscaler/" <> name) ∷ []) same.name))

  pub reconcile_ingress-Yields :
      Yields R inst (λ got. got ≡ ingress_names inst) (reconcile_ingress R)
  unfolding reconcile_ingress build_ingress
  reconcile_ingress-Yields = Yields-with_instance λ inst' same.
      Yields-listed _ _ (ap (λ spec. spec.networking.ingress.enabled) same.spec) (
        Yields-names
          (Succeeds-wrapping _
            (create_or_update_ingress-Succeeds healthy (build_ingress inst') same.namespace refl))
          (ap (λ name. ("Ingress/" <> name) ∷ []) same.name))

  pub reconcile_network_policy-Yields :
      Yields R inst (λ got. got ≡ network_policy_names inst) (reconcile_network_policy R)
  unfolding reconcile_network_policy build_network_policy
  reconcile_network_policy-Yields = Yields-with_instance λ inst' same.
      Yields-listed _ _ (ap (λ spec. spec.networking.network_policy.enabled) same.spec) (
        Yields-then
          (Succeeds-wrapping _ (
            create_or_update_network_policy-Succeeds healthy (build_network_policy inst')
              same.namespace refl))
          λ _.
            Yields-names (set_condition-Succeeds healthy _ _ _ _)
              (ap (λ name. ("NetworkPolicy/" <> name) ∷ []) same.name))

  pub reconcile_rbac-Yields : Yields R inst (λ got. got ≡ rbac_names inst) (reconcile_rbac R)
  unfolding reconcile_rbac build_service_account build_role build_role_binding
  reconcile_rbac-Yields = Yields-with_instance λ inst' same.
      let inside = same.namespace in
      Yields-listed _ _ (ap (λ spec. spec.service_account_name == "") same.spec) (
        Yields-then
          (Succeeds-wrapping _ (
            create_or_update_service_account-Succeeds healthy (build_service_account inst') inside
              refl))
          λ _.
            Yields-then
              (Succeeds-wrapping _
                (create_or_update_role-Succeeds healthy (build_role inst') inside refl))
              λ _.
                Yields-then
                  (Succeeds-wrapping _ (
                    create_or_update_role_binding-Succeeds healthy (build_role_binding inst') inside
                      refl))
                  λ _. Yields-names (set_condition-Succeeds healthy _ _ _ _) (
                    ap
                      (λ name.
                        ("ServiceAccount/" <> name)
                        ∷ ("Role/" <> name)
                        ∷ ("RoleBinding/" <> name)
                        ∷ [])
                      same.name))

  build_service_monitor-same :
      (inst' : TlnDb K)
      → SameAs inst inst'
      → build_service_monitor inst' ≡ build_service_monitor inst
  unfolding build_service_monitor labels
  build_service_monitor-same inst' same = rw (same.name, same.namespace, same.spec) refl

  monitor_result-Yields :
      (name : String) (answer : Result Unit) (u : Unit)
      → answer ≡ ok u
      → Yields R inst (λ got. got ≡ ("ServiceMonitor/" <> name) ∷ []) (monitor_result R name answer)
  monitor_result-Yields name answer u e =
      rw e (Yields-names (set_condition-Succeeds healthy _ _ _ _) refl)

  pub reconcile_service_monitor-Yields :
      Yields R inst (λ got. got ≡ monitor_names R inst) (reconcile_service_monitor R)
  unfolding reconcile_service_monitor
  reconcile_service_monitor-Yields = Yields-with_instance λ inst' same.
      Yields-listed _ _ (ap (λ spec. spec.observability.metrics.service_monitor.enabled) same.spec)
        (rw (build_service_monitor-same inst' same) (
          Yields-bind (Yields-attempt (create_or_update_service_monitor-Succeeds healthy _))
            λ answer (u, e, _). monitor_result-Yields _ answer u e))

  pub reconcile_headless-Yields :
      Yields R inst (λ got. got ≡ headless_names inst) (reconcile_headless R)
  unfolding reconcile_headless build_headless_service
  reconcile_headless-Yields = Yields-with_instance λ inst' same.
      Yields-names
        (Succeeds-wrapping _ (
          create_or_update_service-Succeeds healthy (build_headless_service inst') same.namespace
            refl))
        (ap (λ name. ("Service/" <> (name <> "-headless")) ∷ []) same.name)
