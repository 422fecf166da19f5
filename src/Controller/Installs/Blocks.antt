-- ===== src/Controller/Installs/Blocks.antt =====
-- internal/controller/tlndb_controller.go: what each block of `reconcileResources` creates where
-- nothing is found.
use talon_db_k8s_operator.Base.{String, ◌≡◌, refl, ap, [], ◌∷◌, ◌==◌}
use talon_db_k8s_operator.Kube.{Platform}
use talon_db_k8s_operator.Api.{TlnDb}
use talon_db_k8s_operator.Resources.Service.{build_headless_service}
use talon_db_k8s_operator.Resources.Ingress.{build_ingress}
use talon_db_k8s_operator.Resources.NetworkPolicy.{build_network_policy}
use talon_db_k8s_operator.Resources.Rbac.{build_service_account, build_role, build_role_binding}
use talon_db_k8s_operator.Resources.ServiceMonitor.{build_service_monitor}
use talon_db_k8s_operator.Resources.Pdb.{build_pdb}
use talon_db_k8s_operator.Resources.Hpa.{build_hpa}
use talon_db_k8s_operator.Controller.Environment.{Runtime}
use talon_db_k8s_operator.Controller.Exec.{Result, ok}
use talon_db_k8s_operator.Controller.Provision.{
  monitor_result, reconcile_rbac, reconcile_headless, reconcile_ingress, reconcile_network_policy,
  reconcile_service_monitor, reconcile_pdb, reconcile_hpa,
}
use talon_db_k8s_operator.Controller.Installs.{
  Makes, Any, Makes-bind, Makes-then, Makes-with_instance, Makes-wrapping, Makes-if, Makes-same,
  Makes-names, Makes-attempt,
}
use talon_db_k8s_operator.Controller.Installs.EmptyServer.{Empty, new_service_monitor}
use talon_db_k8s_operator.Controller.Installs.Reads.{
  same-Reads, build_service_account-Reads, build_role-Reads, build_role_binding-Reads,
  build_headless_service-Reads, build_ingress-Reads, build_network_policy-Reads,
  build_service_monitor-Reads, build_pdb-Reads, build_hpa-Reads,
}
use talon_db_k8s_operator.Controller.Installs.Helpers.{
  create_or_update_service_account-Makes, create_or_update_role-Makes,
  create_or_update_role_binding-Makes, create_or_update_service-Makes,
  create_or_update_ingress-Makes, create_or_update_network_policy-Makes, create_or_update_pdb-Makes,
  create_or_update_hpa-Makes, create_or_update_service_monitor-Makes, set_condition-Makes,
}
use talon_db_k8s_operator.Controller.Installs.Table.{
  owned_service_account, owned_role, owned_role_binding, owned_service, owned_ingress,
  owned_network_policy, owned_pdb, owned_hpa, rbac_made, headless_made, ingress_made,
  network_policy_made, monitor_made, pdb_made, hpa_made,
}

module _ {K : Platform} {R : Runtime K} {inst : TlnDb K} (E : Empty R inst) where
  pub reconcile_pdb-Makes : Makes E Any (pdb_made E) (reconcile_pdb R)
  unfolding reconcile_pdb build_pdb
  reconcile_pdb-Makes = Makes-with_instance λ i same.
      Makes-if _ _ _ (ap (λ spec. spec.availability.pod_disruption_budget.enabled) same.spec) (
        Makes-same (ap (λ x. owned_pdb E x ∷ []) (same-Reads build_pdb-Reads same)) (
          Makes-names _
            (Makes-wrapping _ (create_or_update_pdb-Makes E (build_pdb i) same.namespace refl))))

  pub reconcile_hpa-Makes : Makes E Any (hpa_made E) (reconcile_hpa R)
  unfolding reconcile_hpa build_hpa
  reconcile_hpa-Makes = Makes-with_instance λ i same.
      Makes-if _ _ _ (ap (λ spec. spec.availability.horizontal_pod_autoscaler.enabled) same.spec) (
        Makes-same (ap (λ x. owned_hpa E x ∷ []) (same-Reads build_hpa-Reads same)) (
          Makes-names _
            (Makes-wrapping _ (create_or_update_hpa-Makes E (build_hpa i) same.namespace refl))))

  pub reconcile_ingress-Makes : Makes E Any (ingress_made E) (reconcile_ingress R)
  unfolding reconcile_ingress build_ingress
  reconcile_ingress-Makes = Makes-with_instance λ i same.
      Makes-if _ _ _ (ap (λ spec. spec.networking.ingress.enabled) same.spec) (
        Makes-same (ap (λ x. owned_ingress E x ∷ []) (same-Reads build_ingress-Reads same)) (
          Makes-names _ (
            Makes-wrapping _
              (create_or_update_ingress-Makes E (build_ingress i) same.namespace refl))))

  pub reconcile_headless-Makes : Makes E Any (headless_made E) (reconcile_headless R)
  unfolding reconcile_headless build_headless_service
  reconcile_headless-Makes = Makes-with_instance λ i same.
      Makes-same (ap (λ x. owned_service E x ∷ []) (same-Reads build_headless_service-Reads same)) (
        Makes-names _ (
          Makes-wrapping _
            (create_or_update_service-Makes E (build_headless_service i) same.namespace refl)))

  pub reconcile_network_policy-Makes :
      Makes E Any (network_policy_made E) (reconcile_network_policy R)
  unfolding reconcile_network_policy build_network_policy
  reconcile_network_policy-Makes = Makes-with_instance λ i same.
      Makes-if _ _ _ (ap (λ spec. spec.networking.network_policy.enabled) same.spec) (
        Makes-same
          (ap (λ x. owned_network_policy E x ∷ []) (same-Reads build_network_policy-Reads same))
          (Makes-then
            (Makes-wrapping _ (
              create_or_update_network_policy-Makes E (build_network_policy i) same.namespace refl))
            λ _. Makes-names _ (set_condition-Makes E _ _ _ _)))

  pub reconcile_rbac-Makes : Makes E Any (rbac_made E) (reconcile_rbac R)
  unfolding reconcile_rbac build_service_account build_role build_role_binding
  reconcile_rbac-Makes = Makes-with_instance λ i same.
      let account = same-Reads build_service_account-Reads same in
      let role = same-Reads build_role-Reads same in
      let binding = same-Reads build_role_binding-Reads same in
      Makes-if _ _ _ (ap (λ spec. spec.service_account_name == "") same.spec) (
        Makes-same
          (λ j.
            owned_service_account E (account j)
            ∷ owned_role E (role j)
            ∷ owned_role_binding E (binding j)
            ∷ [])
          (Makes-then
            (Makes-wrapping _ (
              create_or_update_service_account-Makes E (build_service_account i) same.namespace
                refl))
            λ _.
              Makes-then
                (Makes-wrapping _
                  (create_or_update_role-Makes E (build_role i) same.namespace refl))
                λ _.
                  Makes-then
                    (Makes-wrapping _ (
                      create_or_update_role_binding-Makes E (build_role_binding i) same.namespace
                        refl))
                    λ _. Makes-names _ (set_condition-Makes E _ _ _ _)))

  monitor_result-Makes :
      (name : String) (answer : Result Unit) (u : Unit)
      → answer ≡ ok u
      → Makes E Any [] (monitor_result R name answer)
  monitor_result-Makes name answer u e = rw e (Makes-names _ (set_condition-Makes E _ _ _ _))

  pub reconcile_service_monitor-Makes : Makes E Any (monitor_made E) (reconcile_service_monitor R)
  unfolding reconcile_service_monitor
  reconcile_service_monitor-Makes = Makes-with_instance λ i same.
      Makes-if _ _ _ (ap (λ spec. spec.observability.metrics.service_monitor.enabled) same.spec) (
        Makes-same
          (ap (λ x. new_service_monitor (E.owned_value x) ∷ [])
            (same-Reads build_service_monitor-Reads same))
          (Makes-bind
            (Makes-attempt (create_or_update_service_monitor-Makes E (build_service_monitor i)))
            λ answer (u, e). monitor_result-Makes _ answer u e))
