-- ===== src/Controller/Managed.antt =====
-- The objects that an instance asks for, by the names under which `status.managedResources` lists
-- them: a table of the kinds, to compare `reconcileResources` of
-- internal/controller/tlndb_controller.go with.
use talon_db_k8s_operator.Base.{
  String, ◌<>◌, Bool, true, false, Option, none, some, List, [], ◌∷◌, ◌++◌, ◌==◌, if◌then◌else◌,
}
use talon_db_k8s_operator.Base.Int.{pos, ltb_ℤ}
use talon_db_k8s_operator.Kube.{Platform}
use talon_db_k8s_operator.Api.{TlnDb}
use talon_db_k8s_operator.Resources.Common.{replicated}
use talon_db_k8s_operator.Resources.ServiceMonitor.{build_service_monitor}
use talon_db_k8s_operator.Controller.Environment.{Runtime}

abbrev pub listed : Bool → List String → List String
listed true names = names
listed false names = []

abbrev pub unless_given : Option String → List String → List String
unless_given none names = names
unless_given (some _) names = []

module _ {K : Platform} where
  abbrev pub rbac_names : TlnDb K → List String
  rbac_names inst =
      let name = inst.meta.name in
      listed (inst.spec.service_account_name == "")
        (("ServiceAccount/" <> name) ∷ ("Role/" <> name) ∷ ("RoleBinding/" <> name) ∷ [])

  abbrev pub config_names : TlnDb K → List String
  config_names inst =
      unless_given inst.spec.config_from (("ConfigMap/" <> (inst.meta.name <> "-config")) ∷ [])

  abbrev pub headless_names : TlnDb K → List String
  headless_names inst = ("Service/" <> (inst.meta.name <> "-headless")) ∷ []

  abbrev pub follower_names : TlnDb K → List String
  follower_names inst =
      listed (ltb_ℤ (pos 0) inst.spec.replication.read_replicas)
        (("StatefulSet/" <> (inst.meta.name <> "-follower")) ∷ [])

  abbrev pub replicated_names : TlnDb K → List String
  replicated_names inst =
      let name = inst.meta.name in
      ("StatefulSet/" <> (name <> "-leader"))
      ∷ (follower_names inst ++ ("Service/" <> name) ∷ ("Service/" <> (name <> "-read")) ∷ [])

  abbrev pub workload_names : TlnDb K → List String
  workload_names inst =
      let name = inst.meta.name in
      if replicated inst
      then replicated_names inst
      else ("StatefulSet/" <> name) ∷ ("Service/" <> name) ∷ []

  abbrev pub ingress_names : TlnDb K → List String
  ingress_names inst =
      listed inst.spec.networking.ingress.enabled (("Ingress/" <> inst.meta.name) ∷ [])

  abbrev pub network_policy_names : TlnDb K → List String
  network_policy_names inst =
      listed inst.spec.networking.network_policy.enabled (("NetworkPolicy/" <> inst.meta.name) ∷ [])

  abbrev pub pdb_names : TlnDb K → List String
  pdb_names inst =
      listed inst.spec.availability.pod_disruption_budget.enabled
        (("PodDisruptionBudget/" <> inst.meta.name) ∷ [])

  abbrev pub hpa_names : TlnDb K → List String
  hpa_names inst =
      listed inst.spec.availability.horizontal_pod_autoscaler.enabled
        (("HorizontalPodAutoscaler/" <> inst.meta.name) ∷ [])

-- The name of a ServiceMonitor is read from the untyped object.
abbrev pub monitor_names : {K : Platform} → Runtime K → TlnDb K → List String
monitor_names R inst =
    listed inst.spec.observability.metrics.service_monitor.enabled
      (("ServiceMonitor/" <> R.value_name (build_service_monitor inst)) ∷ [])

unfoldable pub managed_names : {K : Platform} → Runtime K → TlnDb K → List String
managed_names R inst =
    rbac_names inst
    ++ (config_names inst
        ++ (headless_names inst
            ++ (workload_names inst
                ++ (ingress_names inst
                    ++ (network_policy_names inst
                        ++ (monitor_names R inst ++ (pdb_names inst ++ hpa_names inst)))))))
