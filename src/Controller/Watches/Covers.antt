-- ===== src/Controller/Watches/Covers.antt =====
-- internal/controller/tlndb_controller.go: `SetupWithManager` and `reconcileResources` speak of the
-- same kinds.
use talon_db_k8s_operator.Base.{
  String, ◌<>◌, ◌≡◌, refl, ◌⊎◌, inl, inr, Bool, true, false, Option, none, some, List, [], ◌∷◌,
  if◌then◌else◌, ◌==◌,
}
use talon_db_k8s_operator.Kube.{Platform}
use talon_db_k8s_operator.Api.{TlnDb}
use talon_db_k8s_operator.Resources.Common.{replicated}
use talon_db_k8s_operator.Controller.Environment.{Runtime, Session}
use talon_db_k8s_operator.Controller.Provision.{reconcile_resources}
use talon_db_k8s_operator.Controller.Total.Healthy.{Healthy, same_refl}
use talon_db_k8s_operator.Controller.Total.Workload.{ExternalConfigFound}
use talon_db_k8s_operator.Controller.Total.Resources.{reconcile_resources-manages}
use talon_db_k8s_operator.Base.Each.{EachIs, EachIs-append}
use talon_db_k8s_operator.Resources.Hash.Sorted.{EachIs-sort}
use talon_db_k8s_operator.Base.Int.{pos, ltb_ℤ}
use talon_db_k8s_operator.Controller.Managed.{
  listed, unless_given, rbac_names, config_names, workload_names, follower_names, ingress_names,
  network_policy_names, headless_names, monitor_names, pdb_names, hpa_names, managed_names,
}
use talon_db_k8s_operator.Controller.Watches.{GroupVersionKind, controller_watches}

-- A kind of the list has this name.
abbrev pub HasKind : String → List GroupVersionKind → Type 0
HasKind kind [] = ⊥
HasKind kind (k ∷ ks) = (k.kind ≡ kind) ⊎ HasKind kind ks

-- `Kind/name`, where changes of objects of that kind start a reconciliation
abbrev pub IsWatched : String → Type 0
IsWatched entry =
    (kind : String) × (name : String) × (entry ≡ (kind <> "/") <> name)
    × HasKind kind controller_watches.owned_kinds

-- No watch is set up for ServiceMonitors, whose resource definition may be missing.
abbrev pub IsMonitor : String → Type 0
IsMonitor entry = (name : String) × (entry ≡ "ServiceMonitor/" <> name)

EachIs-listed :
    (P : String → Type 0) (b : Bool) (xs : List String) → EachIs P xs → EachIs P (listed b xs)
EachIs-listed P true xs h = h
EachIs-listed P false xs h = tt

EachIs-unless_given :
    (P : String → Type 0) (given : Option String) (xs : List String)
    → EachIs P xs
    → EachIs P (unless_given given xs)
EachIs-unless_given P none xs h = h
EachIs-unless_given P (some _) xs h = tt

EachIs-if :
    (P : String → Type 0) (b : Bool) (xs ys : List String)
    → EachIs P xs
    → EachIs P ys
    → EachIs P (if b then xs else ys)
EachIs-if P true xs ys hx hy = hx
EachIs-if P false xs ys hx hy = hy

abbrev Expected : String → Type 0
Expected entry = IsWatched entry ⊎ IsMonitor entry

abbrev EachExpected : List String → Type 0
EachExpected = EachIs Expected

watched :
    (kind name : String)
    → HasKind kind controller_watches.owned_kinds
    → Expected ((kind <> "/") <> name)
watched kind name h = inl (kind, name, refl, h)

set_Expected : (name : String) → Expected ("StatefulSet/" <> name)
set_Expected name = watched "StatefulSet" name (inl refl)

service_Expected : (name : String) → Expected ("Service/" <> name)
service_Expected name = watched "Service" name (inr (inl refl))

module _ {K : Platform} (inst : TlnDb K) where
  rbac_names-Expected : EachExpected (rbac_names inst)
  rbac_names-Expected = EachIs-listed Expected (inst.spec.service_account_name == "") _ (
    watched "ServiceAccount" _ (inr (inr (inr (inl refl)))),
    (
      watched "Role" _ (inr (inr (inr (inr (inl refl))))),
      (watched "RoleBinding" _ (inr (inr (inr (inr (inr (inl refl)))))), tt),
    ),
  )

  config_names-Expected : EachExpected (config_names inst)
  config_names-Expected =
      EachIs-unless_given Expected inst.spec.config_from _
        (watched "ConfigMap" _ (inr (inr (inl refl))), tt)

  workload_names-Expected : EachExpected (workload_names inst)
  workload_names-Expected =
      EachIs-if Expected (replicated inst) _ _
        (
          set_Expected _,
          EachIs-append Expected (follower_names inst) _
              (EachIs-listed Expected (ltb_ℤ (pos 0) inst.spec.replication.read_replicas) _
                (set_Expected _, tt))
              (service_Expected _, (service_Expected _, tt)),
        )
        (set_Expected _, (service_Expected _, tt))

  ingress_names-Expected : EachExpected (ingress_names inst)
  ingress_names-Expected =
      EachIs-listed Expected inst.spec.networking.ingress.enabled _
        (watched "Ingress" _ (inr (inr (inr (inr (inr (inr (inl refl))))))), tt)

  network_policy_names-Expected : EachExpected (network_policy_names inst)
  network_policy_names-Expected =
      EachIs-listed Expected inst.spec.networking.network_policy.enabled _
        (watched "NetworkPolicy" _ (inr (inr (inr (inr (inr (inr (inr (inl refl)))))))), tt)

  pdb_names-Expected : EachExpected (pdb_names inst)
  pdb_names-Expected =
      EachIs-listed Expected inst.spec.availability.pod_disruption_budget.enabled _ (
        watched "PodDisruptionBudget" _ (inr (inr (inr (inr (inr (inr (inr (inr (inl refl))))))))),
        tt,
      )

  hpa_names-Expected : EachExpected (hpa_names inst)
  hpa_names-Expected =
      EachIs-listed Expected inst.spec.availability.horizontal_pod_autoscaler.enabled _ (
        watched "HorizontalPodAutoscaler" _
            (inr (inr (inr (inr (inr (inr (inr (inr (inr (inl refl)))))))))),
        tt,
      )

monitor_names-Expected :
    {K : Platform} (R : Runtime K) (inst : TlnDb K) → EachExpected (monitor_names R inst)
monitor_names-Expected R inst =
    EachIs-listed Expected inst.spec.observability.metrics.service_monitor.enabled _
      (inr (_, refl), tt)

managed_names-Expected :
    {K : Platform} (R : Runtime K) (inst : TlnDb K) → EachExpected (managed_names R inst)
unfolding managed_names
managed_names-Expected R inst = EachIs-append Expected _ _ (rbac_names-Expected inst) (
    EachIs-append Expected _ _ (config_names-Expected inst) (
      EachIs-append Expected (headless_names inst) _ (service_Expected _, tt)
        (EachIs-append Expected _ _ (workload_names-Expected inst) (
          EachIs-append Expected _ _ (ingress_names-Expected inst) (
            EachIs-append Expected _ _ (network_policy_names-Expected inst) (
              EachIs-append Expected _ _ (monitor_names-Expected R inst) (
                EachIs-append Expected _ _ (pdb_names-Expected inst)
                  (hpa_names-Expected inst))))))))

-- On a healthy server, and where an external ConfigMap that the instance refers to can be read:
-- after the provisioning each entry of the managed resources is of a kind whose changes start a
-- reconciliation, or is a ServiceMonitor.
pub managed_resources-IsWatched :
    {K : Platform} (R : Runtime K) (s : Session R)
    → let inst = s.instance_in_memory in
      Healthy R
      → ExternalConfigFound R inst
      → EachIs
          (λ entry. IsWatched entry ⊎ IsMonitor entry)
          (reconcile_resources R s).1.instance_in_memory.status.managed_resources
managed_resources-IsWatched R s healthy found =
    let inst = s.instance_in_memory in
    let (_, records) = reconcile_resources-manages healthy s (same_refl inst) found in
    rw records.managed (EachIs-sort Expected (managed_names R inst) (managed_names-Expected R inst))
