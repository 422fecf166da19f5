-- ===== src/Controller/Installs/EmptyServer.antt =====
-- A server, seen through the operator's cache, on which nothing of an instance is found yet: reads
-- find nothing, what is created is accepted, and the status can be patched. What is created is
-- noted, in order.
use talon_db_k8s_operator.Base.{String, ◌≡◌, List, [], ◌∷◌, ◌++◌}
use talon_db_k8s_operator.Kube.{
  Platform, ObjectMeta, StatefulSet, Service, Ingress, NetworkPolicy, ConfigMap, ServiceAccount,
  Role, RoleBinding, PodDisruptionBudget, HorizontalPodAutoscaler, Value,
}
use talon_db_k8s_operator.Api.{TlnDb}
use talon_db_k8s_operator.Controller.Exec.{not_found, ok, err}
use talon_db_k8s_operator.Controller.Environment.{Key, KindClient, Runtime}
use talon_db_k8s_operator.Controller.Total.Healthy.{SameAs}

-- An object that was created
pub data Created (K : Platform) : Type 0 where
  new_config_map : ConfigMap K → Created K
  new_service_account : ServiceAccount K → Created K
  new_role : Role K → Created K
  new_role_binding : RoleBinding K → Created K
  new_stateful_set : StatefulSet K → Created K
  new_service : Service K → Created K
  new_ingress : Ingress K → Created K
  new_network_policy : NetworkPolicy K → Created K
  new_service_monitor : Value → Created K
  new_pdb : PodDisruptionBudget K → Created K
  new_hpa : HorizontalPodAutoscaler K → Created K

pub record EmptyKind {K : Platform} {W T : Type 0} (journal : W → List (Created K))
    (created : T → Created K) (client : KindClient W T) : Type 0 where
  pub get :
      (key : Key) (w : W)
      → (message : String) × ((client.get key w).0
          ≡ err (record { reason = not_found; message = message }))
        × (journal (client.get key w).1 ≡ journal w)
  pub create :
      (object : T) (w : W)
      → ((client.create object w).0 ≡ ok tt)
        × (journal (client.create object w).1 ≡ journal w ++ (created object ∷ []))

-- `owned` is the metadata with the owner that `SetControllerReference` adds.
pub record Empty {K : Platform} (R : Runtime K) (inst : TlnDb K) : Type 0 where
  pub journal : R.World → List (Created K)
  pub owned : ObjectMeta K → ObjectMeta K
  pub owned_value : Value → Value
  pub set_controller_reference :
      (i : TlnDb K) (meta : ObjectMeta K)
      → SameAs inst i
      → meta.namespace ≡ inst.meta.namespace
      → meta.owner_references ≡ []
      → R.set_controller_reference i meta ≡ ok (owned meta)
  pub set_value_controller_reference :
      (i : TlnDb K) (object : Value)
      → SameAs inst i
      → R.set_value_controller_reference i object ≡ ok (owned_value object)
  pub patch_status :
      (base i : TlnDb K) (w : R.World)
      → (answer : TlnDb K) × ((R.instances.patch_status base i w).0 ≡ ok answer)
        × SameAs i answer
        × (journal (R.instances.patch_status base i w).1 ≡ journal w)
  pub config_maps : EmptyKind journal new_config_map R.config_maps
  pub service_accounts : EmptyKind journal new_service_account R.service_accounts
  pub roles : EmptyKind journal new_role R.roles
  pub role_bindings : EmptyKind journal new_role_binding R.role_bindings
  pub stateful_sets : EmptyKind journal new_stateful_set R.stateful_sets
  pub services : EmptyKind journal new_service R.services
  pub ingresses : EmptyKind journal new_ingress R.ingresses
  pub network_policies : EmptyKind journal new_network_policy R.network_policies
  pub service_monitors : EmptyKind journal new_service_monitor R.service_monitors
  pub pod_disruption_budgets : EmptyKind journal new_pdb R.pod_disruption_budgets
  pub autoscalers : EmptyKind journal new_hpa R.autoscalers
