-- ===== src/Controller/Environment.antt =====
-- What the reconciler calls and the repository does not implement: the API client of
-- controller-runtime, the helpers of controllerutil and apimeta, and semantic equality. The
-- cluster is an unknown state that each call may change and on which each answer may depend, so
-- any call can fail at any time, and time and other writers may act within a call.
use talon_db_k8s_operator.Base.{ℕ, String, Bool, Option, List}
use talon_db_k8s_operator.Base.Int.{ℤ}
use talon_db_k8s_operator.Base.Dict.{Dict}
use talon_db_k8s_operator.Kube.{
  Platform, ObjectMeta, StatefulSet, Service, Ingress, NetworkPolicy, ConfigMap, ServiceAccount,
  Role, RoleBinding, PolicyRule, RoleRef, Subject, PodDisruptionBudget, HorizontalPodAutoscaler,
  Value,
}
use talon_db_k8s_operator.Api.{Condition, TlnDb}
use talon_db_k8s_operator.Controller.Exec.{Exec, Result}

-- `types.NamespacedName`
pub record Key : Type 0 where
  pub namespace : String
  pub name : String

-- The client at one kind of object.
pub record KindClient (W T : Type 0) : Type 0 where
  pub get : Key → Exec W T
  pub create : T → Exec W Unit
  pub update : T → Exec W Unit
  pub delete : T → Exec W Unit

-- The client at the custom resource: `Update` and `Status().Patch` write the server's answer back
-- into the object that they are given. A patch is the change from the first object to the second.
pub record InstanceClient (K : Platform) (W : Type 0) : Type 0 where
  pub get : Key → Exec W (TlnDb K)
  pub update : TlnDb K → Exec W (TlnDb K)
  pub patch_status : TlnDb K → TlnDb K → Exec W (TlnDb K)

pub record Runtime (K : Platform) : Type 1 where
  pub World : Type 0
  -- `metav1.Now()`
  pub now : World → ℕ
  pub instances : InstanceClient K World
  pub stateful_sets : KindClient World (StatefulSet K)
  pub services : KindClient World (Service K)
  pub config_maps : KindClient World (ConfigMap K)
  pub service_accounts : KindClient World (ServiceAccount K)
  pub roles : KindClient World (Role K)
  pub role_bindings : KindClient World (RoleBinding K)
  pub ingresses : KindClient World (Ingress K)
  pub network_policies : KindClient World (NetworkPolicy K)
  pub pod_disruption_budgets : KindClient World (PodDisruptionBudget K)
  pub autoscalers : KindClient World (HorizontalPodAutoscaler K)
  pub service_monitors : KindClient World Value
  -- `controllerutil`
  pub set_controller_reference : TlnDb K → ObjectMeta K → Result (ObjectMeta K)
  pub set_value_controller_reference : TlnDb K → Value → Result Value
  pub contains_finalizer : List String → String → Bool
  pub add_finalizer : List String → String → List String
  pub remove_finalizer : List String → String → List String
  -- `apimeta.SetStatusCondition`
  pub set_status_condition : List Condition → Condition → List Condition
  -- `equality.Semantic.DeepEqual`, at the types that the source compares
  pub equal_entries : Dict String → Dict String → Bool
  pub equal_rules : List PolicyRule → List PolicyRule → Bool
  pub equal_role_ref : RoleRef → RoleRef → Bool
  pub equal_subjects : List Subject → List Subject → Bool
  pub equal_replicas : Option ℤ → Option ℤ → Bool
  -- the accessors of `unstructured.Unstructured`
  pub value_name : Value → String
  pub value_namespace : Value → String
  pub value_resource_version : Value → String
  pub set_value_resource_version : Value → String → Value

pub record Event : Type 0 where
  pub event_type : String
  pub reason : String
  pub message : String

-- What a reconciliation works on: the cluster, the object in memory that `instance` points to, and
-- the events that it has handed to the recorder, latest first.
pub record Session {K : Platform} (R : Runtime K) : Type 0 where
  pub world : R.World
  pub instance_in_memory : TlnDb K
  pub events : List Event
