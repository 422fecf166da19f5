-- ===== src/Controller/Safety/Calls.antt =====
-- The calls of the client that may break nothing.
use talon_db_k8s_operator.Base.{◌≡◌}
use talon_db_k8s_operator.Kube.{Platform, ObjectMeta, StatefulSet}
use talon_db_k8s_operator.Api.{TlnDb}
use talon_db_k8s_operator.Resources.Common.{follower_stateful_set_name}
use talon_db_k8s_operator.Controller.Exec.{ok}
use talon_db_k8s_operator.Controller.Environment.{Key, KindClient, InstanceClient, Runtime}
use talon_db_k8s_operator.Controller.Keeps.{Leaves}

-- Reads and updates of a kind, and creations of objects with `Made`.
pub record SafeKind {W T : Type 0} (P : W → Type 0) (Made : T → Type 0) (client : KindClient W T)
    : Type 0 where
  pub get : (key : Key) → Leaves P (client.get key)
  pub create : (object : T) → Made object → Leaves P (client.create object)
  pub update : (object : T) → Leaves P (client.update object)

pub record SafeInstance {K : Platform} {W : Type 0} (P : W → Type 0) (client : InstanceClient K W)
    : Type 0 where
  pub get : (key : Key) → Leaves P (client.get key)
  pub update : (inst : TlnDb K) → Leaves P (client.update inst)
  pub patch_status : (base inst : TlnDb K) → Leaves P (client.patch_status base inst)

-- The metadata is an answer of `controllerutil.SetControllerReference` for some instance.
abbrev pub IsOwned : {K : Platform} → Runtime K → ObjectMeta K → Type 0
IsOwned {K} R meta =
    (inst : TlnDb K) × (bare : ObjectMeta K) × (R.set_controller_reference inst bare ≡ ok meta)

-- Every call but a deletion and the creation of an object without an owner, and the deletion of a set that was read under a follower name.
pub record SafeCalls {K : Platform} (R : Runtime K) (P : R.World → Type 0) : Type 0 where
  pub instances : SafeInstance P R.instances
  pub stateful_sets : SafeKind P (λ object. IsOwned R object.meta) R.stateful_sets
  pub services : SafeKind P (λ object. IsOwned R object.meta) R.services
  pub config_maps : SafeKind P (λ object. IsOwned R object.meta) R.config_maps
  pub service_accounts : SafeKind P (λ object. IsOwned R object.meta) R.service_accounts
  pub roles : SafeKind P (λ object. IsOwned R object.meta) R.roles
  pub role_bindings : SafeKind P (λ object. IsOwned R object.meta) R.role_bindings
  pub ingresses : SafeKind P (λ object. IsOwned R object.meta) R.ingresses
  pub network_policies : SafeKind P (λ object. IsOwned R object.meta) R.network_policies
  pub pod_disruption_budgets : SafeKind P (λ object. IsOwned R object.meta) R.pod_disruption_budgets
  pub autoscalers : SafeKind P (λ object. IsOwned R object.meta) R.autoscalers
  pub service_monitors : SafeKind P (λ monitor. Unit) R.service_monitors
  pub delete_follower :
      (inst : TlnDb K) (sts : StatefulSet K) (w : R.World)
      → (R.stateful_sets.get
          (record { namespace = inst.meta.namespace; name = follower_stateful_set_name inst })
          w).0
        ≡ ok sts
      → Leaves P (R.stateful_sets.delete sts)
