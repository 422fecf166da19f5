-- ===== src/Controller/Safety/Owned.antt =====
-- internal/controller/tlndb_controller.go: the owners of the objects that a reconciliation creates,
-- by which the cluster removes them with the instance.
use talon_db_k8s_operator.Base.{List, [], ◌∷◌}
use talon_db_k8s_operator.Base.Each.{EachIs}
use talon_db_k8s_operator.Kube.{Platform, ObjectMeta}
use talon_db_k8s_operator.Controller.Exec.{Exec}
use talon_db_k8s_operator.Controller.Environment.{Key, KindClient, Runtime}
use talon_db_k8s_operator.Controller.Safety.Calls.{SafeKind, SafeCalls, IsOwned}
use talon_db_k8s_operator.Controller.Safety.Whole.{reconcile-keeps}
use talon_db_k8s_operator.Controller.{reconcile}

-- A world, and the metadata of the objects that were to be created in it, latest first.
abbrev pub Logged : (W : Type 0) → Platform → Type 0
Logged W K = W × List (ObjectMeta K)

module _ {K : Platform} {W : Type 0} where
  abbrev unlogged : {A : Type 0} → Exec W A → Exec (Logged W K) A
  unlogged m (w, log) = let (r, w') = m w in (r, (w', log))

  abbrev logged : {A : Type 0} → ObjectMeta K → Exec W A → Exec (Logged W K) A
  logged meta m (w, log) = let (r, w') = m w in (r, (w', meta ∷ log))

  -- The client of a kind, with a log of its creations.
  abbrev logging_kind :
      {T : Type 0} → (T → ObjectMeta K) → KindClient W T → KindClient (Logged W K) T
  logging_kind meta_of client = record {
    get = λ key. unlogged (client.get key);
    create = λ object. logged (meta_of object) (client.create object);
    update = λ object. unlogged (client.update object);
    delete = λ object. unlogged (client.delete object);
  }

-- Any runtime, with a log of the creations but for those of ServiceMonitors, whose metadata is not
-- typed.
abbrev pub logging : {K : Platform} → Runtime K → Runtime K
logging {K} R = record R {
  World = Logged R.World K;
  now = λ (w, log). R.now w;
  instances = record {
    get = λ key. unlogged (R.instances.get key);
    update = λ inst. unlogged (R.instances.update inst);
    patch_status = λ base inst. unlogged (R.instances.patch_status base inst);
  };
  stateful_sets = logging_kind (λ object. object.meta) R.stateful_sets;
  services = logging_kind (λ object. object.meta) R.services;
  config_maps = logging_kind (λ object. object.meta) R.config_maps;
  service_accounts = logging_kind (λ object. object.meta) R.service_accounts;
  roles = logging_kind (λ object. object.meta) R.roles;
  role_bindings = logging_kind (λ object. object.meta) R.role_bindings;
  ingresses = logging_kind (λ object. object.meta) R.ingresses;
  network_policies = logging_kind (λ object. object.meta) R.network_policies;
  pod_disruption_budgets = logging_kind (λ object. object.meta) R.pod_disruption_budgets;
  autoscalers = logging_kind (λ object. object.meta) R.autoscalers;
  service_monitors = record {
    get = λ key. unlogged (R.service_monitors.get key);
    create = λ object. unlogged (R.service_monitors.create object);
    update = λ object. unlogged (R.service_monitors.update object);
    delete = λ object. unlogged (R.service_monitors.delete object);
  };
}

module _ {K : Platform} (R : Runtime K) where
  abbrev pub LogIsOwned : Logged R.World K → Type 0
  LogIsOwned (w, log) = EachIs (IsOwned R) log

  logging_kind-safe :
      {T : Type 0} (meta_of : T → ObjectMeta K) (client : KindClient R.World T)
      → SafeKind LogIsOwned (λ object. IsOwned R (meta_of object)) (logging_kind meta_of client)
  logging_kind-safe meta_of client = record {
    get = λ key. record { at = λ w h. h };
    create = λ object made. record { at = λ w h. (made, h) };
    update = λ object. record { at = λ w h. h };
  }

  logging-safe : SafeCalls (logging R) LogIsOwned
  logging-safe = record {
    instances = record {
      get = λ key. record { at = λ w h. h };
      update = λ inst. record { at = λ w h. h };
      patch_status = λ base inst. record { at = λ w h. h };
    };
    stateful_sets = logging_kind-safe (λ object. object.meta) R.stateful_sets;
    services = logging_kind-safe (λ object. object.meta) R.services;
    config_maps = logging_kind-safe (λ object. object.meta) R.config_maps;
    service_accounts = logging_kind-safe (λ object. object.meta) R.service_accounts;
    roles = logging_kind-safe (λ object. object.meta) R.roles;
    role_bindings = logging_kind-safe (λ object. object.meta) R.role_bindings;
    ingresses = logging_kind-safe (λ object. object.meta) R.ingresses;
    network_policies = logging_kind-safe (λ object. object.meta) R.network_policies;
    pod_disruption_budgets = logging_kind-safe (λ object. object.meta) R.pod_disruption_budgets;
    autoscalers = logging_kind-safe (λ object. object.meta) R.autoscalers;
    service_monitors = record {
      get = λ key. record { at = λ w h. h };
      create = λ object made. record { at = λ w h. h };
      update = λ object. record { at = λ w h. h };
    };
    delete_follower = λ inst sts w read. record { at = λ w h. h };
  }

  -- Whatever the cluster answers: every object that a call of `Reconcile` creates, but for a
  -- ServiceMonitor, carries metadata that `SetControllerReference` has answered for an instance.
  pub reconcile-creates-IsOwned :
      (key : Key) (w : R.World) → EachIs (IsOwned R) (reconcile (logging R) key (w, [])).world.1
  reconcile-creates-IsOwned key w =
      reconcile-keeps (logging R) LogIsOwned logging-safe key (w, []) tt
