-- ===== src/Examples/Controller.antt =====
-- The properties of the reconciler on the cluster in memory.
use talon_db_k8s_operator.Base.{String, ◌≡◌, refl, ◌⊎◌, inl, inr, List, [], ◌∷◌}
use talon_db_k8s_operator.Kube.{Service}
use talon_db_k8s_operator.Resources.Service.{build_service}
use talon_db_k8s_operator.Resources.Common.{finalizer_name}
use talon_db_k8s_operator.Controller.Environment.{Key, Session}
use talon_db_k8s_operator.Controller.Safety.Calls.{SafeKind, SafeInstance, SafeCalls, IsOwned}
use talon_db_k8s_operator.Controller.Safety.Owned.{logging, reconcile-creates-IsOwned}
use talon_db_k8s_operator.Base.Each.{EachIs}
use talon_db_k8s_operator.Controller.Safety.Whole.{reconcile-keeps, reconcile_instance-keeps_own}
use talon_db_k8s_operator.Controller.{reconcile, reconcile_instance}
use talon_db_k8s_operator.Examples.Fixture.{platform, standalone, with_followers}
use talon_db_k8s_operator.Examples.Cluster.{Cluster, in_memory, accepting}

-- A Service of this name exists.
abbrev HasService : String → List (Service platform) → Type 0
HasService name [] = ⊥
HasService name (service ∷ services) = (service.meta.name ≡ name) ⊎ HasService name services

abbrev KeepsService : Cluster → Type 0
KeepsService w = HasService "orders" w.services

safe_accepting : {T : Type 0} {Made : T → Type 0} → SafeKind KeepsService Made (accepting {T = T})
safe_accepting = record {
  get = λ key. record { at = λ w h. h };
  create = λ object made. record { at = λ w h. h };
  update = λ object. record { at = λ w h. h };
}

safe_instance : SafeInstance KeepsService in_memory.instances
safe_instance = record {
  get = λ key. record { at = λ w h. h };
  update = λ inst. record { at = λ w h. h };
  patch_status = λ base inst. record { at = λ w h. h };
}

safe_in_memory : SafeCalls in_memory KeepsService
safe_in_memory = record {
  instances = safe_instance;
  stateful_sets = record {
    get = λ key. record { at = λ w h. h };
    create = λ object made. record { at = λ w h. h };
    update = λ object. record { at = λ w h. h };
  };
  services = record {
    get = λ key. record { at = λ w h. h };
    create = λ object made. record { at = λ w h. inr h };
    update = λ object. record { at = λ w h. inr h };
  };
  config_maps = safe_accepting;
  service_accounts = safe_accepting;
  roles = safe_accepting;
  role_bindings = safe_accepting;
  ingresses = safe_accepting;
  network_policies = safe_accepting;
  pod_disruption_budgets = safe_accepting;
  autoscalers = safe_accepting;
  service_monitors = safe_accepting;
  delete_follower = λ inst sts w read. record { at = λ v h. h };
}

abbrev orders : Key
orders = record { namespace = "shop"; name = "orders" }

-- A replicated instance beside its write Service.
abbrev running : Cluster
running = record {
  instance_stored = record with_followers {
    meta = record with_followers.meta { finalizers = finalizer_name ∷ [] };
  };
  sets = [];
  services = build_service with_followers ∷ [];
}

-- An instance that is not yet under the operator's finalizer.
abbrev created : Session in_memory
created = record {
  world = record {
    instance_stored = standalone;
    sets = [];
    services = build_service standalone ∷ [];
  };
  instance_in_memory = standalone;
  events = [];
}

has_orders : HasService "orders" (build_service with_followers ∷ [])
unfolding build_service
has_orders = inl refl

has_orders_alone : HasService "orders" (build_service standalone ∷ [])
unfolding build_service
has_orders_alone = inl refl

reconcile-keeps_example : HasService "orders" (reconcile in_memory orders running).world.services
reconcile-keeps_example =
    reconcile-keeps in_memory KeepsService safe_in_memory orders running has_orders

reconcile_instance-keeps_own_example :
    HasService "orders" (reconcile_instance in_memory created).1.world.services
reconcile_instance-keeps_own_example =
    reconcile_instance-keeps_own in_memory KeepsService safe_instance created refl has_orders_alone

reconcile-creates-IsOwned_example :
    EachIs (IsOwned in_memory) (reconcile (logging in_memory) orders (running, [])).world.1
reconcile-creates-IsOwned_example = reconcile-creates-IsOwned in_memory orders running
