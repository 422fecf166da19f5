-- ===== src/Examples/Healthy.antt =====
-- The cluster in memory answers every call.
use talon_db_k8s_operator.Base.{
  String, ◌≡◌, refl, ◌⊎◌, inl, inr, true, List, [], ◌∷◌, arith, Bool-cases, string_dec, ◌==◌,
}
use talon_db_k8s_operator.Kube.{StatefulSet, Service}
use talon_db_k8s_operator.Api.{TlnDb, phase_running}
use talon_db_k8s_operator.Resources.Common.{finalizer_name}
use talon_db_k8s_operator.Resources.StatefulSet.{build_stateful_set, build_stateful_set_with}
use talon_db_k8s_operator.Controller.Exec.{Result, ok, err, not_found}
use talon_db_k8s_operator.Controller.Environment.{Key, KindClient, Runtime, Session}
use talon_db_k8s_operator.Controller.Status.{Requeue, done, desired_replicas}
use talon_db_k8s_operator.Controller.Provision.{reconcile_resources}
use talon_db_k8s_operator.Controller.Managed.{managed_names}
use talon_db_k8s_operator.Controller.Total.Healthy.{Healthy, HealthyKind, same_refl}
use talon_db_k8s_operator.Controller.Total.Resources.{Records, reconcile_resources-manages}
use talon_db_k8s_operator.Controller.Total.Workload.{ExternalConfigFound}
use talon_db_k8s_operator.Controller.Total.Whole.{IsRegular, reconcile-answers}
use talon_db_k8s_operator.Base.Each.{EachIs}
use talon_db_k8s_operator.Controller.Watches.Covers.{
  IsWatched, IsMonitor, managed_resources-IsWatched,
}
use talon_db_k8s_operator.Controller.Total.Settled.{StaysRolledOut, reconcile_instance-settles}
use talon_db_k8s_operator.Controller.{reconcile, reconcile_instance}
use talon_db_k8s_operator.Examples.Fixture.{platform, with_followers}
use talon_db_k8s_operator.Examples.Cluster.{
  Cluster, in_memory, accepting, find_set, find_service, is_at,
}
use talon_db_k8s_operator.Examples.Outcomes.{ready_set}

healthy_accepting : {T : Type 0} → HealthyKind (accepting {W = Cluster} {T = T})
healthy_accepting = record {
  get = λ key. record { at = λ w. inr ("not found", refl) };
  create = λ object. record { at = λ w. (tt, refl) };
  update = λ object. record { at = λ w. (tt, refl) };
  delete = λ object. record { at = λ w. (tt, refl) };
}

-- What a search of a list answers.
abbrev FoundOrMissing : {T : Type 0} → Result T → Type 0
FoundOrMissing {T} r =
    ((t : T) × (r ≡ ok t))
    ⊎ ((message : String) × (r ≡ err (record { reason = not_found; message = message })))

find_set-FoundOrMissing :
    (key : Key) (sets : List (StatefulSet platform)) → FoundOrMissing (find_set key sets)
find_set-FoundOrMissing key [] = inr ("not found", refl)
find_set-FoundOrMissing key (set ∷ sets) = elim (Bool-cases (is_at key set.meta)) [
  | inl here ↦ inl (set, rw here refl)
  | inr later ↦ rw later (find_set-FoundOrMissing key sets)
]

find_service-FoundOrMissing :
    (name : String) (services : List (Service platform))
    → FoundOrMissing (find_service name services)
find_service-FoundOrMissing name [] = inr ("not found", refl)
find_service-FoundOrMissing name (service ∷ services) =
    elim (Bool-cases (service.meta.name == name)) [
      | inl here ↦ inl (service, rw here refl)
      | inr later ↦ rw later (find_service-FoundOrMissing name services)
    ]

-- The cluster in memory, with another client at the StatefulSets.
abbrev cluster_with : KindClient Cluster (StatefulSet platform) → Runtime platform
cluster_with client = record in_memory { stateful_sets = client }

answers_with :
    (client : KindClient Cluster (StatefulSet platform))
    → HealthyKind client
    → Healthy (cluster_with client)
answers_with client sets = record {
  patch_status = λ base inst. record { at = λ w. (inst, refl, same_refl inst, refl) };
  stateful_sets = sets;
  services = record {
    get = λ key. record { at = λ w. find_service-FoundOrMissing key.name w.services };
    create = λ object. record { at = λ w. (tt, refl) };
    update = λ object. record { at = λ w. (tt, refl) };
    delete = λ object. record { at = λ w. (tt, refl) };
  };
  config_maps = healthy_accepting;
  service_accounts = healthy_accepting;
  roles = healthy_accepting;
  role_bindings = healthy_accepting;
  ingresses = healthy_accepting;
  network_policies = healthy_accepting;
  pod_disruption_budgets = healthy_accepting;
  autoscalers = healthy_accepting;
  service_monitors = healthy_accepting;
  set_controller_reference = λ inst meta inside unowned. (_, refl);
}

pub in_memory_answers : Healthy in_memory
in_memory_answers = answers_with in_memory.stateful_sets (record {
  get = λ key. record { at = λ w. find_set-FoundOrMissing key w.sets };
  create = λ object. record { at = λ w. (tt, refl) };
  update = λ object. record { at = λ w. (tt, refl) };
  delete = λ object. record { at = λ w. (tt, refl) };
})

-- The instance is under the operator's finalizer.
abbrev adopted : TlnDb platform
adopted = record with_followers {
  meta = record with_followers.meta { finalizers = finalizer_name ∷ [] };
}

abbrev empty_cluster : Cluster
empty_cluster = record { instance_stored = adopted; sets = []; services = [] }

no_external : ExternalConfigFound in_memory adopted
no_external name e = absurd cc

adopted_is_ours : in_memory.contains_finalizer adopted.meta.finalizers finalizer_name ≡ true
unfolding string_dec
adopted_is_ours = refl

abbrev start : Session in_memory
start = record { world = empty_cluster; instance_in_memory = adopted; events = [] }

reconcile_resources-manages_example :
    ((reconcile_resources in_memory start).0 ≡ ok tt)
    × Records adopted
        (managed_names in_memory adopted)
        (reconcile_resources in_memory start).1.instance_in_memory.status
reconcile_resources-manages_example =
    reconcile_resources-manages in_memory_answers start (same_refl adopted) no_external

managed_resources-IsWatched_example :
    EachIs
      (λ entry. IsWatched entry ⊎ IsMonitor entry)
      (reconcile_resources in_memory start).1.instance_in_memory.status.managed_resources
managed_resources-IsWatched_example =
    managed_resources-IsWatched in_memory start in_memory_answers no_external

abbrev orders : Key
orders = record { namespace = "shop"; name = "orders" }

reconcile-answers_example :
    (r : Requeue) × ((reconcile in_memory orders empty_cluster).result ≡ ok r) × IsRegular r
reconcile-answers_example =
    reconcile-answers in_memory orders empty_cluster empty_cluster adopted in_memory_answers refl
      refl adopted_is_ours no_external

-- The same cluster, where StatefulSets have rolled out.
abbrev rolled_out_sets : KindClient Cluster (StatefulSet platform)
rolled_out_sets = record in_memory.stateful_sets { get = λ key w. (ok ready_set, w) }

abbrev rolled_out : Runtime platform
rolled_out = cluster_with rolled_out_sets

rolled_out_answers : Healthy rolled_out
rolled_out_answers = answers_with rolled_out_sets (record {
  get = λ key. record { at = λ w. inl (ready_set, refl) };
  create = λ object. record { at = λ w. (tt, refl) };
  update = λ object. record { at = λ w. (tt, refl) };
  delete = λ object. record { at = λ w. (tt, refl) };
})

stays_rolled_out : StaysRolledOut rolled_out adopted
unfolding desired_replicas string_dec build_stateful_set build_stateful_set_with
stays_rolled_out w = (ready_set, refl, (omega arith, omega arith))

abbrev settled : Session rolled_out
settled = record { world = empty_cluster; instance_in_memory = adopted; events = [] }

reconcile_instance-settles_example :
    ((reconcile_instance rolled_out settled).0 ≡ ok done)
    × Records adopted
        (managed_names rolled_out adopted)
        (reconcile_instance rolled_out settled).1.instance_in_memory.status
    × ((reconcile_instance rolled_out settled).1.instance_in_memory.status.phase ≡ phase_running)
reconcile_instance-settles_example =
    reconcile_instance-settles rolled_out settled rolled_out_answers refl adopted_is_ours
      no_external stays_rolled_out
