-- ===== src/Examples/Outcomes.antt =====
-- What reconciliations of concrete instances return, on the cluster in memory.
use talon_db_k8s_operator.Base.{
  String, ◌<>◌, ◌≡◌, ◌≢◌, ◌↔◌, refl, arith, true, some, List, [], ◌∷◌, ==_iff, string_dec,
}
use talon_db_k8s_operator.Base.Int.{pos}
use talon_db_k8s_operator.Base.Lines.{quote}
use talon_db_k8s_operator.Kube.{StatefulSet}
use talon_db_k8s_operator.Api.{TlnDb}
use talon_db_k8s_operator.Resources.StatefulSet.{build_stateful_set, build_stateful_set_with}
use talon_db_k8s_operator.Controller.Exec.{Error, ok, err, not_found}
use talon_db_k8s_operator.Controller.Environment.{Key, Session}
use talon_db_k8s_operator.Controller.Apply.{key_of}
use talon_db_k8s_operator.Controller.Calls.{steps}
use talon_db_k8s_operator.Controller.Status.{
  set_phase, done, after_seconds, desired_replicas, observed_status, primary_stateful_set_name,
  sync_status, set_condition,
}
use talon_db_k8s_operator.Controller.Provision.{
  external_config_error, reconcile_rbac, reconcile_config, reconcile_service_monitor,
  reconcile_resources,
}
use talon_db_k8s_operator.Controller.{reconcile_live, reconcile_deletion}
use talon_db_k8s_operator.Resources.Common.{finalizer_name}
use talon_db_k8s_operator.Controller.Success.{remove, finalizer_update, reconcile_deletion-releases}
use talon_db_k8s_operator.Controller.Outcomes.{
  ShowsPhase, IsRolledOut, failure, reconcile_service_monitor-ok, sync_status-done,
  reconcile_live-raises,
}
use talon_db_k8s_operator.Examples.Fixture.{platform, default_spec, standalone}
use talon_db_k8s_operator.Examples.Cluster.{in_memory}

-- A set whose one pod is ready.
abbrev pub ready_set : StatefulSet platform
ready_set = record (build_stateful_set standalone "h") {
  status = record { observed_generation = pos 0; ready_replicas = pos 1 };
}

abbrev started : Session in_memory
started = record {
  world = record { instance_stored = standalone; sets = ready_set ∷ []; services = [] };
  instance_in_memory = standalone;
  events = [];
}

-- An instance that names a ConfigMap that does not exist, and its own service account.
abbrev misconfigured : TlnDb platform
misconfigured = record standalone {
  spec = record default_spec { config_from = some "absent"; service_account_name = "custom" };
  status = record standalone.status { phase = "Pending" };
}

abbrev doomed : Session in_memory
doomed = record {
  world = record { instance_stored = misconfigured; sets = []; services = [] };
  instance_in_memory = misconfigured;
  events = [];
}

abbrev config_error : Error
config_error = record {
  reason = not_found;
  message = "external ConfigMap " <> quote (λ code. true) "absent" <> " not found: not found";
}

provisioning_fails : (reconcile_resources in_memory doomed).0 ≡ err config_error
unfolding reconcile_resources reconcile_rbac reconcile_config external_config_error set_condition
    steps string_dec
provisioning_fails = refl

has_phase : misconfigured.status.phase ≢ ""
unfolding string_dec
has_phase e = ground (arith, (==_iff "Pending" "").1 e)

reconcile_service_monitor-ok_example :
    (names : List String) × ((reconcile_service_monitor in_memory started).0 ≡ ok names)
reconcile_service_monitor-ok_example = reconcile_service_monitor-ok in_memory started

set_is_read :
    in_memory.stateful_sets.get
      (record { namespace = "shop"; name = primary_stateful_set_name standalone })
      started.world
    ≡ (ok ready_set, started.world)
unfolding primary_stateful_set_name build_stateful_set build_stateful_set_with string_dec
set_is_read = refl

sync_status-done_example :
    (((sync_status in_memory started).0 ≡ ok done)
      ↔ IsRolledOut ready_set (desired_replicas standalone))
    × (((sync_status in_memory started).0 ≡ ok (after_seconds 10))
        ↔ ¬ IsRolledOut ready_set (desired_replicas standalone))
sync_status-done_example =
    sync_status-done in_memory started ready_set started.world
      (observed_status in_memory ready_set standalone) set_is_read refl

shows_phase : ShowsPhase in_memory
shows_phase = record { patched = λ base inst w. (inst, inst, refl, refl, refl) }

reconcile_live-raises_example :
    (found : TlnDb platform) × ((reconcile_live in_memory doomed).0 ≡ err config_error)
    × ((reconcile_live in_memory doomed).1.events
        ≡ failure in_memory config_error ∷ (reconcile_resources in_memory doomed).1.events)
    × ((in_memory.instances.get
          (key_of (reconcile_resources in_memory doomed).1.instance_in_memory.meta)
          (reconcile_live in_memory doomed).1.world).0
        ≡ ok found)
    × (found.status.phase ≡ "Failed")
reconcile_live-raises_example =
    reconcile_live-raises in_memory shows_phase doomed config_error has_phase provisioning_fails

-- An instance that is being deleted.
abbrev dying : Session in_memory
dying = record doomed {
  instance_in_memory = record misconfigured {
    meta = record misconfigured.meta {
      finalizers = finalizer_name ∷ [];
      deletion_timestamp = some 7;
    };
  };
}

dying_is_ours :
    in_memory.contains_finalizer dying.instance_in_memory.meta.finalizers finalizer_name ≡ true
unfolding string_dec
dying_is_ours = refl

deletion_succeeds :
    reconcile_deletion in_memory dying ≡ (ok done, (reconcile_deletion in_memory dying).1)
unfolding reconcile_deletion set_phase steps string_dec
deletion_succeeds = refl

reconcile_deletion-releases_example :
    (s' : Session in_memory) × (answer : TlnDb platform) × (finalizer_update in_memory
        (remove in_memory)
        s'.instance_in_memory
        s'.world
      ≡ (ok answer, (reconcile_deletion in_memory dying).1.world))
reconcile_deletion-releases_example =
    reconcile_deletion-releases in_memory dying (reconcile_deletion in_memory dying).1 done
      dying_is_ours deletion_succeeds

abbrev pub orders_key : Key
orders_key = record { namespace = "shop"; name = "orders" }
