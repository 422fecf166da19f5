-- ===== src/Controller.antt =====
-- internal/controller/tlndb_controller.go: `Reconcile` and the deletion of an instance.
pub mod Exec
pub mod Environment
pub mod Calls
pub mod Keeps
pub mod Apply
pub mod Status
pub mod Safety
pub mod Provision
pub mod Converge
pub mod Outcomes
pub mod Success
pub mod Managed
pub mod Watches
pub mod Total
pub mod Installs
pub mod Rounds
use talon_db_k8s_operator.Base.{
  ℕ, String, ◌<>◌, Bool, true, false, Option, none, some, List, [], ◌==◌, if◌then◌else◌, nat_eq,
}
use talon_db_k8s_operator.Kube.{Platform}
use talon_db_k8s_operator.Api.{phase_provisioning, phase_failed, phase_terminating, TlnDb}
use talon_db_k8s_operator.Resources.Common.{finalizer_name}
use Exec.{
  Reason, not_found, conflict, other, Error, Result, ok, err, pure, raise, attempt, when,
  ignore_error, ◌>>=◌, ◌>>◌,
}
use Environment.{Key, Runtime, Event, Session}
use Calls.{Reconcile, the_instance, set_instance, emit, call_instance}
use Status.{Requeue, done, set_phase, sync_status}
use Provision.{reconcile_resources}

-- `DeletionTimestamp.IsZero()`, of a pointer that may be nil
abbrev pub time_is_zero : Option ℕ → Bool
time_is_zero none = true
time_is_zero (some t) = nat_eq t 0

abbrev pub requeue_now : Requeue
requeue_now = record { requeue = true; requeue_after = 0 }

module _ {K : Platform} (R : Runtime K) where
  abbrev pub with_finalizers : List String → TlnDb K → TlnDb K
  with_finalizers finalizers inst = record inst {
    meta = record inst.meta { finalizers = finalizers };
  }

  -- `r.Update(ctx, instance)` after a change of its finalizers in memory.
  abbrev pub update_finalizers : (List String → List String) → Reconcile R Unit
  update_finalizers change = do
    inst ← the_instance R
    let changed = with_finalizers (change inst.meta.finalizers) inst
    set_instance R changed
    call_instance R (R.instances.update changed)

  unfoldable pub reconcile_deletion : Reconcile R Requeue
  reconcile_deletion = do
    inst ← the_instance R
    when (R.contains_finalizer inst.meta.finalizers finalizer_name) (do
      set_phase R phase_terminating
      update_finalizers (λ finalizers. R.remove_finalizer finalizers finalizer_name))
    pure done

  -- What follows a failure of `reconcileResources`.
  unfoldable pub fail_with : Error → Reconcile R Requeue
  fail_with e = do
    emit R "Warning" "ReconcileError" ("Failed to reconcile resources: " <> e.message)
    ignore_error (set_phase R phase_failed)
    raise e

  abbrev pub finish : Result Unit → Reconcile R Requeue
  finish (ok _) = sync_status R
  finish (err e) = fail_with e

  unfoldable pub reconcile_live : Reconcile R Requeue
  reconcile_live = do
    inst ← the_instance R
    when (inst.status.phase == "") (set_phase R phase_provisioning)
    outcome ← attempt (reconcile_resources R)
    finish outcome

  unfoldable pub reconcile_instance : Reconcile R Requeue
  reconcile_instance = do
    inst ← the_instance R
    if time_is_zero inst.meta.deletion_timestamp
        then (if R.contains_finalizer inst.meta.finalizers finalizer_name
            then reconcile_live
            else (do
              update_finalizers (λ finalizers. R.add_finalizer finalizers finalizer_name)
              pure requeue_now))
        else reconcile_deletion

  -- The result for the work queue, the cluster, and the events.
  pub record Outcome : Type 0 where
    pub result : Result Requeue
    pub world : R.World
    pub events : List Event

  abbrev pub outcome_of : Result Requeue × Session R → Outcome
  outcome_of (r, s) = record { result = r; world = s.world; events = s.events }

  abbrev pub dispatch : Result (TlnDb K) → R.World → Outcome
  dispatch (ok inst) w =
      outcome_of (reconcile_instance (record { world = w; instance_in_memory = inst; events = [] }))
  dispatch (err e) w = elim e.reason [
    | not_found ↦ record { result = ok done; world = w; events = [] }
    | _ ↦ record { result = err e; world = w; events = [] }
  ]

  unfoldable pub reconcile : Key → R.World → Outcome
  reconcile key w = let (answer, w') = R.instances.get key w in dispatch answer w'
