-- ===== src/Controller/Status.antt =====
-- internal/controller/tlndb_controller.go: phases, conditions and `syncStatus`.
use talon_db_k8s_operator.Base.{ℕ, String, ◌<>◌, Bool, true, false, some, ◌==◌, if◌then◌else◌}
use talon_db_k8s_operator.Base.Int.{ℤ, pos, ltb_ℤ}
use talon_db_k8s_operator.Base.Decimal.{format_int}
use talon_db_k8s_operator.Kube.{Platform, StatefulSet}
use talon_db_k8s_operator.Api.{
  phase_provisioning, phase_running, phase_degraded, condition_stateful_set_ready, Condition, TlnDb,
}
use talon_db_k8s_operator.Resources.Common.{resource_name, leader_stateful_set_name, replicated}
use talon_db_k8s_operator.Resources.StatefulSet.{replicas_or_one}
use talon_db_k8s_operator.Controller.Exec.{
  pure, gets, ignore_conflict, ignore_error, when_found, ◌>>=◌, ◌>>◌,
}
use talon_db_k8s_operator.Controller.Environment.{Runtime}
use talon_db_k8s_operator.Controller.Calls.{
  Reconcile, the_instance, set_instance, call_instance, find,
}

-- `ctrl.Result`, the delay in seconds
pub record Requeue : Type 0 where
  pub requeue : Bool
  pub requeue_after : ℕ

abbrev pub done : Requeue
done = record { requeue = false; requeue_after = 0 }

abbrev pub after_seconds : ℕ → Requeue
after_seconds n = record { requeue = false; requeue_after = n }

module _ {K : Platform} where
  unfoldable pub primary_stateful_set_name : TlnDb K → String
  primary_stateful_set_name inst =
      if replicated inst then leader_stateful_set_name inst else resource_name inst

  -- The leader runs a single writer; standalone honors `spec.replicas`.
  unfoldable pub desired_replicas : TlnDb K → ℤ
  desired_replicas inst = if replicated inst then pos 1 else replicas_or_one inst.spec.replicas

  -- The switch of `syncStatus`.
  unfoldable pub phase_of : StatefulSet K → ℤ → String
  phase_of sts desired =
      if ltb_ℤ sts.status.observed_generation sts.meta.generation
      then phase_provisioning
      else if ltb_ℤ sts.status.ready_replicas desired
      then phase_degraded
      else phase_running

  -- The condition that goes with a phase.
  unfoldable pub ready_condition : TlnDb K → String → ℤ → Condition
  unfolding format_int
  ready_condition inst phase ready =
      let running = phase == phase_running in
      record {
        condition_type = condition_stateful_set_ready;
        status = if running then true else false;
        reason = if running then "StatefulSetReady" else "StatefulSetNotReady";
        message =
            format_int ready <> "/" <> format_int (desired_replicas inst) <> " replicas ready";
        observed_generation = inst.meta.generation;
      }

module _ {K : Platform} (R : Runtime K) where
  -- `patch := client.MergeFrom(instance.DeepCopy())`, the change, and `r.Status().Patch(…)`.
  abbrev pub patch_status : (TlnDb K → TlnDb K) → Reconcile R Unit
  patch_status change = do
    base ← the_instance R
    set_instance R (change base)
    call_instance R (R.instances.patch_status base (change base))

  unfoldable pub set_phase : String → Reconcile R Unit
  set_phase phase = do
    now ← gets (λ s. R.now s.world)
    ignore_conflict (
        patch_status λ inst. record inst {
          status = record inst.status { phase = phase; last_update_time = some now };
        })

  -- `setConditionOnInstance`: in memory only.
  unfoldable pub with_condition : Condition → TlnDb K → TlnDb K
  with_condition condition inst = record inst {
    status = record inst.status {
      conditions = R.set_status_condition inst.status.conditions condition;
    };
  }

  -- A failed patch is only logged.
  unfoldable pub set_condition : String → Bool → String → String → Reconcile R Unit
  unfolding with_condition
  set_condition condition_type status reason message = ignore_error (
      patch_status λ inst.
        with_condition
          (record {
            condition_type = condition_type;
            status = status;
            reason = reason;
            message = message;
            observed_generation = inst.meta.generation;
          })
          inst)

  -- What `syncStatus` writes to the status, from the set that it read.
  unfoldable pub observed_status : StatefulSet K → TlnDb K → TlnDb K
  unfolding with_condition phase_of desired_replicas ready_condition
  observed_status sts inst =
      let ready = sts.status.ready_replicas in
      let phase = phase_of sts (desired_replicas inst) in
      let seen = record inst {
        status = record inst.status { ready_replicas = ready; phase = phase };
      } in
      with_condition (ready_condition inst phase ready) seen

  unfoldable pub sync_status : Reconcile R Requeue
  unfolding primary_stateful_set_name observed_status
  sync_status = do
    inst ← the_instance R
    let name = primary_stateful_set_name inst
    found ← find R R.stateful_sets (record { namespace = inst.meta.namespace; name = name })
    when_found found (pure (after_seconds 5)) (λ sts. do
      ignore_conflict (patch_status (observed_status sts))
      let phase = phase_of sts (desired_replicas inst)
      if phase == phase_running then pure done else pure (after_seconds 10))
