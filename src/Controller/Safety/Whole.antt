-- ===== src/Controller/Safety/Whole.antt =====
-- What the cluster keeps through a whole call of `Reconcile`.
use talon_db_k8s_operator.Base.{String, Bool, true, false, ◌&&◌, if◌then◌else◌, ◌≡◌, List, arith}
use talon_db_k8s_operator.Kube.{Platform}
use talon_db_k8s_operator.Api.{TlnDb}
use talon_db_k8s_operator.Resources.Common.{finalizer_name}
use talon_db_k8s_operator.Controller.Exec.{Exec, pure, ◌>>◌, Error, Result, ok, err}
use talon_db_k8s_operator.Controller.Environment.{Key, Runtime, Session}
use talon_db_k8s_operator.Controller.Calls.{steps}
use talon_db_k8s_operator.Controller.Keeps.{
  Keeps, Keeps-bind, Keeps-the_instance, Keeps-when, Keeps-attempt, Keeps-if, Keeps-pure,
  keeps_rules,
}
use talon_db_k8s_operator.Controller.Status.{patch_status, set_phase}
use talon_db_k8s_operator.Controller.Safety.Calls.{SafeCalls, SafeInstance}
use talon_db_k8s_operator.Controller.Safety.Provision.{sync_status-Keeps, reconcile_resources-Keeps}
use talon_db_k8s_operator.Controller.{
  time_is_zero, requeue_now, update_finalizers, reconcile_deletion, fail_with, finish,
  reconcile_live, reconcile_instance, dispatch, reconcile,
}

-- Calls at the custom resource alone.
module _ {K : Platform} (R : Runtime K) {P : R.World → Type 0}
    (safe : SafeInstance P R.instances) where
  own_status-Keeps : (change : TlnDb K → TlnDb K) → Keeps R P (patch_status R change)
  own_status-Keeps change = search (keeps_rules, safe.patch_status) depth 7

  own_phase-Keeps : (phase : String) → Keeps R P (set_phase R phase)
  unfolding set_phase
  own_phase-Keeps phase = search (keeps_rules, own_status-Keeps) depth 7

  update_finalizers-Keeps :
      (change : List String → List String) → Keeps R P (update_finalizers R change)
  update_finalizers-Keeps change = search (keeps_rules, safe.update) depth 7

  -- the first reconciliation of an instance
  fresh-Keeps : Keeps R P (do
    update_finalizers R (λ finalizers. R.add_finalizer finalizers finalizer_name)
    pure requeue_now)
  fresh-Keeps = Keeps-bind (update_finalizers-Keeps _) λ _. Keeps-pure requeue_now

  pub reconcile_deletion-Keeps : Keeps R P (reconcile_deletion R)
  unfolding reconcile_deletion
  reconcile_deletion-Keeps = search (keeps_rules, own_phase-Keeps, update_finalizers-Keeps) depth 9

module _ {K : Platform} {R : Runtime K} {P : R.World → Type 0} (safe : SafeCalls R P) where
  fail_with-Keeps : (e : Error) → Keeps R P (fail_with R e)
  unfolding fail_with
  fail_with-Keeps e = search (keeps_rules, own_phase-Keeps R safe.instances) depth 7

  finish-Keeps : (outcome : Result Unit) → Keeps R P (finish R outcome)
  finish-Keeps (ok _) = sync_status-Keeps safe
  finish-Keeps (err e) = fail_with-Keeps e

  reconcile_live-Keeps : Keeps R P (reconcile_live R)
  unfolding reconcile_live
  reconcile_live-Keeps = Keeps-bind Keeps-the_instance λ inst.
      Keeps-bind (Keeps-when _ (own_phase-Keeps R safe.instances _))
        λ _. Keeps-bind (Keeps-attempt (reconcile_resources-Keeps safe)) finish-Keeps

  reconcile_instance-Keeps : Keeps R P (reconcile_instance R)
  unfolding reconcile_instance
  reconcile_instance-Keeps = Keeps-bind Keeps-the_instance λ inst.
      Keeps-if _ (Keeps-if _ reconcile_live-Keeps (fresh-Keeps R safe.instances))
        (reconcile_deletion-Keeps R safe.instances)

  dispatch-Keeps : (answer : Result (TlnDb K)) (w : R.World) → P w → P (dispatch R answer w).world
  dispatch-Keeps (ok inst) w h = reconcile_instance-Keeps.at _ h
  dispatch-Keeps (err e) w h = ground arith

-- A property of the cluster that no read, update or status patch breaks, no creation of an object
-- whose owner is set (or of a ServiceMonitor), and no deletion of a StatefulSet that was read
-- under an instance's follower name, holds after every call of `Reconcile`, on every path and
-- whatever fails.
pub reconcile-keeps :
    {K : Platform} (R : Runtime K) (P : R.World → Type 0)
    → SafeCalls R P
    → (key : Key) (w : R.World) → P w
    → P (reconcile R key w).world
unfolding reconcile
reconcile-keeps R P safe key w h =
    let (answer, w') = R.instances.get key w in
    dispatch-Keeps safe answer w' ((safe.instances.get key).at w h)

not_live-Keeps :
    {K : Platform} {R : Runtime K} {P : R.World → Type 0} {A : Type 0} (alive ours : Bool)
    (live : Exec (Session R) A) {fresh dying : Exec (Session R) A}
    → (alive && ours) ≡ false
    → Keeps R P fresh
    → Keeps R P dying
    → Keeps R P (if alive then (if ours then live else fresh) else dying)
not_live-Keeps true true live idle kf kd = ground arith
not_live-Keeps true false live idle kf kd = kf
not_live-Keeps false ours live idle kf kd = kd

-- For an instance under deletion, or one that lacks the finalizer, a reconciliation keeps every
-- property of the cluster that no read, update or status patch of the custom resource breaks,
-- whatever other calls would do to it.
pub reconcile_instance-keeps_own :
    {K : Platform} (R : Runtime K) (P : R.World → Type 0)
    → SafeInstance P R.instances
    → (s : Session R)
    → (time_is_zero s.instance_in_memory.meta.deletion_timestamp
        && R.contains_finalizer s.instance_in_memory.meta.finalizers finalizer_name)
      ≡ false
    → P s.world
    → P (reconcile_instance R s).1.world
unfolding reconcile_instance steps
reconcile_instance-keeps_own {K} R P safe s idle h =
    let inst = s.instance_in_memory in
    (not_live-Keeps {R = R} (time_is_zero inst.meta.deletion_timestamp)
        (R.contains_finalizer inst.meta.finalizers finalizer_name) (reconcile_live R) idle
        (fresh-Keeps R safe) (reconcile_deletion-Keeps R safe)).at
      s h
