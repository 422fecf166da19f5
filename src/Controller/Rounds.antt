-- ===== src/Controller/Rounds.antt =====
-- internal/controller/tlndb_controller.go: the work queue calls `Reconcile` again at once while the
-- result asks for it.
pub mod Calm
pub mod Ends
use mathlib.Core.Bool.{false≢true}
use talon_db_k8s_operator.Base.{
  ℕ, zero, suc, String, ◌≡◌, refl, sym, ap, ◌∙◌, inl, inr, Bool, true, false, Option, none, some,
  List, [], if◌then◌else◌, Bool-cases,
}
use talon_db_k8s_operator.Kube.{Platform}
use talon_db_k8s_operator.Api.{TlnDb, phase_running}
use talon_db_k8s_operator.Resources.Common.{finalizer_name}
use talon_db_k8s_operator.Controller.Exec.{
  Reason, not_found, conflict, other, Error, Result, ok, err, Exec, pure, raise, when_found,
  continue, ◌>>=◌, ◌>>◌,
}
use talon_db_k8s_operator.Controller.Environment.{Key, Runtime, Session}
use talon_db_k8s_operator.Controller.Calls.{Reconcile, steps}
use talon_db_k8s_operator.Controller.Status.{Requeue, sync_status}
use talon_db_k8s_operator.Controller.Success.{
  bind-inverse, update_finalizers-inverse, finalizer_update,
}
use talon_db_k8s_operator.Controller.{
  Outcome, time_is_zero, requeue_now, with_finalizers, update_finalizers, reconcile_deletion,
  fail_with, finish, reconcile_live, reconcile_instance, dispatch, reconcile,
}

-- An error is retried with a growing delay; only the flag asks for a call at once.
abbrev pub asks_again : Result Requeue → Bool
asks_again (ok r) = r.requeue
asks_again (err e) = false

module _ {K : Platform} (R : Runtime K) where
  -- The calls of `Reconcile` for a key, until one does not ask for another; `none` where the given
  -- number of calls is not enough.
  unfoldable pub rounds : ℕ → Key → R.World → Option (Outcome R)
  rounds zero key w = none
  rounds (suc n) key w =
      let outcome = reconcile R key w in
      let rest = rounds n key outcome.world in
      if asks_again outcome.result then rest else some outcome

  -- An API server where an update of the finalizers is read back, and the documented behaviour of
  -- `controllerutil.AddFinalizer`.
  pub record KeepsFinalizers : Type 0 where
    pub added :
        (finalizers : List String)
        → R.contains_finalizer (R.add_finalizer finalizers finalizer_name) finalizer_name ≡ true
    pub read_back :
        (key : Key) (w w' w'' : R.World) (inst answer : TlnDb K) (finalizers : List String)
        → R.instances.get key w ≡ (ok inst, w')
        → R.instances.update (with_finalizers R finalizers inst) w' ≡ (ok answer, w'')
        → (found : TlnDb K) × ((R.instances.get key w'').0 ≡ ok found)
          × (found.meta.finalizers ≡ finalizers)
