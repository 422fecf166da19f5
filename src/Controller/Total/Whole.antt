-- ===== src/Controller/Total/Whole.antt =====
-- internal/controller/tlndb_controller.go: on a healthy server a reconciliation ends without an
-- error, and once the StatefulSet has rolled out it reports so and asks for no further one.
use talon_db_k8s_operator.Base.{◌≡◌, refl, ◌⊎◌, inl, inr, true, []}
use talon_db_k8s_operator.Kube.{Platform}
use talon_db_k8s_operator.Api.{TlnDb}
use talon_db_k8s_operator.Resources.Common.{finalizer_name}
use talon_db_k8s_operator.Controller.Exec.{ok}
use talon_db_k8s_operator.Controller.Environment.{Key, Runtime, Session}
use talon_db_k8s_operator.Controller.Calls.{steps}
use talon_db_k8s_operator.Controller.Status.{
  Requeue, done, after_seconds, observed_status, sync_status,
}
use talon_db_k8s_operator.Controller.Total.{
  Yields, Yields-with_instance, Yields-then, Yields-bind, Yields-pure, Yields-if, Yields-when_found,
  Yields-attempt,
}
use talon_db_k8s_operator.Controller.Total.Steps.{
  Succeeds-find, Succeeds-ignore_conflict, Succeeds-when,
}
use talon_db_k8s_operator.Controller.Total.Healthy.{Healthy, same_refl}
use talon_db_k8s_operator.Controller.Total.Status.{
  patch_status-Succeeds, set_phase-Succeeds, observed_same,
}
use talon_db_k8s_operator.Controller.Total.Resources.{reconcile_resources-Succeeds}
use talon_db_k8s_operator.Controller.Total.Workload.{ExternalConfigFound}
use talon_db_k8s_operator.Controller.{time_is_zero, reconcile_live, reconcile_instance, reconcile}

-- The work queue gets no further request, or one after five or ten seconds.
abbrev pub IsRegular : Requeue → Type 0
IsRegular r = (r ≡ done) ⊎ ((r ≡ after_seconds 5) ⊎ (r ≡ after_seconds 10))

module _ {K : Platform} {R : Runtime K} (healthy : Healthy R) {inst : TlnDb K} where
  sync_status-Yields : Yields R inst IsRegular (sync_status R)
  unfolding sync_status
  sync_status-Yields = Yields-with_instance λ inst' same.
      Yields-then (Succeeds-find _ _ (healthy.stateful_sets.get _)) λ found.
        Yields-when_found found (λ _. Yields-pure _ (inr (inl refl)))
          λ sts _.
            Yields-then
              (Succeeds-ignore_conflict
                (patch_status-Succeeds healthy (observed_status R sts) (observed_same R sts)))
              λ _. Yields-if _ (λ _. Yields-pure _ (inl refl)) (λ _. Yields-pure _ (inr (inr refl)))

  reconcile_live-Yields : ExternalConfigFound R inst → Yields R inst IsRegular (reconcile_live R)
  unfolding reconcile_live
  reconcile_live-Yields found = Yields-with_instance λ inst' same.
      Yields-then (Succeeds-when _ (set_phase-Succeeds healthy _)) λ _.
        Yields-bind (Yields-attempt (reconcile_resources-Succeeds healthy found))
          λ outcome (u, e, _). rw e sync_status-Yields

-- On a healthy server, for an instance that is not under deletion and has the finalizer, and whose
-- external ConfigMap, if it names one, can be read: `Reconcile` returns no error, and asks for no
-- further request or for one after five or ten seconds.
pub reconcile-answers :
    {K : Platform} (R : Runtime K) (key : Key) (w w' : R.World) (inst : TlnDb K)
    → Healthy R
    → R.instances.get key w ≡ (ok inst, w')
    → time_is_zero inst.meta.deletion_timestamp ≡ true
    → R.contains_finalizer inst.meta.finalizers finalizer_name ≡ true
    → ExternalConfigFound R inst
    → (r : Requeue) × ((reconcile R key w).result ≡ ok r) × IsRegular r
unfolding reconcile reconcile_instance steps
reconcile-answers R key w w' inst healthy read alive ours found =
    let s : Session R = record { world = w'; instance_in_memory = inst; events = [] } in
    let (r, e, regular, _) = (reconcile_live-Yields healthy found).at s (same_refl inst) in
    (r, rw (read, alive, ours) e, regular)
