-- ===== src/Controller/Outcomes.antt =====
-- internal/controller/tlndb_controller.go: what a reconciliation returns, and what it tells.
use mathlib.Core.Bool.{false≢true}
use text.Mathlib.TextEquality.{eq_iff}
use talon_db_k8s_operator.Base.{
  ℕ, ◌≤◌, String, ◌<>◌, ◌≡◌, ◌≢◌, refl, sym, ◌∙◌, ◌↔◌, some, inl, inr, List, [], ◌∷◌, arith,
  Bool-cases, ◌==◌, ==_iff,
}
use talon_db_k8s_operator.Base.Int.{ℤ, ◌≤ℤ◌, ltb_ℤ}
use talon_db_k8s_operator.Kube.{Platform, StatefulSet}
use talon_db_k8s_operator.Api.{phase_provisioning, phase_running, phase_degraded, TlnDb}
use talon_db_k8s_operator.Controller.Exec.{Error, Result, ok, err}
use talon_db_k8s_operator.Controller.Environment.{Runtime, Session, Event}
use talon_db_k8s_operator.Controller.Apply.{key_of}
use talon_db_k8s_operator.Controller.Calls.{steps}
use talon_db_k8s_operator.Controller.Status.{
  Requeue, done, after_seconds, primary_stateful_set_name, desired_replicas, phase_of,
  observed_status, sync_status, set_phase, set_condition,
}
use talon_db_k8s_operator.Controller.Provision.{
  reconcile_resources, reconcile_service_monitor, monitor_result,
}
use talon_db_k8s_operator.Controller.{fail_with, reconcile_live}

-- A StatefulSet has rolled out: its controller has seen the latest generation, and as many pods
-- are ready as are desired.
abbrev pub IsRolledOut : {K : Platform} → StatefulSet K → ℤ → Type 0
IsRolledOut sts desired =
    (sts.meta.generation ≤ℤ sts.status.observed_generation) × (desired ≤ℤ sts.status.ready_replicas)

provisioning-ne-running : phase_provisioning ≢ phase_running
provisioning-ne-running = ground (arith, eq_iff "Provisioning" "Running")

degraded-ne-running : phase_degraded ≢ phase_running
degraded-ne-running = ground (arith, eq_iff "Degraded" "Running")

-- The phase is Running exactly when the set has rolled out.
pub phase_of_running :
    {K : Platform} (sts : StatefulSet K) (desired : ℤ)
    → (phase_of sts desired ≡ phase_running) ↔ IsRolledOut sts desired
unfolding phase_of
phase_of_running sts desired =
    elim (Bool-cases (ltb_ℤ sts.status.observed_generation sts.meta.generation)) [
      | inl stale ↦
          rw stale (λ e. absurd (provisioning-ne-running e), λ (seen, ready). ground arith)
      | inr seen ↦ elim (Bool-cases (ltb_ℤ sts.status.ready_replicas desired)) [
        | inl few ↦ rw (seen, few) (λ e. absurd (degraded-ne-running e), λ (_, ready). ground arith)
        | inr enough ↦ rw (seen, enough) (λ _. (ground arith, ground arith), λ _. refl)
      ]
    ]

done-ne-after : {n : ℕ} → 1 ≤ n → ◌≢◌ {A = Result Requeue} (ok done) (ok (after_seconds n))
done-ne-after positive e = ground arith

module _ {K : Platform} (R : Runtime K) where
  monitor_result-ok :
      (name : String) (answer : Result Unit) (s : Session R)
      → (names : List String) × ((monitor_result R name answer s).0 ≡ ok names)
  unfolding set_condition steps
  monitor_result-ok name (ok _) s = (_, refl)
  monitor_result-ok name (err e) s = (_, refl)

  -- The ServiceMonitor block never fails, whatever the cluster answers: neither a missing resource
  -- definition nor any other error of the client stops a reconciliation there.
  pub reconcile_service_monitor-ok :
      (s : Session R) → (names : List String) × ((reconcile_service_monitor R s).0 ≡ ok names)
  unfolding reconcile_service_monitor steps
  reconcile_service_monitor-ok s =
      elim (Bool-cases s.instance_in_memory.spec.observability.metrics.service_monitor.enabled) [
        | inl on ↦ rw on (monitor_result-ok _ _ _)
        | inr off ↦ rw off ([], refl)
      ]

  -- When the primary set is read and the status patch succeeds, the work queue gets no further
  -- request exactly if the set has rolled out, and else a request after ten seconds.
  pub sync_status-done :
      (s : Session R) (sts : StatefulSet K) (w : R.World) (answer : TlnDb K)
      → let inst = s.instance_in_memory in
        R.stateful_sets.get
            (record { namespace = inst.meta.namespace; name = primary_stateful_set_name inst })
            s.world
          ≡ (ok sts, w)
        → (R.instances.patch_status inst (observed_status R sts inst) w).0 ≡ ok answer
        → (((sync_status R s).0 ≡ ok done) ↔ IsRolledOut sts (desired_replicas inst))
          × (((sync_status R s).0 ≡ ok (after_seconds 10))
              ↔ ¬ IsRolledOut sts (desired_replicas inst))
  unfolding sync_status steps
  sync_status-done s sts w answer read patched =
      elim (Bool-cases (phase_of sts (desired_replicas s.instance_in_memory) == phase_running)) [
        | inl running ↦
            rw (read, patched, running)
              let rolled =
                  (phase_of_running sts (desired_replicas s.instance_in_memory)).0
                    ((==_iff _ _).0 running) in
                (
                  (λ _. rolled, λ _. refl),
                  (
                    λ e. absurd (done-ne-after (omega arith) e),
                    λ not_rolled. absurd (not_rolled rolled),
                  ),
                )
        | inr not_yet ↦
            rw (read, patched, not_yet)
              let not_rolled = λ (rolled : IsRolledOut sts (desired_replicas s.instance_in_memory)).
                  false≢true (
                    sym not_yet
                    ∙ (==_iff _ _).1 (
                        (phase_of_running sts (desired_replicas s.instance_in_memory)).1 rolled)) in
                (
                  (
                    λ e. absurd (done-ne-after (omega arith) (sym e)),
                    λ rolled. absurd (not_rolled rolled),
                  ),
                  (λ _. not_rolled, λ _. refl),
                )
      ]

  abbrev pub failure : Error → Event
  failure e = record {
    event_type = "Warning";
    reason = "ReconcileError";
    message = "Failed to reconcile resources: " <> e.message;
  }

  -- An API server that accepts status patches, and from which a reader of the resource then gets
  -- the phase that was written.
  pub record ShowsPhase : Type 0 where
    pub patched :
        (base inst : TlnDb K) (w : R.World)
        → (answer : TlnDb K) × (found : TlnDb K) × ((R.instances.patch_status base inst w).0
            ≡ ok answer)
          × ((R.instances.get (key_of inst.meta) (R.instances.patch_status base inst w).1).0
              ≡ ok found)
          × (found.status.phase ≡ inst.status.phase)

  fail_with-raises :
      ShowsPhase
      → (e : Error) (s : Session R)
      → (found : TlnDb K) × ((fail_with R e s).0 ≡ err e)
        × ((fail_with R e s).1.events ≡ failure e ∷ s.events)
        × ((R.instances.get (key_of s.instance_in_memory.meta) (fail_with R e s).1.world).0
            ≡ ok found)
        × (found.status.phase ≡ "Failed")
  unfolding fail_with set_phase steps
  fail_with-raises server e s =
      let inst = s.instance_in_memory in
      let failed = record inst {
        status = record inst.status { phase = "Failed"; last_update_time = some (R.now s.world) };
      } in
      let (answer, found, accepted, read, phase) = server.patched inst failed s.world in
      (found, refl, rw accepted refl, rw accepted read, phase)

  -- Of an instance that has a phase, on a server that accepts status patches and shows them
  -- (`ShowsPhase`): when its provisioning fails, the reconciliation returns just that error, its
  -- last event is a warning with the error's text, and whoever reads the resource afterwards finds
  -- the phase Failed.
  pub reconcile_live-raises :
      ShowsPhase
      → (s : Session R) (e : Error) → s.instance_in_memory.status.phase ≢ ""
      → (reconcile_resources R s).0 ≡ err e
      → (found : TlnDb K) × ((reconcile_live R s).0 ≡ err e)
        × ((reconcile_live R s).1.events ≡ failure e ∷ (reconcile_resources R s).1.events)
        × ((R.instances.get
              (key_of (reconcile_resources R s).1.instance_in_memory.meta)
              (reconcile_live R s).1.world).0
            ≡ ok found)
        × (found.status.phase ≡ "Failed")
  unfolding reconcile_live steps
  reconcile_live-raises server s e phased failed =
      elim (Bool-cases (s.instance_in_memory.status.phase == "")) [
        | inl empty ↦ absurd (phased ((==_iff _ _).0 empty))
        | inr given ↦ rw (given, failed) (fail_with-raises server e (reconcile_resources R s).1)
      ]
