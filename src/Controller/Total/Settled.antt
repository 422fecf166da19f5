-- ===== src/Controller/Total/Settled.antt =====
-- internal/controller/tlndb_controller.go: a reconciliation after the StatefulSet has rolled out.
use talon_db_k8s_operator.Base.{String, ◌≡◌, refl, ap, ◌∙◌, inl, inr, true, List, ◌==◌, Bool-cases}
use talon_db_k8s_operator.Kube.{Platform, StatefulSet}
use talon_db_k8s_operator.Api.{phase_running, TlnDb}
use talon_db_k8s_operator.Resources.Common.{finalizer_name}
use talon_db_k8s_operator.Controller.Exec.{ok, attempt, ◌>>=◌}
use talon_db_k8s_operator.Controller.Environment.{Key, Runtime, Session}
use talon_db_k8s_operator.Controller.Calls.{steps}
use talon_db_k8s_operator.Controller.Status.{
  done, primary_stateful_set_name, desired_replicas, phase_of, observed_status, with_condition,
  sync_status,
}
use talon_db_k8s_operator.Controller.Outcomes.{IsRolledOut, phase_of_running, sync_status-done}
use talon_db_k8s_operator.Controller.Provision.{reconcile_resources}
use talon_db_k8s_operator.Controller.Managed.{managed_names}
use talon_db_k8s_operator.Controller.Total.{Reaches, Yields-the_instance, Reaches-bind}
use talon_db_k8s_operator.Controller.Total.Steps.{Succeeds-when}
use talon_db_k8s_operator.Controller.Total.Healthy.{Healthy, SameAs, same_refl, same_trans}
use talon_db_k8s_operator.Controller.Total.Status.{set_phase-Succeeds, observed_same}
use talon_db_k8s_operator.Controller.Total.Resources.{Records, reconcile_resources-Reaches}
use talon_db_k8s_operator.Controller.Total.Workload.{ExternalConfigFound}
use talon_db_k8s_operator.Controller.{time_is_zero, finish, reconcile_live, reconcile_instance}

abbrev pub primary_key : {K : Platform} → TlnDb K → Key
primary_key inst = record { namespace = inst.meta.namespace; name = primary_stateful_set_name inst }

-- Every read of the instance's primary StatefulSet finds it rolled out.
abbrev pub StaysRolledOut : {K : Platform} → Runtime K → TlnDb K → Type 0
StaysRolledOut {K} R inst =
    (w : R.World)
    → (sts : StatefulSet K) × ((R.stateful_sets.get (primary_key inst) w).0 ≡ ok sts)
      × IsRolledOut sts (desired_replicas inst)

primary_key-same :
    {K : Platform} (inst inst' : TlnDb K) → SameAs inst inst' → primary_key inst' ≡ primary_key inst
unfolding primary_stateful_set_name
primary_key-same inst inst' same = rw (same.name, same.namespace, same.spec) refl

desired_replicas-same :
    {K : Platform} (inst inst' : TlnDb K)
    → SameAs inst inst'
    → desired_replicas inst' ≡ desired_replicas inst
unfolding desired_replicas
desired_replicas-same inst inst' same = rw same.spec refl

module _ {K : Platform} (R : Runtime K) where
  StaysRolledOut-same :
      (inst inst' : TlnDb K) → SameAs inst inst' → StaysRolledOut R inst → StaysRolledOut R inst'
  StaysRolledOut-same inst inst' same steady w =
      let (sts, read, rolled) = steady w in
      (
        sts,
        ap (λ key. (R.stateful_sets.get key w).0) (primary_key-same inst inst' same) ∙ read,
        rw (desired_replicas-same inst inst' same) rolled,
      )

  sync_status-answer :
      (s : Session R) (sts : StatefulSet K) (answer : TlnDb K)
      → let inst = s.instance_in_memory in
        let (r, w) = R.stateful_sets.get (primary_key inst) s.world in
        r ≡ ok sts
        → (R.instances.patch_status inst (observed_status R sts inst) w).0 ≡ ok answer
        → (sync_status R s).1.instance_in_memory ≡ answer
  unfolding sync_status steps
  sync_status-answer s sts answer read patched =
      elim (Bool-cases (phase_of sts (desired_replicas s.instance_in_memory) == phase_running)) [
        | inl running ↦ rw (read, patched, running) refl
        | inr not_yet ↦ rw (read, patched, not_yet) refl
      ]

  Records-observed :
      (inst cur : TlnDb K) (names : List String) (sts : StatefulSet K)
      → Records inst names cur.status
      → Records inst names (observed_status R sts cur).status
  unfolding observed_status with_condition
  Records-observed inst cur names sts r = record {
    managed = r.managed;
    image = r.image;
    generation = r.generation;
  }

  observed_running :
      (cur : TlnDb K) (sts : StatefulSet K)
      → IsRolledOut sts (desired_replicas cur)
      → (observed_status R sts cur).status.phase ≡ phase_running
  unfolding observed_status with_condition
  observed_running cur sts rolled = (phase_of_running sts (desired_replicas cur)).1 rolled

  -- A state whose status reports the rollout
  abbrev Reports : TlnDb K → Session R → Type 0
  Reports inst s =
      Records inst (managed_names R inst) s.instance_in_memory.status
      × (s.instance_in_memory.status.phase ≡ phase_running)

  sync_status-Reports :
      (inst : TlnDb K) (s : Session R)
      → Healthy R
      → StaysRolledOut R inst
      → SameAs inst s.instance_in_memory
      → Records inst (managed_names R inst) s.instance_in_memory.status
      → ((sync_status R s).0 ≡ ok done)
        × Reports inst (sync_status R s).1
        × SameAs inst (sync_status R s).1.instance_in_memory
  sync_status-Reports inst s healthy steady same records =
      let cur = s.instance_in_memory in
      let (sts, read, rolled) = StaysRolledOut-same inst cur same steady s.world in
      let w = (R.stateful_sets.get (primary_key cur) s.world).1 in
      let (answer, patched, unchanged, status) =
        (healthy.patch_status cur (observed_status R sts cur)).at w in
      let last = sync_status-answer s sts answer read patched in
      let kept = ap (λ i. i.status) last ∙ status in
      (
        (sync_status-done R s sts w answer (λ i. (read i, w)) patched).0.1 rolled,
        (
          rw kept (Records-observed inst cur (managed_names R inst) sts records),
          rw kept (observed_running cur sts rolled),
        ),
        rw last (same_trans same (same_trans (observed_same R sts cur) unchanged)),
      )

  provisioned-Reports :
      (inst : TlnDb K)
      → Healthy R
      → StaysRolledOut R inst
      → ExternalConfigFound R inst
      → Reaches R inst
          (λ r s. (r ≡ done) × Reports inst s)
          (attempt (reconcile_resources R) >>= finish R)
  unfolding steps
  provisioned-Reports inst healthy steady found = record {
    at = λ s h.
        let (u, e, records, same) = (reconcile_resources-Reaches healthy found).at s h in
        let s' = (reconcile_resources R s).1 in
        let (answer, reports, same') = sync_status-Reports inst s' healthy steady same records in
        (done, rw e answer, rw e (refl, reports), rw e same');
  }

  reconcile_live-Reports :
      (inst : TlnDb K)
      → Healthy R
      → StaysRolledOut R inst
      → ExternalConfigFound R inst
      → Reaches R inst (λ r s. (r ≡ done) × Reports inst s) (reconcile_live R)
  unfolding reconcile_live
  reconcile_live-Reports inst healthy steady found = Reaches-bind Yields-the_instance λ inst' _.
      Reaches-bind (Succeeds-when _ (set_phase-Succeeds healthy _))
        λ _ _. provisioned-Reports inst healthy steady found

  -- On a healthy server, for an instance that is not under deletion and has the finalizer, whose
  -- external ConfigMap, if it names one, can be read, and whose StatefulSet stays rolled out: the
  -- reconciliation asks for no further one, and the status then has the phase Running, lists
  -- exactly the objects that the instance asks for, sorted, and shows its image and generation.
  pub reconcile_instance-settles :
      (s : Session R)
      → let inst = s.instance_in_memory in
        Healthy R
        → time_is_zero inst.meta.deletion_timestamp ≡ true
        → R.contains_finalizer inst.meta.finalizers finalizer_name ≡ true
        → ExternalConfigFound R inst
        → StaysRolledOut R inst
        → ((reconcile_instance R s).0 ≡ ok done)
          × Records inst (managed_names R inst) (reconcile_instance R s).1.instance_in_memory.status
          × ((reconcile_instance R s).1.instance_in_memory.status.phase ≡ phase_running)
  unfolding reconcile_instance steps
  reconcile_instance-settles s healthy alive ours found steady =
      let inst = s.instance_in_memory in
      let (r, e, (last, (records, running)), _) =
        (reconcile_live-Reports inst healthy steady found).at s (same_refl inst) in
      rw (alive, ours) (e ∙ ap ok last, records, running)
