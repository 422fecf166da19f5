-- ===== src/Controller/Converge/Scaled.antt =====
-- internal/controller/tlndb_controller.go: `createOrUpdateStatefulSet` of a set whose replicas
-- another party, such as the autoscaler of internal/resources/hpa.go, has changed.
use mathlib.Core.Bool.{false≢true}
use talon_db_k8s_operator.Base.{
  String, ◌≡◌, refl, true, false, some, inl, inr, sym, ◌∙◌, Bool-cases,
}
use talon_db_k8s_operator.Kube.{Platform, ObjectMeta, StatefulSet}
use talon_db_k8s_operator.Resources.StatefulSet.{
  build_stateful_set, build_stateful_set_with, replicas_or_one,
}
use talon_db_k8s_operator.Controller.Exec.{ok}
use talon_db_k8s_operator.Controller.Environment.{Runtime, Session}
use talon_db_k8s_operator.Controller.Apply.{
  key_of, stateful_set_needs_update, create_or_update_stateful_set,
}
use talon_db_k8s_operator.Controller.Converge.Quiet.{QuietSets}
use talon_db_k8s_operator.Controller.Converge.{left_settled}

module _ {K : Platform} (R : Runtime K) where
  -- A set that needs no update has the desired replicas.
  replicas-current :
      (found desired : StatefulSet K)
      → stateful_set_needs_update R found desired ≡ false
      → R.equal_replicas found.spec.replicas desired.spec.replicas ≡ true
  unfolding stateful_set_needs_update
  replicas-current found desired current =
      elim (Bool-cases (R.equal_replicas found.spec.replicas desired.spec.replicas)) [
        | inl same ↦ same
        | inr differ ↦ absurd (false≢true (sym current ∙ rw differ refl))
      ]

  -- Of StatefulSets that read back as they were written (`QuietSets`), for a standalone instance,
  -- whether or not its autoscaler is enabled: whatever set the helper finds, with whatever number
  -- of replicas, if the owner reference can be set and the helper succeeds, then the set that is
  -- read afterwards has the replicas of the instance's `spec.replicas` (or one).
  pub create_or_update_stateful_set-reverts :
      QuietSets R
      → (s : Session R) (meta : ObjectMeta K) (hash : String)
      → let inst = s.instance_in_memory in
        let desired = build_stateful_set inst hash in
        R.set_controller_reference inst desired.meta ≡ ok meta
        → (create_or_update_stateful_set R desired s).0 ≡ ok tt
        → (found : StatefulSet K) × ((R.stateful_sets.get
              (key_of meta)
              (create_or_update_stateful_set R desired s).1.world).0
            ≡ ok found)
          × (R.equal_replicas found.spec.replicas (some (replicas_or_one inst.spec.replicas))
              ≡ true)
  unfolding build_stateful_set build_stateful_set_with
  create_or_update_stateful_set-reverts quiet s meta hash own fine =
      let desired = build_stateful_set s.instance_in_memory hash in
      let (found, read, current) = left_settled R quiet desired s meta own fine in
      (found, read, replicas-current found desired current)
