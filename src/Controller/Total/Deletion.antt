-- ===== src/Controller/Total/Deletion.antt =====
-- internal/controller/tlndb_controller.go: on a healthy server the deletion of an instance comes to
-- its end.
use talon_db_k8s_operator.Base.{
  String, ◌≡◌, refl, ap, sym, ◌∙◌, ◌⊎◌, inl, inr, true, false, List, [],
}
use talon_db_k8s_operator.Kube.{Platform}
use talon_db_k8s_operator.Api.{phase_terminating, TlnDb}
use talon_db_k8s_operator.Resources.Common.{finalizer_name}
use talon_db_k8s_operator.Controller.Exec.{not_found, ok, err}
use talon_db_k8s_operator.Controller.Environment.{Key, Runtime, Session}
use talon_db_k8s_operator.Controller.Calls.{steps}
use talon_db_k8s_operator.Controller.Status.{done, set_phase}
use talon_db_k8s_operator.Controller.Apply.{key_of}
use talon_db_k8s_operator.Controller.Total.Healthy.{Healthy, SameAs, same_refl}
use talon_db_k8s_operator.Controller.Total.Status.{set_phase-Succeeds}
use talon_db_k8s_operator.Controller.{
  time_is_zero, with_finalizers, reconcile_deletion, reconcile_instance, reconcile,
}

-- What a read finds after an update of an instance: the server removes an instance under deletion
-- that has no finalizer left.
abbrev pub GoneOrUpdated : {K : Platform} (R : Runtime K) → TlnDb K → R.World → Type 0
GoneOrUpdated {K} R inst w =
    ((message : String) × ((R.instances.get (key_of inst.meta) w).0
        ≡ err (record { reason = not_found; message = message })))
    ⊎ ((found : TlnDb K) × ((R.instances.get (key_of inst.meta) w).0 ≡ ok found)
        × (found.meta.finalizers ≡ inst.meta.finalizers)
        × (found.meta.deletion_timestamp ≡ inst.meta.deletion_timestamp))

-- Updates of an instance succeed and can be read back, and the documented behaviour of
-- `controllerutil.RemoveFinalizer`.
pub record Releases {K : Platform} (R : Runtime K) : Type 0 where
  pub removed :
      (finalizers : List String)
      → R.contains_finalizer (R.remove_finalizer finalizers finalizer_name) finalizer_name ≡ false
  pub update :
      (inst : TlnDb K) (w : R.World)
      → (answer : TlnDb K) × ((R.instances.update inst w).0 ≡ ok answer)
        × GoneOrUpdated R inst (R.instances.update inst w).1

key_same :
    {K : Platform} (inst cur : TlnDb K) → SameAs inst cur → key_of cur.meta ≡ key_of inst.meta
key_same inst cur same i = record { namespace = same.namespace i; name = same.name i }

module _ {K : Platform} (R : Runtime K) where
  -- Nothing is left to do for an instance that is gone, or that lacks the finalizer.
  abbrev pub IsFinished : Key → R.World → Type 0
  IsFinished key w =
      reconcile R key w
      ≡ record { result = ok done; world = (R.instances.get key w).1; events = [] }

  gone-IsFinished :
      (key : Key) (w : R.World) (message : String)
      → (R.instances.get key w).0 ≡ err (record { reason = not_found; message = message })
      → IsFinished key w
  unfolding reconcile
  gone-IsFinished key w message read = rw read refl

  released-IsFinished :
      (key : Key) (w : R.World) (found : TlnDb K)
      → (R.instances.get key w).0 ≡ ok found
      → time_is_zero found.meta.deletion_timestamp ≡ false
      → R.contains_finalizer found.meta.finalizers finalizer_name ≡ false
      → IsFinished key w
  unfolding reconcile reconcile_instance reconcile_deletion steps
  released-IsFinished key w found read dying free = rw (read, dying, free) refl

  updated-IsFinished :
      Releases R
      → (inst : TlnDb K) (w : R.World)
      → let changed =
          with_finalizers R (R.remove_finalizer inst.meta.finalizers finalizer_name) inst in
        time_is_zero inst.meta.deletion_timestamp ≡ false
        → GoneOrUpdated R changed w
        → IsFinished (key_of inst.meta) w
  updated-IsFinished releases inst w dying (inl (message, read)) =
      gone-IsFinished (key_of inst.meta) w message read
  updated-IsFinished releases inst w dying (inr (found, read, same, still)) =
      released-IsFinished (key_of inst.meta) w found read (ap time_is_zero still ∙ dying) (
        ap (λ finalizers. R.contains_finalizer finalizers finalizer_name) same
        ∙ releases.removed inst.meta.finalizers)

  IsFinished-key :
      (key key' : Key) (w : R.World) → key ≡ key' → IsFinished key w → IsFinished key' w
  IsFinished-key key key' w e h = rw (sym e) h

  deletion_run :
      Healthy R
      → Releases R
      → (s : Session R)
      → let inst = s.instance_in_memory in
        R.contains_finalizer inst.meta.finalizers finalizer_name ≡ true
        → time_is_zero inst.meta.deletion_timestamp ≡ false
        → ((reconcile_deletion R s).0 ≡ ok done)
          × IsFinished (key_of inst.meta) (reconcile_deletion R s).1.world
  unfolding reconcile_deletion steps
  deletion_run healthy releases s ours dying =
      let inst = s.instance_in_memory in
      let (u, e, _, same) = (set_phase-Succeeds healthy phase_terminating).at s (same_refl inst) in
      let s' = (set_phase R phase_terminating s).1 in
      let cur = s'.instance_in_memory in
      let changed = with_finalizers R (R.remove_finalizer cur.meta.finalizers finalizer_name) cur in
      let (answer, updated, back) = releases.update changed s'.world in
      let w = (R.instances.update changed s'.world).1 in
      let finished =
        IsFinished-key (key_of cur.meta) (key_of inst.meta) w (key_same inst cur same)
          (updated-IsFinished releases cur w (ap time_is_zero same.deletion ∙ dying) back) in
      rw (ours, e, updated) (refl, finished)

  -- On a healthy server, for an instance under deletion that has the operator's finalizer:
  -- `Reconcile` returns no error and no request for another call, and the next call finds nothing
  -- left to do: it makes no call but the read, emits no event and returns no error.
  pub reconcile-finishes :
      Healthy R
      → Releases R
      → (w w' : R.World) (inst : TlnDb K) → R.instances.get (key_of inst.meta) w ≡ (ok inst, w')
      → time_is_zero inst.meta.deletion_timestamp ≡ false
      → R.contains_finalizer inst.meta.finalizers finalizer_name ≡ true
      → let first = reconcile R (key_of inst.meta) w in
        (first.result ≡ ok done) × IsFinished (key_of inst.meta) first.world
  unfolding reconcile reconcile_instance steps
  reconcile-finishes healthy releases w w' inst read dying ours =
      rw (read, dying)
        (deletion_run healthy releases
          (record { world = w'; instance_in_memory = inst; events = [] }) ours dying)
