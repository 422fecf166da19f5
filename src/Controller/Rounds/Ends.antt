-- ===== src/Controller/Rounds/Ends.antt =====
-- internal/controller/tlndb_controller.go: only the call that adds the finalizer asks for another.
use mathlib.Core.Bool.{false≢true}
use talon_db_k8s_operator.Base.{
  String, ◌≡◌, refl, sym, ap, ◌∙◌, inl, inr, true, false, some, List, [], Bool-cases,
}
use talon_db_k8s_operator.Kube.{Platform}
use talon_db_k8s_operator.Api.{TlnDb}
use talon_db_k8s_operator.Resources.Common.{finalizer_name}
use talon_db_k8s_operator.Controller.Exec.{
  Reason, not_found, conflict, other, Result, ok, err, pure, ◌>>◌,
}
use talon_db_k8s_operator.Controller.Environment.{Key, Runtime, Session}
use talon_db_k8s_operator.Controller.Calls.{steps}
use talon_db_k8s_operator.Controller.Status.{Requeue}
use talon_db_k8s_operator.Controller.Success.{
  bind-inverse, update_finalizers-inverse, finalizer_update,
}
use talon_db_k8s_operator.Controller.{
  Outcome, time_is_zero, requeue_now, update_finalizers, reconcile_instance, dispatch, reconcile,
}
use talon_db_k8s_operator.Controller.Rounds.{asks_again, rounds, KeepsFinalizers}
use talon_db_k8s_operator.Controller.Rounds.Calm.{reconcile_live-Calm, reconcile_deletion-Calm}

abbrev add : {K : Platform} → Runtime K → List String → List String
add R finalizers = R.add_finalizer finalizers finalizer_name

-- An update has added the finalizer to the instance in memory.
abbrev Added : {K : Platform} (R : Runtime K) → Session R → R.World → Type 0
Added {K} R s w =
    (answer : TlnDb K) × (finalizer_update R (add R) s.instance_in_memory s.world ≡ (ok answer, w))

module _ {K : Platform} {R : Runtime K} where
  ours-Calm :
      (s : Session R)
      → R.contains_finalizer s.instance_in_memory.meta.finalizers finalizer_name ≡ true
      → asks_again (reconcile_instance R s).0 ≡ false
  unfolding reconcile_instance steps
  ours-Calm s ours = elim (Bool-cases (time_is_zero s.instance_in_memory.meta.deletion_timestamp)) [
    | inl alive ↦ rw (alive, ours) (reconcile_live-Calm.at s)
    | inr dying ↦ rw dying (reconcile_deletion-Calm.at s)
  ]

  adopting-Added :
      (s s'' : Session R) (r : Result Requeue)
      → (update_finalizers R (add R) >> pure requeue_now) s ≡ (r, s'')
      → asks_again r ≡ true
      → Added R s s''.world
  unfolding pure
  adopting-Added s s'' (ok r) h again =
      let (u, s', updated, last) = bind-inverse _ _ s s'' r h in
      let (answer, called) = update_finalizers-inverse R (add R) s s' updated in
      (answer, called ∙ ap (λ q. (ok answer, q.1.world)) last)
  adopting-Added s s'' (err e) h again = absurd (false≢true again)

  adopting_run :
      (s : Session R)
      → time_is_zero s.instance_in_memory.meta.deletion_timestamp ≡ true
      → R.contains_finalizer s.instance_in_memory.meta.finalizers finalizer_name ≡ false
      → (update_finalizers R (add R) >> pure requeue_now) s ≡ reconcile_instance R s
  unfolding reconcile_instance steps
  adopting_run s alive new = rw (alive, new) refl

  dying-Calm :
      (s : Session R)
      → time_is_zero s.instance_in_memory.meta.deletion_timestamp ≡ false
      → asks_again (reconcile_instance R s).0 ≡ false
  unfolding reconcile_instance steps
  dying-Calm s dying = rw dying (reconcile_deletion-Calm.at s)

  reconcile_instance-Added :
      (s : Session R)
      → asks_again (reconcile_instance R s).0 ≡ true
      → Added R s (reconcile_instance R s).1.world
  reconcile_instance-Added s again =
      let meta = s.instance_in_memory.meta in
      elim (Bool-cases (time_is_zero meta.deletion_timestamp)) [
        | inr dying ↦ absurd (false≢true (sym (dying-Calm s dying) ∙ again))
        | inl alive ↦ elim (Bool-cases (R.contains_finalizer meta.finalizers finalizer_name)) [
          | inl ours ↦ absurd (false≢true (sym (ours-Calm s ours) ∙ again))
          | inr new ↦
              adopting-Added s (reconcile_instance R s).1 (reconcile_instance R s).0
                (adopting_run s alive new) again
        ]
      ]

module _ {K : Platform} (R : Runtime K) where
  failed-Calm :
      (reason : Reason) (message : String) (w : R.World)
      → asks_again (dispatch R (err (record { reason = reason; message = message })) w).result
        ≡ false
  failed-Calm not_found message w = refl
  failed-Calm conflict message w = refl
  failed-Calm other message w = refl

  -- A call that asks for another one has read the instance and added the finalizer.
  dispatch-Added :
      (answer : Result (TlnDb K)) (w : R.World)
      → asks_again (dispatch R answer w).result ≡ true
      → (inst : TlnDb K) × (answer ≡ ok inst)
        × Added R
            (record { world = w; instance_in_memory = inst; events = [] })
            (dispatch R answer w).world
  dispatch-Added (ok inst) w again = (
    inst,
    refl,
    reconcile_instance-Added (record { world = w; instance_in_memory = inst; events = [] }) again,
  )
  dispatch-Added (err e) w again =
      absurd (false≢true (sym (failed-Calm e.reason e.message w) ∙ again))

  dispatch-Calm :
      (answer : Result (TlnDb K)) (inst : TlnDb K) (w : R.World)
      → answer ≡ ok inst
      → R.contains_finalizer inst.meta.finalizers finalizer_name ≡ true
      → asks_again (dispatch R answer w).result ≡ false
  dispatch-Calm answer inst w read ours =
      rw read (ours-Calm (record { world = w; instance_in_memory = inst; events = [] }) ours)

  second_call-Calm :
      KeepsFinalizers R
      → (key : Key) (w : R.World) → asks_again (reconcile R key w).result ≡ true
      → asks_again (reconcile R key (reconcile R key w).world).result ≡ false
  unfolding reconcile
  second_call-Calm keeps key w again =
      let (answer, w') = R.instances.get key w in
      let (inst, read, (stored, updated)) = dispatch-Added answer w' again in
      let (found, read_again, same) =
        keeps.read_back key w w' (dispatch R answer w').world inst stored
          (add R inst.meta.finalizers) (λ i. (read i, w')) updated in
      dispatch-Calm _ found _ read_again (rw same (keeps.added inst.meta.finalizers))

  -- Where an update of the finalizers is read back and an added finalizer is found: `Reconcile`
  -- asks for another call at once at most once in a row, so that two calls are enough.
  pub rounds-ends :
      KeepsFinalizers R
      → (key : Key) (w : R.World) → (outcome : Outcome R) × (rounds R 2 key w ≡ some outcome)
  unfolding rounds
  rounds-ends keeps key w = elim (Bool-cases (asks_again (reconcile R key w).result)) [
    | inr calm ↦ (reconcile R key w, rw calm refl)
    | inl again ↦ (
      reconcile R key (reconcile R key w).world,
      rw (again, second_call-Calm keeps key w again) refl,
    )
  ]
