-- ===== src/Controller/Calls.antt =====
-- Calls of the client from a reconciliation.
use talon_db_k8s_operator.Base.{String, Option, none, some, ◌∷◌}
use talon_db_k8s_operator.Kube.{Platform}
use talon_db_k8s_operator.Api.{TlnDb}
use talon_db_k8s_operator.Controller.Exec.{
  not_found, Result, ok, err, Exec, pure, raise, lift, gets, attempt, wrapping, modify, when,
  ignore_conflict, ignore_not_found, ignore_error, ◌>>=◌,
}
use talon_db_k8s_operator.Controller.Environment.{Key, KindClient, Runtime, Session}

module _ {K : Platform} (R : Runtime K) where
  abbrev pub Reconcile : Type 0 → Type 0
  Reconcile A = Exec (Session R) A

  unfoldable pub the_instance : Reconcile (TlnDb K)
  unfolding gets
  the_instance = gets (λ s. s.instance_in_memory)

  unfoldable pub set_instance : TlnDb K → Reconcile Unit
  unfolding modify
  set_instance inst = modify (λ s. record s { instance_in_memory = inst })

  -- `r.Recorder.Eventf(instance, …)`
  unfoldable pub emit : String → String → String → Reconcile Unit
  unfolding modify
  emit event_type reason message = modify (λ s. record s {
    events = record { event_type = event_type; reason = reason; message = message } ∷ s.events;
  })

  unfoldable pub call : {A : Type 0} → Exec R.World A → Reconcile A
  call m s = let (r, w) = m s.world in (r, record s { world = w })

  abbrev pub keep_answer : Result (TlnDb K) → Session R → Result Unit × Session R
  keep_answer (ok inst) s = (ok tt, record s { instance_in_memory = inst })
  keep_answer (err e) s = (err e, s)

  -- A write of `instance`: the server's answer replaces it where the call succeeds.
  unfoldable pub call_instance : Exec R.World (TlnDb K) → Reconcile Unit
  call_instance m s = let (r, w) = m s.world in keep_answer r (record s { world = w })

  abbrev pub found : {T : Type 0} → Result T → Result (Option T)
  found (ok t) = ok (some t)
  found (err e) = elim e.reason [ not_found ↦ ok none | _ ↦ err e ]

  -- `err := r.Get(…)` where `IsNotFound(err)` is a case of its own.
  unfoldable pub find : {T : Type 0} → KindClient R.World T → Key → Reconcile (Option T)
  find client key s = let (r, w) = client.get key s.world in (found r, record s { world = w })

-- The names that a proof computes through to run a step.
unfoldable pub steps : Unit {0}
unfolding pure raise lift gets attempt wrapping ◌>>=◌ modify when ignore_conflict ignore_not_found
    ignore_error the_instance set_instance emit call call_instance find
steps = tt
