-- ===== src/Controller/Success.antt =====
-- internal/controller/tlndb_controller.go: what has succeeded when a method returns no error.
use talon_db_k8s_operator.Base.{String, ◌≡◌, refl, ap, sym, ◌∙◌, Bool, true, List}
use talon_db_k8s_operator.Kube.{Platform}
use talon_db_k8s_operator.Api.{phase_terminating, TlnDb}
use talon_db_k8s_operator.Resources.Common.{finalizer_name}
use talon_db_k8s_operator.Controller.Exec.{
  Exec, Result, ok, err, ok_ne_err, continue, when, ◌>>=◌, ◌>>◌, pure,
}
use talon_db_k8s_operator.Controller.Environment.{Runtime, Session}
use talon_db_k8s_operator.Controller.Calls.{Reconcile, steps, keep_answer}
use talon_db_k8s_operator.Controller.Status.{Requeue, done, set_phase}
use talon_db_k8s_operator.Controller.{with_finalizers, update_finalizers, reconcile_deletion}

continue-inverse :
    {S A B : Type 0} (f : A → Exec S B) (r : Result A) (s s'' : S) (b : B)
    → continue r f s ≡ (ok b, s'')
    → (a : A) × (r ≡ ok a) × (f a s ≡ (ok b, s''))
continue-inverse f (ok a) s s'' b h = (a, refl, h)
continue-inverse f (err e) s s'' b h = absurd (ok_ne_err (sym (ap (λ p. p.0) h)))

-- A sequence of two steps succeeds only if both do.
pub bind-inverse :
    {S A B : Type 0} (m : Exec S A) (f : A → Exec S B) (s s'' : S) (b : B)
    → (m >>= f) s ≡ (ok b, s'')
    → (a : A) × (s' : S) × (m s ≡ (ok a, s')) × (f a s' ≡ (ok b, s''))
unfolding steps
bind-inverse m f s s'' b h =
    let (a, first, second) = continue-inverse f (m s).0 (m s).1 s'' b h in
    (a, (m s).1, λ i. (first i, (m s).1), second)

module _ {K : Platform} (R : Runtime K) where
  -- The update that an action on the finalizers makes.
  abbrev pub finalizer_update : (List String → List String) → TlnDb K → Exec R.World (TlnDb K)
  finalizer_update change inst =
      R.instances.update (with_finalizers R (change inst.meta.finalizers) inst)

  keep_answer-inverse :
      (r : Result (TlnDb K)) (s s' : Session R)
      → keep_answer R r s ≡ (ok tt, s')
      → (answer : TlnDb K) × (r ≡ ok answer) × (s.world ≡ s'.world)
  keep_answer-inverse (ok inst) s s' h = (inst, refl, ap (λ p. p.1.world) h)
  keep_answer-inverse (err e) s s' h = absurd (ok_ne_err (sym (ap (λ p. p.0) h)))

  pub update_finalizers-inverse :
      (change : List String → List String) (s s' : Session R)
      → update_finalizers R change s ≡ (ok tt, s')
      → (answer : TlnDb K) × (finalizer_update change s.instance_in_memory s.world
          ≡ (ok answer, s'.world))
  unfolding steps
  update_finalizers-inverse change s s' h =
      let (r, w) = finalizer_update change s.instance_in_memory s.world in
      let (answer, succeeded, world) = keep_answer-inverse r _ s' h in
      (answer, λ i. (succeeded i, world i))

  when-inverse :
      (b : Bool) (m : Reconcile R Unit) (s s' : Session R)
      → b ≡ true
      → when b m s ≡ (ok tt, s')
      → m s ≡ (ok tt, s')
  unfolding steps
  when-inverse b m s s' taken h = sym (ap (λ b. when b m s) taken) ∙ h

  pure-inverse :
      {A : Type 0} (a b : A) (s s' : Session R) → pure a s ≡ (ok b, s') → s.world ≡ s'.world
  unfolding steps
  pure-inverse a b s s' h = ap (λ p. p.1.world) h

  -- The action on the finalizers that a deletion takes.
  abbrev pub remove : List String → List String
  remove finalizers = R.remove_finalizer finalizers finalizer_name

  released :
      (inst : TlnDb K) (s s'' : Session R) (r : Requeue)
      → R.contains_finalizer inst.meta.finalizers finalizer_name ≡ true
      → (when
              (R.contains_finalizer inst.meta.finalizers finalizer_name)
              (set_phase R phase_terminating >> update_finalizers R remove)
            >> pure done)
          s
        ≡ (ok r, s'')
      → (s' : Session R) × (answer : TlnDb K) × (finalizer_update remove s'.instance_in_memory
            s'.world
          ≡ (ok answer, s''.world))
  released inst s s'' r ours h =
      let (u, s₁, removed, last) = bind-inverse _ _ s s'' r h in
      let (u', s', phase, updated) =
        bind-inverse _ _ s s₁ tt (when-inverse _ _ s s₁ ours removed) in
      let (answer, called) = update_finalizers-inverse remove s' s₁ updated in
      (s', answer, called ∙ ap (λ w. (ok answer, w)) (pure-inverse done r s₁ s'' last))

  -- When the reconciliation of an instance under deletion that has the operator's finalizer
  -- returns no error, its last call was an update without the finalizer, and that has succeeded.
  pub reconcile_deletion-releases :
      (s s'' : Session R) (r : Requeue)
      → R.contains_finalizer s.instance_in_memory.meta.finalizers finalizer_name ≡ true
      → reconcile_deletion R s ≡ (ok r, s'')
      → (s' : Session R) × (answer : TlnDb K) × (finalizer_update remove s'.instance_in_memory
            s'.world
          ≡ (ok answer, s''.world))
  unfolding reconcile_deletion steps
  reconcile_deletion-releases s s'' r ours h = released s.instance_in_memory s s'' r ours h
