-- ===== src/Controller/Total/Steps.antt =====
-- Steps of a reconciliation that end without an error, whatever they return, as rules for a search.
use talon_db_k8s_operator.Base.{
  String, ◌≡◌, refl, inl, inr, Bool, true, false, Option, none, some, if◌then◌else◌,
}
use talon_db_k8s_operator.Kube.{Platform}
use talon_db_k8s_operator.Api.{TlnDb}
use talon_db_k8s_operator.Controller.Exec.{
  Result, ok, Exec, pure, lift, gets, wrapping, when, ignore_conflict, ignore_not_found,
  ignore_error, when_found,
}
use talon_db_k8s_operator.Controller.Environment.{Key, KindClient, Runtime, Session}
use talon_db_k8s_operator.Controller.Calls.{Reconcile, emit, call, find, steps}
use talon_db_k8s_operator.Controller.Total.Healthy.{Answers, AnswersOrMissing}
use talon_db_k8s_operator.Controller.Total.{
  Succeeds, Yields-pure, Yields-if, Yields-when_found, Yields-wrapping, Yields-then,
}

module _ {K : Platform} {R : Runtime K} {inst : TlnDb K} where
  pub Succeeds-pure : {A : Type 0} (a : A) → Succeeds R inst (pure a)
  Succeeds-pure a = Yields-pure a tt

  pub Succeeds-if :
      {A : Type 0} (b : Bool) {m n : Reconcile R A}
      → Succeeds R inst m
      → Succeeds R inst n
      → Succeeds R inst (if b then m else n)
  Succeeds-if b ym yn = Yields-if b (λ _. ym) (λ _. yn)

  pub Succeeds-when_found :
      {A T : Type 0} (o : Option T) {m : Reconcile R A} {f : T → Reconcile R A}
      → Succeeds R inst m
      → ((t : T) → Succeeds R inst (f t))
      → Succeeds R inst (when_found o m f)
  Succeeds-when_found o ym yf = Yields-when_found o (λ _. ym) (λ t _. yf t)

  pub Succeeds-wrapping :
      {A : Type 0} (prefix : String) {m : Reconcile R A}
      → Succeeds R inst m
      → Succeeds R inst (wrapping prefix m)
  Succeeds-wrapping prefix y = Yields-wrapping prefix y

  pub Succeeds-lift : {A : Type 0} (r : Result A) → (a : A) × (r ≡ ok a) → Succeeds R inst (lift r)
  unfolding steps
  Succeeds-lift r (a, e) = record { at = λ s h. (a, e, tt, h) }

  pub Succeeds-gets : {A : Type 0} (f : Session R → A) → Succeeds R inst (gets f)
  unfolding steps
  Succeeds-gets f = record { at = λ s h. (f s, refl, tt, h) }

  pub Succeeds-emit :
      (event_type reason message : String) → Succeeds R inst (emit R event_type reason message)
  unfolding steps
  Succeeds-emit event_type reason message = record { at = λ s h. (tt, refl, tt, h) }

  pub Succeeds-call : {A : Type 0} {m : Exec R.World A} → Answers m → Succeeds R inst (call R m)
  unfolding steps
  Succeeds-call answers = record { at = λ s h. let (a, e) = answers.at s.world in (a, e, tt, h) }

  pub Succeeds-find :
      {T : Type 0} (client : KindClient R.World T) (key : Key)
      → AnswersOrMissing (client.get key)
      → Succeeds R inst (find R client key)
  unfolding steps
  Succeeds-find client key answers = record {
    at = λ s h. elim (answers.at s.world) [
      | inl (a, e) ↦ (some a, rw e refl, tt, h)
      | inr (message, e) ↦ (none, rw e refl, tt, h)
    ];
  }

  pub Succeeds-ignore_conflict :
      {m : Reconcile R Unit} → Succeeds R inst m → Succeeds R inst (ignore_conflict m)
  unfolding steps
  Succeeds-ignore_conflict y = record {
    at = λ s h. let (a, e, q, h') = y.at s h in (tt, rw e refl, tt, h');
  }

  pub Succeeds-ignore_not_found :
      {m : Reconcile R Unit} → Succeeds R inst m → Succeeds R inst (ignore_not_found m)
  unfolding steps
  Succeeds-ignore_not_found y = record {
    at = λ s h. let (a, e, q, h') = y.at s h in (tt, rw e refl, tt, h');
  }

  pub Succeeds-ignore_error :
      {m : Reconcile R Unit} → Succeeds R inst m → Succeeds R inst (ignore_error m)
  unfolding steps
  Succeeds-ignore_error y = record {
    at = λ s h. let (a, e, q, h') = y.at s h in (tt, refl, tt, h');
  }

  pub Succeeds-when :
      (b : Bool) {m : Reconcile R Unit} → Succeeds R inst m → Succeeds R inst (when b m)
  unfolding steps
  Succeeds-when true y = y
  Succeeds-when false y = record { at = λ s h. (tt, refl, tt, h) }

pub ruleset succeeds_rules = (
  Succeeds-pure, Succeeds-if, Succeeds-when_found, Succeeds-wrapping, Succeeds-gets, Succeeds-emit,
  Succeeds-call, Succeeds-find, Succeeds-ignore_conflict, Succeeds-ignore_not_found,
  Succeeds-ignore_error, Succeeds-when, Yields-then,
)
