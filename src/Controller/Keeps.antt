-- ===== src/Controller/Keeps.antt =====
-- What steps of a reconciliation leave true of the cluster: one rule for each way to build a step.
use talon_db_k8s_operator.Base.{String, Bool, true, false, Option, none, some, if◌then◌else◌, arith}
use talon_db_k8s_operator.Kube.{Platform}
use talon_db_k8s_operator.Api.{TlnDb}
use talon_db_k8s_operator.Controller.Exec.{
  Error, Result, ok, err, Exec, pure, raise, lift, gets, attempt, wrapping, when, ignore_conflict,
  ignore_not_found, ignore_error, when_found, ◌>>=◌, continue,
}
use talon_db_k8s_operator.Controller.Environment.{Key, KindClient, Runtime, Session}
use talon_db_k8s_operator.Controller.Calls.{
  Reconcile, the_instance, set_instance, emit, call, call_instance, find, steps,
}

-- An action of the client leaves `P` true, whether it succeeds or not.
pub record Leaves {W A : Type 0} (P : W → Type 0) (m : Exec W A) : Type 0 where
  pub at : (w : W) → P w → P (m w).1

pub record Keeps {K : Platform} (R : Runtime K) {A : Type 0} (P : R.World → Type 0)
    (m : Exec (Session R) A) : Type 0 where
  pub at : (s : Session R) → P s.world → P (m s).1.world

module _ {K : Platform} {R : Runtime K} {P : R.World → Type 0} where
  module _ {A : Type 0} where
    pub Keeps-pure : (a : A) → Keeps R P (pure a)
    unfolding steps
    Keeps-pure a = record { at = λ s h. h }

    pub Keeps-raise : (e : Error) → Keeps R P (raise {A = A} e)
    unfolding steps
    Keeps-raise e = record { at = λ s h. h }

    pub Keeps-lift : (r : Result A) → Keeps R P (lift r)
    unfolding steps
    Keeps-lift r = record { at = λ s h. h }

    pub Keeps-gets : (f : Session R → A) → Keeps R P (gets f)
    unfolding steps
    Keeps-gets f = record { at = λ s h. h }

    pub Keeps-attempt : {m : Reconcile R A} → Keeps R P m → Keeps R P (attempt m)
    unfolding steps
    Keeps-attempt k = record { at = λ s h. k.at s h }

    pub Keeps-wrapping :
        (prefix : String) {m : Reconcile R A} → Keeps R P m → Keeps R P (wrapping prefix m)
    unfolding steps
    Keeps-wrapping prefix k = record { at = λ s h. k.at s h }

    pub Keeps-if :
        (b : Bool) {m n : Reconcile R A}
        → Keeps R P m
        → Keeps R P n
        → Keeps R P (if b then m else n)
    Keeps-if true km kn = km
    Keeps-if false km kn = kn

    pub Keeps-call : {m : Exec R.World A} → Leaves P m → Keeps R P (call R m)
    unfolding steps
    Keeps-call l = record { at = λ s h. l.at s.world h }

  pub Keeps-the_instance : Keeps R P (the_instance R)
  unfolding steps
  Keeps-the_instance = record { at = λ s h. h }

  pub Keeps-set_instance : (inst : TlnDb K) → Keeps R P (set_instance R inst)
  unfolding steps
  Keeps-set_instance inst = record { at = λ s h. h }

  pub Keeps-emit :
      (event_type reason message : String) → Keeps R P (emit R event_type reason message)
  unfolding steps
  Keeps-emit event_type reason message = record { at = λ s h. h }

  pub Keeps-find :
      {T : Type 0} (client : KindClient R.World T) (key : Key)
      → Leaves P (client.get key)
      → Keeps R P (find R client key)
  unfolding steps
  Keeps-find client key l = record { at = λ s h. l.at s.world h }

  pub Keeps-ignore_conflict : {m : Reconcile R Unit} → Keeps R P m → Keeps R P (ignore_conflict m)
  unfolding steps
  Keeps-ignore_conflict k = record { at = λ s h. k.at s h }

  pub Keeps-ignore_not_found : {m : Reconcile R Unit} → Keeps R P m → Keeps R P (ignore_not_found m)
  unfolding steps
  Keeps-ignore_not_found k = record { at = λ s h. k.at s h }

  pub Keeps-ignore_error : {m : Reconcile R Unit} → Keeps R P m → Keeps R P (ignore_error m)
  unfolding steps
  Keeps-ignore_error k = record { at = λ s h. k.at s h }

  pub Keeps-when : (b : Bool) {m : Reconcile R Unit} → Keeps R P m → Keeps R P (when b m)
  unfolding steps
  Keeps-when true k = record { at = λ s h. k.at s h }
  Keeps-when false k = record { at = λ s h. h }

  pub Keeps-call_instance :
      {m : Exec R.World (TlnDb K)} → Leaves P m → Keeps R P (call_instance R m)
  unfolding steps
  Keeps-call_instance {m} l = record { at = λ s h. ground (arith, l.at s.world h) }

  continue-Keeps :
      {A B : Type 0} (f : A → Reconcile R B) (r : Result A) (s : Session R)
      → ((a : A) → Keeps R P (f a))
      → P s.world
      → P (continue r f s).1.world
  continue-Keeps f (ok a) s kf h = (kf a).at s h
  continue-Keeps f (err e) s kf h = h

  pub Keeps-when_found :
      {A B : Type 0} (o : Option A) {m : Reconcile R B} {f : A → Reconcile R B}
      → Keeps R P m
      → ((a : A) → Keeps R P (f a))
      → Keeps R P (when_found o m f)
  Keeps-when_found none km kf = km
  Keeps-when_found (some a) km kf = kf a

  pub Keeps-bind :
      {A B : Type 0} {m : Reconcile R A} {f : A → Reconcile R B}
      → Keeps R P m
      → ((a : A) → Keeps R P (f a))
      → Keeps R P (m >>= f)
  unfolding steps
  Keeps-bind {m} {f} km kf = record {
    at = λ s h. let (r, s') = m s in continue-Keeps f r s' kf (km.at s h);
  }

pub ruleset keeps_rules = (
  Keeps-pure, Keeps-raise, Keeps-lift, Keeps-gets, Keeps-attempt, Keeps-wrapping, Keeps-if,
  Keeps-call, Keeps-the_instance, Keeps-set_instance, Keeps-emit, Keeps-find, Keeps-ignore_conflict,
  Keeps-ignore_not_found, Keeps-ignore_error, Keeps-when, Keeps-call_instance, Keeps-when_found,
  Keeps-bind,
)
