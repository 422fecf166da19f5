-- ===== src/Controller/Rounds/Calm.antt =====
-- internal/controller/tlndb_controller.go: the methods that never ask for another call at once.
use talon_db_k8s_operator.Base.{◌≡◌, refl, Bool, true, false, Option, none, some, if◌then◌else◌}
use talon_db_k8s_operator.Kube.{Platform}
use talon_db_k8s_operator.Controller.Exec.{
  Error, Result, ok, err, pure, raise, when_found, continue, ◌>>=◌,
}
use talon_db_k8s_operator.Controller.Environment.{Runtime, Session}
use talon_db_k8s_operator.Controller.Calls.{Reconcile, steps}
use talon_db_k8s_operator.Controller.Status.{Requeue, sync_status}
use talon_db_k8s_operator.Controller.{reconcile_deletion, fail_with, finish, reconcile_live}
use talon_db_k8s_operator.Controller.Rounds.{asks_again}

-- From no state does the step ask for another call at once.
pub record Calm {K : Platform} (R : Runtime K) (m : Reconcile R Requeue) : Type 0 where
  pub at : (s : Session R) → asks_again (m s).0 ≡ false

module _ {K : Platform} {R : Runtime K} where
  continue-Calm :
      {A : Type 0} (f : A → Reconcile R Requeue) (r : Result A) (s : Session R)
      → ((a : A) → Calm R (f a))
      → asks_again (continue r f s).0 ≡ false
  continue-Calm f (ok a) s c = (c a).at s
  continue-Calm f (err e) s c = refl

  Calm-bind :
      {A : Type 0} (m : Reconcile R A) {f : A → Reconcile R Requeue}
      → ((a : A) → Calm R (f a))
      → Calm R (m >>= f)
  unfolding steps
  Calm-bind m {f} c = record { at = λ s. continue-Calm f (m s).0 (m s).1 c }

  Calm-pure : (r : Requeue) → r.requeue ≡ false → Calm R (pure r)
  unfolding steps
  Calm-pure r e = record { at = λ s. e }

  Calm-raise : (e : Error) → Calm R (raise e)
  unfolding steps
  Calm-raise e = record { at = λ s. refl }

  Calm-if :
      (b : Bool) {m n : Reconcile R Requeue} → Calm R m → Calm R n → Calm R (if b then m else n)
  Calm-if true cm cn = cm
  Calm-if false cm cn = cn

  Calm-when_found :
      {T : Type 0} (o : Option T) {m : Reconcile R Requeue} {f : T → Reconcile R Requeue}
      → Calm R m
      → ((t : T) → Calm R (f t))
      → Calm R (when_found o m f)
  Calm-when_found none cm cf = cm
  Calm-when_found (some t) cm cf = cf t

  sync_status-Calm : Calm R (sync_status R)
  unfolding sync_status
  sync_status-Calm = Calm-bind _ λ inst. Calm-bind _ λ found.
      Calm-when_found found (Calm-pure _ refl)
        λ sts. Calm-bind _ λ _. Calm-if _ (Calm-pure _ refl) (Calm-pure _ refl)

  finish-Calm : (outcome : Result Unit) → Calm R (finish R outcome)
  unfolding fail_with
  finish-Calm (ok _) = sync_status-Calm
  finish-Calm (err e) = Calm-bind _ λ _. Calm-bind _ λ _. Calm-raise e

  pub reconcile_live-Calm : Calm R (reconcile_live R)
  unfolding reconcile_live
  reconcile_live-Calm = Calm-bind _ λ inst. Calm-bind _ λ _. Calm-bind _ finish-Calm

  pub reconcile_deletion-Calm : Calm R (reconcile_deletion R)
  unfolding reconcile_deletion
  reconcile_deletion-Calm = Calm-bind _ λ inst. Calm-bind _ λ _. Calm-pure _ refl
