-- ===== src/Controller/Exec.antt =====
-- Go methods that change an object and may return an error: what was written before the error
-- stays written, so the state comes back beside either result.
use talon_db_k8s_operator.Base.{◌≢◌, String, ◌<>◌, Bool, true, false, Option, none, some}

-- The kinds of error that the controller tells apart; wrapping with `%w` keeps the kind.
pub data Reason : Type 0 where
  not_found conflict other : Reason

pub record Error : Type 0 where
  pub reason : Reason
  pub message : String

pub data Result (A : Type 0) : Type 0 where
  ok : A → Result A
  err : Error → Result A

abbrev pub Exec : Type 0 → Type 0 → Type 0
Exec S A = S → Result A × S

abbrev wrapped : {A : Type 0} → String → Result A → Result A
wrapped prefix (ok a) = ok a
wrapped prefix (err e) = err (record e { message = prefix <> ": " <> e.message })

abbrev forgive_conflict : Result (Unit {0}) → Result (Unit {0})
forgive_conflict (ok u) = ok u
forgive_conflict (err e) = elim e.reason [ conflict ↦ ok tt | _ ↦ err e ]

abbrev forgive_not_found : Result (Unit {0}) → Result (Unit {0})
forgive_not_found (ok u) = ok u
forgive_not_found (err e) = elim e.reason [ not_found ↦ ok tt | _ ↦ err e ]

module _ {S A : Type 0} where
  unfoldable pub pure : A → Exec S A
  pure a s = (ok a, s)

  unfoldable pub raise : Error → Exec S A
  raise e s = (err e, s)

  unfoldable pub lift : Result A → Exec S A
  lift r s = (r, s)

  unfoldable pub gets : (S → A) → Exec S A
  gets f s = (ok (f s), s)

  abbrev settle : Result A → S → Result (Result A) × S
  settle r s = (ok r, s)

  -- `err := m(); …`: the error is a value.
  unfoldable pub attempt : Exec S A → Exec S (Result A)
  attempt m s = let (r, s') = m s in settle r s'

  -- `fmt.Errorf("prefix: %w", err)`
  unfoldable pub wrapping : String → Exec S A → Exec S A
  wrapping prefix m s = let (r, s') = m s in (wrapped prefix r, s')

module _ {S A B : Type 0} where
  abbrev pub continue : Result A → (A → Exec S B) → Exec S B
  continue (ok a) f s = f a s
  continue (err e) f s = (err e, s)

  infixl 5 ◌>>=◌ ◌>>◌
  unfoldable pub ◌>>=◌ : Exec S A → (A → Exec S B) → Exec S B
  ◌>>=◌ m f s = let (r, s') = m s in continue r f s'

  abbrev pub ◌>>◌ : Exec S A → Exec S B → Exec S B
  m >> n = m >>= λ _. n

module _ {S : Type 0} where
  unfoldable pub modify : (S → S) → Exec S (Unit {0})
  modify f s = (ok tt, f s)

  unfoldable pub when : Bool → Exec S (Unit {0}) → Exec S (Unit {0})
  when true m s = m s
  when false m s = (ok tt, s)

  -- `if err := m(); err != nil && !apierrors.IsConflict(err) { return err }`
  unfoldable pub ignore_conflict : Exec S (Unit {0}) → Exec S (Unit {0})
  ignore_conflict m s = let (r, s') = m s in (forgive_conflict r, s')

  unfoldable pub ignore_not_found : Exec S (Unit {0}) → Exec S (Unit {0})
  ignore_not_found m s = let (r, s') = m s in (forgive_not_found r, s')

  -- `_ = m()`
  unfoldable pub ignore_error : Exec S (Unit {0}) → Exec S (Unit {0})
  ignore_error m s = let (r, s') = m s in (ok tt, s')

-- `if found { … } else { … }` after a lookup.
abbrev pub when_found : {A B : Type 0} → Option A → B → (A → B) → B
when_found none absent present = absent
when_found (some a) absent present = present a

pub ok_ne_err : {A : Type 0} {a : A} {e : Error} → ◌≢◌ {A = Result A} (ok a) (err e)
ok_ne_err p = cc
