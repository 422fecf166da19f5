-- ===== src/Controller/Total.antt =====
-- Steps of a reconciliation that end without an error: one rule for each way to build a step. The
-- instance in memory may get another status and resource version on the way, and nothing else
-- that the builders read.
pub mod Healthy
pub mod Steps
pub mod Apply
pub mod Status
pub mod Blocks
pub mod Workload
pub mod Resources
pub mod Whole
pub mod Settled
pub mod Deletion
pub mod Listing
use talon_db_k8s_operator.Base.{
  String, ◌≡◌, refl, ap, sym, inl, inr, Bool, true, false, Option, none, some, List, [], ◌∷◌,
  if◌then◌else◌,
}
use talon_db_k8s_operator.Kube.{Platform}
use talon_db_k8s_operator.Api.{TlnDb}
use talon_db_k8s_operator.Controller.Exec.{
  Result, ok, Exec, pure, lift, gets, attempt, wrapping, when, ignore_conflict, ignore_not_found,
  ignore_error, when_found, continue, ◌>>=◌,
}
use talon_db_k8s_operator.Controller.Environment.{Key, KindClient, Runtime, Session}
use talon_db_k8s_operator.Controller.Calls.{
  Reconcile, the_instance, set_instance, emit, call, call_instance, find, steps,
}
use talon_db_k8s_operator.Controller.Managed.{listed}
use Healthy.{SameAs, same_trans, Answers, AnswersOrMissing, HealthyKind, Writes}

-- From every state whose instance is as `inst`, the step returns a result with `Q`, and its
-- instance is still as `inst`.
pub record Yields {K : Platform} (R : Runtime K) (inst : TlnDb K) {A : Type 0} (Q : A → Type 0)
    (m : Reconcile R A) : Type 0 where
  pub at :
      (s : Session R)
      → SameAs inst s.instance_in_memory
      → (a : A) × ((m s).0 ≡ ok a) × Q a × SameAs inst (m s).1.instance_in_memory

-- As `Yields`, with what the state is afterwards.
pub record Reaches {K : Platform} (R : Runtime K) (inst : TlnDb K) {A : Type 0}
    (P : A → Session R → Type 0) (m : Reconcile R A) : Type 0 where
  pub at :
      (s : Session R)
      → SameAs inst s.instance_in_memory
      → (a : A) × ((m s).0 ≡ ok a) × P a (m s).1 × SameAs inst (m s).1.instance_in_memory

abbrev pub Succeeds :
    {K : Platform} (R : Runtime K) (inst : TlnDb K) {A : Type 0} → Reconcile R A → Type 0
Succeeds R inst m = Yields R inst (λ _. Unit) m

module _ {K : Platform} {R : Runtime K} {inst : TlnDb K} where
  module _ {A : Type 0} {Q : A → Type 0} where
    pub Yields-pure : (a : A) → Q a → Yields R inst Q (pure a)
    unfolding steps
    Yields-pure a q = record { at = λ s h. (a, refl, q, h) }

    pub Yields-if :
        (b : Bool) {m n : Reconcile R A}
        → (b ≡ true → Yields R inst Q m)
        → (b ≡ false → Yields R inst Q n)
        → Yields R inst Q (if b then m else n)
    Yields-if true ym yn = ym refl
    Yields-if false ym yn = yn refl

    pub Yields-attempt :
        {m : Reconcile R A}
        → Yields R inst Q m
        → Yields R inst (λ r. (a : A) × (r ≡ ok a) × Q a) (attempt m)
    unfolding steps
    Yields-attempt y = record {
      at = λ s h. let (a, e, q, h') = y.at s h in (ok a, ap ok e, (a, refl, q), h');
    }

    pub Yields-wrapping :
        (prefix : String) {m : Reconcile R A}
        → Yields R inst Q m
        → Yields R inst Q (wrapping prefix m)
    unfolding steps
    Yields-wrapping prefix y = record {
      at = λ s h. let (a, e, q, h') = y.at s h in (a, rw e refl, q, h');
    }

    pub Yields-when_found :
        {T : Type 0} (o : Option T) {m : Reconcile R A} {f : T → Reconcile R A}
        → (o ≡ none → Yields R inst Q m)
        → ((t : T) → o ≡ some t → Yields R inst Q (f t))
        → Yields R inst Q (when_found o m f)
    Yields-when_found none ym yf = ym refl
    Yields-when_found (some t) ym yf = yf t refl

  continue-Yields :
      {A B : Type 0} {Q : B → Type 0} (f : A → Reconcile R B) (r : Result A) (a : A) (s : Session R)
      → r ≡ ok a
      → Yields R inst Q (f a)
      → SameAs inst s.instance_in_memory
      → (b : B) × ((continue r f s).0 ≡ ok b)
        × Q b
        × SameAs inst (continue r f s).1.instance_in_memory
  continue-Yields f r a s e y h = rw e (y.at s h)

  -- A sequence, where the second step may use what the first has found.
  pub Yields-bind :
      {A B : Type 0} {P : A → Type 0} {Q : B → Type 0} {m : Reconcile R A} {f : A → Reconcile R B}
      → Yields R inst P m
      → ((a : A) → P a → Yields R inst Q (f a))
      → Yields R inst Q (m >>= f)
  unfolding steps
  Yields-bind {m} {f} ym yf = record {
    at = λ s h. let (a, e, p, h') = ym.at s h in continue-Yields f (m s).0 a (m s).1 e (yf a p) h';
  }

  pub Yields-then :
      {A B : Type 0} {Q : B → Type 0} {m : Reconcile R A} {f : A → Reconcile R B}
      → Succeeds R inst m
      → ((a : A) → Yields R inst Q (f a))
      → Yields R inst Q (m >>= f)
  Yields-then ym yf = Yields-bind ym λ a _. yf a

  pub Yields-the_instance : Yields R inst (SameAs inst) (the_instance R)
  unfolding steps
  Yields-the_instance = record { at = λ s h. (s.instance_in_memory, refl, h, h) }

  -- A step that starts from the instance in memory.
  pub Yields-with_instance :
      {A : Type 0} {Q : A → Type 0} {f : TlnDb K → Reconcile R A}
      → ((inst' : TlnDb K) → SameAs inst inst' → Yields R inst Q (f inst'))
      → Yields R inst Q (the_instance R >>= f)
  Yields-with_instance yf = Yields-bind Yields-the_instance yf

  -- An optional block: the names of `m` where it is enabled.
  pub Yields-listed :
      (b b' : Bool) {names : List String} {m : Reconcile R (List String)}
      → b ≡ b'
      → Yields R inst (λ got. got ≡ names) m
      → Yields R inst (λ got. got ≡ listed b' names) (if b then m else pure [])
  Yields-listed true b' e y = rw (sym e) y
  Yields-listed false b' e y = rw (sym e) (Yields-pure [] refl)

  -- What a block returns after its last step.
  pub Yields-names :
      {A : Type 0} {got names : List String} {m : Reconcile R A}
      → Succeeds R inst m
      → got ≡ names
      → Yields R inst (λ got. got ≡ names) (m >>= λ _. pure got)
  Yields-names y e = Yields-then y λ _. Yields-pure _ e

  continue-Reaches :
      {A B : Type 0} {P : B → Session R → Type 0} (f : A → Reconcile R B) (r : Result A) (a : A)
      (s : Session R)
      → r ≡ ok a
      → Reaches R inst P (f a)
      → SameAs inst s.instance_in_memory
      → (b : B) × ((continue r f s).0 ≡ ok b)
        × P b (continue r f s).1
        × SameAs inst (continue r f s).1.instance_in_memory
  continue-Reaches f r a s e y h = rw e (y.at s h)

  pub Reaches-bind :
      {A B : Type 0} {Q : A → Type 0} {P : B → Session R → Type 0} {m : Reconcile R A}
      {f : A → Reconcile R B}
      → Yields R inst Q m
      → ((a : A) → Q a → Reaches R inst P (f a))
      → Reaches R inst P (m >>= f)
  unfolding steps
  Reaches-bind {m} {f} ym yf = record {
    at = λ s h. let (a, e, q, h') = ym.at s h in continue-Reaches f (m s).0 a (m s).1 e (yf a q) h';
  }
