-- ===== src/Controller/Installs.antt =====
-- Steps of a reconciliation on a server that has nothing of the instance yet: what they create, one
-- rule for each way to build a step.
pub mod Reads
pub mod EmptyServer
pub mod Helpers
pub mod Table
pub mod Blocks
pub mod Workload
pub mod Whole
use mathlib.Core.List.{append-nil, append_assoc}
use talon_db_k8s_operator.Base.{
  String, ◌≡◌, refl, ap, sym, ◌∙◌, Bool, true, false, Option, none, some, List, [], ◌∷◌, ◌++◌,
  if◌then◌else◌,
}
use talon_db_k8s_operator.Kube.{Platform}
use talon_db_k8s_operator.Api.{TlnDb}
use talon_db_k8s_operator.Controller.Exec.{
  Result, ok, Exec, pure, lift, gets, attempt, wrapping, when_found, continue, ignore_error,
  ignore_conflict, ◌>>=◌,
}
use talon_db_k8s_operator.Controller.Environment.{Key, KindClient, Runtime, Session}
use talon_db_k8s_operator.Controller.Calls.{Reconcile, the_instance, emit, call, find, steps}
use talon_db_k8s_operator.Controller.Total.Healthy.{SameAs}
use EmptyServer.{Created, EmptyKind, Empty}

-- The step returns a result with `Q`, and creates just these objects, in this order.
pub record Makes {K : Platform} {R : Runtime K} {inst : TlnDb K} (E : Empty R inst) {A : Type 0}
    (Q : A → Type 0) (made : List (Created K)) (m : Reconcile R A) : Type 0 where
  pub at :
      (s : Session R)
      → SameAs inst s.instance_in_memory
      → (a : A) × ((m s).0 ≡ ok a)
        × Q a
        × (E.journal (m s).1.world ≡ E.journal s.world ++ made)
        × SameAs inst (m s).1.instance_in_memory

abbrev pub Any : {A : Type 0} → A → Type 0
Any _ = Unit

abbrev pub made_if : {A : Type 0} → Bool → List A → List A
made_if true made = made
made_if false made = []

module _ {K : Platform} {R : Runtime K} {inst : TlnDb K} {E : Empty R inst} where
  pub Makes-pure : {A : Type 0} {Q : A → Type 0} (a : A) → Q a → Makes E Q [] (pure a)
  unfolding steps
  Makes-pure a q = record { at = λ s h. (a, refl, q, sym (append-nil _), h) }

  continue-Makes :
      {A B : Type 0} {Q : B → Type 0} {made : List (Created K)} (f : A → Reconcile R B)
      (r : Result A) (a : A) (s : Session R)
      → r ≡ ok a
      → Makes E Q made (f a)
      → SameAs inst s.instance_in_memory
      → (b : B) × ((continue r f s).0 ≡ ok b)
        × Q b
        × (E.journal (continue r f s).1.world ≡ E.journal s.world ++ made)
        × SameAs inst (continue r f s).1.instance_in_memory
  continue-Makes f r a s e y h = rw e (y.at s h)

  pub Makes-bind :
      {A B : Type 0} {P : A → Type 0} {Q : B → Type 0} {first then_made : List (Created K)}
      {m : Reconcile R A} {f : A → Reconcile R B}
      → Makes E P first m
      → ((a : A) → P a → Makes E Q then_made (f a))
      → Makes E Q (first ++ then_made) (m >>= f)
  unfolding steps
  Makes-bind {first} {then_made} {m} {f} ym yf = record {
    at = λ s h.
        let (a, e, p, grown, h') = ym.at s h in
        let (b, e', q, grown', h'') = continue-Makes f (m s).0 a (m s).1 e (yf a p) h' in
        (
          b,
          e',
          q,
          grown'
              ∙ ap (λ j. j ++ then_made) grown
              ∙ append_assoc (E.journal s.world) first then_made,
          h'',
        );
  }

  pub Makes-then :
      {A B : Type 0} {Q : B → Type 0} {first then_made : List (Created K)} {m : Reconcile R A}
      {f : A → Reconcile R B}
      → Makes E Any first m
      → ((a : A) → Makes E Q then_made (f a))
      → Makes E Q (first ++ then_made) (m >>= f)
  Makes-then ym yf = Makes-bind ym λ a _. yf a

  pub Makes-with_instance :
      {A : Type 0} {Q : A → Type 0} {made : List (Created K)} {f : TlnDb K → Reconcile R A}
      → ((i : TlnDb K) → SameAs inst i → Makes E Q made (f i))
      → Makes E Q made (the_instance R >>= f)
  unfolding steps
  Makes-with_instance yf = record { at = λ s h. (yf s.instance_in_memory h).at s h }

  pub Makes-wrapping :
      {A : Type 0} {Q : A → Type 0} {made : List (Created K)} (prefix : String) {m : Reconcile R A}
      → Makes E Q made m
      → Makes E Q made (wrapping prefix m)
  unfolding steps
  Makes-wrapping prefix y = record {
    at = λ s h. let (a, e, q, grown, h') = y.at s h in (a, rw e refl, q, grown, h');
  }

  pub Makes-if_else :
      {A : Type 0} (b b' : Bool) {made : List (Created K)} {m n : Reconcile R A}
      → b ≡ b'
      → Makes E Any made m
      → Makes E Any [] n
      → Makes E Any (made_if b' made) (if b then m else n)
  Makes-if_else true b' e y z = rw (sym e) y
  Makes-if_else false b' e y z = rw (sym e) z

  -- An optional block
  pub Makes-if :
      {A : Type 0} (b b' : Bool) {made : List (Created K)} {m : Reconcile R A} (a : A)
      → b ≡ b'
      → Makes E Any made m
      → Makes E Any (made_if b' made) (if b then m else pure a)
  Makes-if b b' a e y = Makes-if_else b b' e y (Makes-pure a tt)

  pub Makes-same :
      {A : Type 0} {Q : A → Type 0} {made made' : List (Created K)} {m : Reconcile R A}
      → made ≡ made'
      → Makes E Q made m
      → Makes E Q made' m
  Makes-same e y = rw (sym e) y

  -- A helper, and then names alone
  pub Makes-names :
      {A B : Type 0} {made : List (Created K)} {m : Reconcile R A} (b : B)
      → Makes E Any made m
      → Makes E Any (made ++ []) (m >>= λ _. pure b)
  Makes-names b y = Makes-then y λ _. Makes-pure b tt

  pub Makes-either :
      {A : Type 0} (b b' : Bool) {made made' : List (Created K)} {m n : Reconcile R A}
      → b ≡ b'
      → Makes E Any made m
      → Makes E Any made' n
      → Makes E Any (if b' then made else made') (if b then m else n)
  Makes-either true b' e y z = rw (sym e) y
  Makes-either false b' e y z = rw (sym e) z

  pub Makes-attempt :
      {A : Type 0} {made : List (Created K)} {m : Reconcile R A}
      → Makes E Any made m
      → Makes E (λ r. (a : A) × (r ≡ ok a)) made (attempt m)
  unfolding steps
  Makes-attempt y = record {
    at = λ s h. let (a, e, q, grown, h') = y.at s h in (ok a, ap ok e, (a, refl), grown, h');
  }

  pub Makes-gets : {A : Type 0} (f : Session R → A) → Makes E Any [] (gets f)
  unfolding steps
  Makes-gets f = record { at = λ s h. (f s, refl, tt, sym (append-nil _), h) }

  pub Makes-emit :
      (event_type reason message : String) → Makes E Any [] (emit R event_type reason message)
  unfolding steps
  Makes-emit event_type reason message = record {
    at = λ s h. (tt, refl, tt, sym (append-nil _), h);
  }

  pub Makes-lift : {A : Type 0} (r : Result A) (a : A) → r ≡ ok a → Makes E (λ b. b ≡ a) [] (lift r)
  unfolding steps
  Makes-lift r a e = record { at = λ s h. (a, e, refl, sym (append-nil _), h) }

  module _ {T : Type 0} {created : T → Created K} {client : KindClient R.World T}
      (kind : EmptyKind E.journal created client) where
    pub Makes-create :
        (object : T) → Makes E Any (created object ∷ []) (call R (client.create object))
    unfolding steps
    Makes-create object = record {
      at = λ s h. let (e, grown) = kind.create object s.world in (tt, e, tt, grown, h);
    }

    Makes-find : (key : Key) → Makes E (λ o. o ≡ none) [] (find R client key)
    unfolding steps
    Makes-find key = record {
      at = λ s h.
          let (message, e, grown) = kind.get key s.world in
          (none, rw e refl, refl, grown ∙ sym (append-nil _), h);
    }

    -- `Get` finds nothing, so that only `create` is run.
    pub Makes-create_or :
        {made : List (Created K)} (key : Key) {create : Reconcile R Unit}
        (change : T → Reconcile R Unit)
        → Makes E Any made create
        → Makes E Any made (find R client key >>= λ existing. when_found existing create change)
    Makes-create_or key change y = Makes-bind (Makes-find key) λ existing e. rw e y
