-- ===== src/Controller/Converge/Unchanged.antt =====
-- internal/controller/tlndb_controller.go: the helpers that leave an object alone where it is as
-- desired, but for StatefulSets: they have one shape, and come to rest for one reason.
pub mod Settles
pub mod Kinds
use talon_db_k8s_operator.Base.{
  String, ◌≡◌, refl, ap, sym, ◌∙◌, inl, inr, Bool, true, false, if◌then◌else◌, Bool-cases,
}
use talon_db_k8s_operator.Kube.{Platform, ObjectMeta}
use talon_db_k8s_operator.Controller.Exec.{
  not_found, conflict, other, Reason, Error, ok, err, ok_ne_err, pure, lift, when_found, ◌>>=◌,
}
use talon_db_k8s_operator.Controller.Environment.{Key, KindClient, Runtime, Session}
use talon_db_k8s_operator.Controller.Calls.{Reconcile, the_instance, find, call, steps}
use talon_db_k8s_operator.Controller.Apply.{key_of}
use talon_db_k8s_operator.Controller.Converge.Quiet.{Result-cases}

-- A kind of object, and what its helper compares and writes. `with_meta` is what is created and
-- `changed` what is updated: both have the desired contents, and an update keeps the key.
pub record Kind {K : Platform} (R : Runtime K) (T : Type 0) : Type 1 where
  pub Contents : Type 0
  pub client : KindClient R.World T
  pub meta_of : T → ObjectMeta K
  pub contents : T → Contents
  pub equal : Contents → Contents → Bool
  pub with_meta : T → ObjectMeta K → T
  pub changed : T → ObjectMeta K → T → T
  pub with_meta_key :
      (t : T) (meta : ObjectMeta K) → key_of (meta_of (with_meta t meta)) ≡ key_of meta
  pub with_meta_contents : (t : T) (meta : ObjectMeta K) → contents (with_meta t meta) ≡ contents t
  pub changed_key :
      (found t : T) (meta : ObjectMeta K)
      → key_of (meta_of (changed found meta t)) ≡ key_of (meta_of found)
  pub changed_contents :
      (found t : T) (meta : ObjectMeta K) → contents (changed found meta t) ≡ contents t

-- Objects of a server that no other client writes to: an object is found where it was written,
-- with its contents, under the key that it was read with, and reading changes nothing.
pub record QuietKind {K : Platform} {R : Runtime K} {T : Type 0} (kind : Kind R T) : Type 0 where
  pub equal_refl : (c : kind.Contents) → kind.equal c c ≡ true
  pub read_key :
      (key : Key) (t : T) (w : R.World)
      → (kind.client.get key w).0 ≡ ok t
      → key_of (kind.meta_of t) ≡ key
  pub read_again :
      (key : Key) (w : R.World)
      → (kind.client.get key (kind.client.get key w).1).0 ≡ (kind.client.get key w).0
  pub after_create :
      (t : T) (w : R.World)
      → (kind.client.create t w).0 ≡ ok tt
      → (found : T) × ((kind.client.get (key_of (kind.meta_of t)) (kind.client.create t w).1).0
          ≡ ok found)
        × (kind.contents found ≡ kind.contents t)
  pub after_update :
      (t : T) (w : R.World)
      → (kind.client.update t w).0 ≡ ok tt
      → (found : T) × ((kind.client.get (key_of (kind.meta_of t)) (kind.client.update t w).1).0
          ≡ ok found)
        × (kind.contents found ≡ kind.contents t)

module _ {K : Platform} {R : Runtime K} {T : Type 0} (kind : Kind R T) where
  -- The shape of the helpers
  unfoldable pub apply : T → Reconcile R Unit
  apply desired = do
    meta ← (do inst ← the_instance R; lift (R.set_controller_reference inst (kind.meta_of desired)))
    existing ← find R kind.client (key_of meta)
    when_found existing (call R (kind.client.create (kind.with_meta desired meta))) (λ found.
        if kind.equal (kind.contents found) (kind.contents desired)
        then pure tt
        else call R (kind.client.update (kind.changed found meta desired)))

  module _ (desired : T) (s : Session R) (meta : ObjectMeta K)
      (own : R.set_controller_reference s.instance_in_memory (kind.meta_of desired) ≡ ok meta) where
    pub at_rest :
        (found : T)
        → (kind.client.get (key_of meta) s.world).0 ≡ ok found
        → kind.equal (kind.contents found) (kind.contents desired) ≡ true
        → apply desired s ≡ (ok tt, record s { world = (kind.client.get (key_of meta) s.world).1 })
    unfolding apply steps
    at_rest found read same = rw (own, read, same) refl

    pub run_absent :
        (message : String)
        → (kind.client.get (key_of meta) s.world).0
          ≡ err (record { reason = not_found; message = message })
        → let (r, w) =
            kind.client.create
              (kind.with_meta desired meta)
              (kind.client.get (key_of meta) s.world).1 in
          apply desired s ≡ (r, record s { world = w })
    unfolding apply steps
    run_absent message read = rw (own, read) refl

    pub run_changed :
        (found : T)
        → (kind.client.get (key_of meta) s.world).0 ≡ ok found
        → kind.equal (kind.contents found) (kind.contents desired) ≡ false
        → let (r, w) =
            kind.client.update
              (kind.changed found meta desired)
              (kind.client.get (key_of meta) s.world).1 in
          apply desired s ≡ (r, record s { world = w })
    unfolding apply steps
    run_changed found read differ = rw (own, read, differ) refl

    -- An error that is not "not found" ends the run.
    pub run_failed :
        (reason : Reason) (message : String)
        → (kind.client.get (key_of meta) s.world).0
          ≡ err (record { reason = reason; message = message })
        → (apply desired s).0 ≡ ok tt
        → reason ≡ not_found
    unfolding apply steps
    run_failed not_found message read fine = refl
    run_failed conflict message read fine = absurd (
        ok_ne_err {a = tt} {e = record { reason = conflict; message = message }}
          (sym fine ∙ rw (own, read) refl))
    run_failed other message read fine = absurd (
        ok_ne_err {a = tt} {e = record { reason = other; message = message }}
          (sym fine ∙ rw (own, read) refl))

  -- What a successful run leaves: an object with the desired contents, and the instance as it was.
  abbrev pub Settled : T → ObjectMeta K → Session R → Session R → Type 0
  Settled desired meta s s' =
      (s'.instance_in_memory ≡ s.instance_in_memory)
      × ((found : T) × ((kind.client.get (key_of meta) s'.world).0 ≡ ok found)
          × (kind.equal (kind.contents found) (kind.contents desired) ≡ true))
