-- ===== src/Controller/Converge.antt =====
-- internal/controller/tlndb_controller.go: `createOrUpdateStatefulSet` comes to rest.
pub mod Quiet
pub mod Ignored
pub mod Unchanged
pub mod Scaled
use talon_db_k8s_operator.Base.{
  String, ◌≡◌, ◌≢◌, refl, ap, sym, ◌∙◌, ◌⊎◌, inl, inr, Bool, true, false, Option, List, [], ◌∷◌,
  map, Bool-cases, ◌==◌, ==_iff,
}
use talon_db_k8s_operator.Base.Int.{ℤ}
use talon_db_k8s_operator.Kube.{Platform, ObjectMeta, Container, StatefulSet}
use talon_db_k8s_operator.Controller.Exec.{
  ok_ne_err, Error, Result, ok, err, Reason, not_found, conflict, other,
}
use talon_db_k8s_operator.Controller.Environment.{Key, Runtime, Session}
use talon_db_k8s_operator.Controller.Calls.{steps}
use talon_db_k8s_operator.Controller.Apply.{
  key_of, hash_annotation, images_differ, stateful_set_needs_update, updated_stateful_set,
  create_or_update_stateful_set,
}
use talon_db_k8s_operator.Controller.Converge.Quiet.{
  Result-cases, ReadBack, QuietSets, settled-ReadBack,
}

module _ {K : Platform} (R : Runtime K) (quiet : QuietSets R) where
  at_rest :
      (desired : StatefulSet K) (s : Session R) (meta : ObjectMeta K) (existing : StatefulSet K)
      → R.set_controller_reference s.instance_in_memory desired.meta ≡ ok meta
      → (R.stateful_sets.get (key_of meta) s.world).0 ≡ ok existing
      → stateful_set_needs_update R existing desired ≡ false
      → create_or_update_stateful_set R desired s
        ≡ (ok tt, record s { world = (R.stateful_sets.get (key_of meta) s.world).1 })
  unfolding create_or_update_stateful_set steps
  at_rest desired s meta existing own read same = rw (own, read, same) refl

  -- What the first run leaves, if it succeeds: a set that needs no update is found.
  abbrev pub LeftSettled : (desired : StatefulSet K) (meta : ObjectMeta K) (w : R.World) → Type 0
  LeftSettled desired meta w =
      (found : StatefulSet K) × ((R.stateful_sets.get (key_of meta) w).0 ≡ ok found)
      × (stateful_set_needs_update R found desired ≡ false)

  run_absent :
      (desired : StatefulSet K) (s : Session R) (meta : ObjectMeta K) (message : String)
      → R.set_controller_reference s.instance_in_memory desired.meta ≡ ok meta
      → (R.stateful_sets.get (key_of meta) s.world).0
        ≡ err (record { reason = not_found; message = message })
      → let answer =
          R.stateful_sets.create
            (record desired { meta = meta })
            (R.stateful_sets.get (key_of meta) s.world).1 in
        ((create_or_update_stateful_set R desired s).0 ≡ answer.0)
        × ((create_or_update_stateful_set R desired s).1.world ≡ answer.1)
  unfolding create_or_update_stateful_set steps
  run_absent desired s meta message own read = rw (own, read) (refl, refl)

  run_outdated :
      (desired : StatefulSet K) (s : Session R) (meta : ObjectMeta K) (existing : StatefulSet K)
      → R.set_controller_reference s.instance_in_memory desired.meta ≡ ok meta
      → (R.stateful_sets.get (key_of meta) s.world).0 ≡ ok existing
      → stateful_set_needs_update R existing desired ≡ true
      → let answer =
          R.stateful_sets.update
            (updated_stateful_set R existing (record desired { meta = meta }))
            (R.stateful_sets.get (key_of meta) s.world).1 in
        ((create_or_update_stateful_set R desired s).0 ≡ answer.0)
        × ((create_or_update_stateful_set R desired s).1.world ≡ answer.1)
  unfolding create_or_update_stateful_set steps
  run_outdated desired s meta existing own read old = rw (own, read, old) (refl, refl)

  -- An error that is not "not found" ends the run.
  run_failed :
      (desired : StatefulSet K) (s : Session R) (meta : ObjectMeta K) (reason : Reason)
      (message : String)
      → R.set_controller_reference s.instance_in_memory desired.meta ≡ ok meta
      → (R.stateful_sets.get (key_of meta) s.world).0
        ≡ err (record { reason = reason; message = message })
      → (create_or_update_stateful_set R desired s).0 ≡ ok tt
      → reason ≡ not_found
  unfolding create_or_update_stateful_set steps
  run_failed desired s meta not_found message own read fine = refl
  run_failed desired s meta conflict message own read fine = absurd (
      ok_ne_err {a = tt} {e = record { reason = conflict; message = message }}
        (sym fine ∙ rw (own, read) refl))
  run_failed desired s meta other message own read fine = absurd (
      ok_ne_err {a = tt} {e = record { reason = other; message = message }}
        (sym fine ∙ rw (own, read) refl))

  settled_fields :
      (found written desired : StatefulSet K)
      → ReadBack found written
      → written.spec.replicas ≡ desired.spec.replicas
      → written.spec.template ≡ desired.spec.template
      → stateful_set_needs_update R found desired ≡ false
  settled_fields found written desired same replicas template =
      settled-ReadBack R quiet found desired (record {
        replicas = same.replicas ∙ replicas;
        annotations = same.annotations ∙ ap (λ t. t.annotations) template;
        images_same = same.images_same ∙ ap (λ t. map (λ c. c.image) t.spec.containers) template;
      })

  after_absent :
      (desired : StatefulSet K) (s : Session R) (meta : ObjectMeta K) (e : Error)
      → R.set_controller_reference s.instance_in_memory desired.meta ≡ ok meta
      → (R.stateful_sets.get (key_of meta) s.world).0 ≡ err e
      → (create_or_update_stateful_set R desired s).0 ≡ ok tt
      → LeftSettled desired meta (create_or_update_stateful_set R desired s).1.world
  after_absent desired s meta e own read fine =
      let (answer, world) = run_absent desired s meta e.message own (
        read
        ∙ ap (λ r. err (record e { reason = r }))
            (run_failed desired s meta e.reason e.message own read fine)) in
      let (found, at, same) =
        quiet.after_create (record desired { meta = meta }) _ (sym answer ∙ fine) in
      rw world (found, at, settled_fields found _ desired same refl refl)

  after_outdated :
      (desired : StatefulSet K) (s : Session R) (meta : ObjectMeta K) (existing : StatefulSet K)
      → R.set_controller_reference s.instance_in_memory desired.meta ≡ ok meta
      → (R.stateful_sets.get (key_of meta) s.world).0 ≡ ok existing
      → stateful_set_needs_update R existing desired ≡ true
      → (create_or_update_stateful_set R desired s).0 ≡ ok tt
      → LeftSettled desired meta (create_or_update_stateful_set R desired s).1.world
  after_outdated desired s meta existing own read old fine =
      let (answer, world) = run_outdated desired s meta existing own read old in
      let written = updated_stateful_set R existing (record desired { meta = meta }) in
      let w = (R.stateful_sets.get (key_of meta) s.world).1 in
      let (found, at, same) = quiet.after_update written w (sym answer ∙ fine) in
      rw world (
        found,
        ap (λ key. (R.stateful_sets.get key (R.stateful_sets.update written w).1).0)
              (sym (quiet.read_key (key_of meta) existing s.world read))
            ∙ at,
        settled_fields found _ desired same refl refl,
      )

  after_settled :
      (desired : StatefulSet K) (s : Session R) (meta : ObjectMeta K) (existing : StatefulSet K)
      → R.set_controller_reference s.instance_in_memory desired.meta ≡ ok meta
      → (R.stateful_sets.get (key_of meta) s.world).0 ≡ ok existing
      → stateful_set_needs_update R existing desired ≡ false
      → LeftSettled desired meta (create_or_update_stateful_set R desired s).1.world
  after_settled desired s meta existing own read same =
      rw (at_rest desired s meta existing own read same)
        (existing, quiet.read_again (key_of meta) s.world ∙ read, same)

  -- A run leaves the instance in memory as it is.
  kept_after_error :
      (desired : StatefulSet K) (s : Session R) (meta : ObjectMeta K) (reason : Reason)
      (message : String)
      → R.set_controller_reference s.instance_in_memory desired.meta ≡ ok meta
      → (R.stateful_sets.get (key_of meta) s.world).0
        ≡ err (record { reason = reason; message = message })
      → (create_or_update_stateful_set R desired s).1.instance_in_memory ≡ s.instance_in_memory
  unfolding create_or_update_stateful_set steps
  kept_after_error desired s meta not_found message own read = rw (own, read) refl
  kept_after_error desired s meta conflict message own read = rw (own, read) refl
  kept_after_error desired s meta other message own read = rw (own, read) refl

  kept_after_read :
      (desired : StatefulSet K) (s : Session R) (meta : ObjectMeta K) (existing : StatefulSet K)
      (update : Bool)
      → R.set_controller_reference s.instance_in_memory desired.meta ≡ ok meta
      → (R.stateful_sets.get (key_of meta) s.world).0 ≡ ok existing
      → stateful_set_needs_update R existing desired ≡ update
      → (create_or_update_stateful_set R desired s).1.instance_in_memory ≡ s.instance_in_memory
  unfolding create_or_update_stateful_set steps
  kept_after_read desired s meta existing true own read needs = rw (own, read, needs) refl
  kept_after_read desired s meta existing false own read needs = rw (own, read, needs) refl

  second_run :
      (desired : StatefulSet K) (s s' : Session R) (meta : ObjectMeta K)
      → R.set_controller_reference s.instance_in_memory desired.meta ≡ ok meta
      → s'.instance_in_memory ≡ s.instance_in_memory
      → LeftSettled desired meta s'.world
      → create_or_update_stateful_set R desired s'
        ≡ (ok tt, record s' { world = (R.stateful_sets.get (key_of meta) s'.world).1 })
  second_run desired s s' meta own kept (found, read, same) =
      at_rest desired s' meta found
        (ap (λ inst. R.set_controller_reference inst desired.meta) kept ∙ own) read same

  pub left_settled :
      (desired : StatefulSet K) (s : Session R) (meta : ObjectMeta K)
      → R.set_controller_reference s.instance_in_memory desired.meta ≡ ok meta
      → (create_or_update_stateful_set R desired s).0 ≡ ok tt
      → LeftSettled desired meta (create_or_update_stateful_set R desired s).1.world
  left_settled desired s meta own fine =
      elim (Result-cases (R.stateful_sets.get (key_of meta) s.world).0) [
        | inr (e, read) ↦ after_absent desired s meta e own read fine
        | inl (existing, read) ↦ elim (Bool-cases (stateful_set_needs_update R existing desired)) [
          | inl old ↦ after_outdated desired s meta existing own read old fine
          | inr same ↦ after_settled desired s meta existing own read same
        ]
      ]

  kept :
      (desired : StatefulSet K) (s : Session R) (meta : ObjectMeta K)
      → R.set_controller_reference s.instance_in_memory desired.meta ≡ ok meta
      → (create_or_update_stateful_set R desired s).1.instance_in_memory ≡ s.instance_in_memory
  kept desired s meta own = elim (Result-cases (R.stateful_sets.get (key_of meta) s.world).0) [
    | inr (e, read) ↦ kept_after_error desired s meta e.reason e.message own read
    | inl (existing, read) ↦ elim (Bool-cases (stateful_set_needs_update R existing desired)) [
      | inl old ↦ kept_after_read desired s meta existing true own read old
      | inr same ↦ kept_after_read desired s meta existing false own read same
    ]
  ]

  -- Of StatefulSets that read back as they were written (`QuietSets`): if the owner reference can
  -- be set and a first run succeeds, then a second run with the same desired set succeeds, makes
  -- no call but one read, emits no event and leaves the instance in memory as it is.
  pub create_or_update_stateful_set-settles :
      (desired : StatefulSet K) (s : Session R) (meta : ObjectMeta K)
      → R.set_controller_reference s.instance_in_memory desired.meta ≡ ok meta
      → (create_or_update_stateful_set R desired s).0 ≡ ok tt
      → create_or_update_stateful_set R desired (create_or_update_stateful_set R desired s).1 ≡ (
        ok tt,
        record (create_or_update_stateful_set R desired s).1 {
          world =
              (R.stateful_sets.get
                (key_of meta)
                (create_or_update_stateful_set R desired s).1.world).1;
        },
      )
  create_or_update_stateful_set-settles desired s meta own fine =
      second_run desired s (create_or_update_stateful_set R desired s).1 meta own
        (kept desired s meta own) (left_settled desired s meta own fine)
