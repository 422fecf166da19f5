-- ===== src/Controller/Converge/Unchanged/Settles.antt =====
-- internal/controller/tlndb_controller.go: a second run of such a helper makes no call but a read.
use talon_db_k8s_operator.Base.{◌≡◌, refl, ap, sym, ◌∙◌, inl, inr, true, false, Bool-cases}
use talon_db_k8s_operator.Kube.{Platform, ObjectMeta}
use talon_db_k8s_operator.Controller.Exec.{Error, ok, err}
use talon_db_k8s_operator.Controller.Environment.{Runtime, Session}
use talon_db_k8s_operator.Controller.Apply.{key_of}
use talon_db_k8s_operator.Controller.Converge.Quiet.{Result-cases}
use talon_db_k8s_operator.Controller.Converge.Unchanged.{
  Kind, QuietKind, apply, at_rest, run_absent, run_changed, run_failed, Settled,
}

module _ {K : Platform} {R : Runtime K} {T : Type 0} (kind : Kind R T) (quiet : QuietKind kind)
    (desired : T) (s : Session R) (meta : ObjectMeta K)
    (own : R.set_controller_reference s.instance_in_memory (kind.meta_of desired) ≡ ok meta) where
  same_contents :
      (found : T)
      → kind.contents found ≡ kind.contents desired
      → kind.equal (kind.contents found) (kind.contents desired) ≡ true
  same_contents found e = rw e (quiet.equal_refl (kind.contents desired))

  after_absent :
      (e : Error)
      → (kind.client.get (key_of meta) s.world).0 ≡ err e
      → (apply kind desired s).0 ≡ ok tt
      → Settled kind desired meta s (apply kind desired s).1
  after_absent e read fine =
      let missing =
        read
        ∙ ap (λ r. err (record e { reason = r }))
            (run_failed kind desired s meta own e.reason e.message read fine) in
      let run = run_absent kind desired s meta own e.message missing in
      let written = kind.with_meta desired meta in
      let w = (kind.client.get (key_of meta) s.world).1 in
      let (found, at, same) = quiet.after_create written w (ap (λ q. q.0) (sym run) ∙ fine) in
      rw run (
        refl,
        (
          found,
          ap (λ key. (kind.client.get key (kind.client.create written w).1).0)
                (sym (kind.with_meta_key desired meta))
              ∙ at,
          same_contents found (same ∙ kind.with_meta_contents desired meta),
        ),
      )

  after_changed :
      (old : T)
      → (kind.client.get (key_of meta) s.world).0 ≡ ok old
      → kind.equal (kind.contents old) (kind.contents desired) ≡ false
      → (apply kind desired s).0 ≡ ok tt
      → Settled kind desired meta s (apply kind desired s).1
  after_changed old read differ fine =
      let run = run_changed kind desired s meta own old read differ in
      let written = kind.changed old meta desired in
      let w = (kind.client.get (key_of meta) s.world).1 in
      let (found, at, same) = quiet.after_update written w (ap (λ q. q.0) (sym run) ∙ fine) in
      let key = kind.changed_key old desired meta ∙ quiet.read_key (key_of meta) old s.world read in
      rw run (
        refl,
        (
          found,
          ap (λ key. (kind.client.get key (kind.client.update written w).1).0) (sym key) ∙ at,
          same_contents found (same ∙ kind.changed_contents old desired meta),
        ),
      )

  after_same :
      (old : T)
      → (kind.client.get (key_of meta) s.world).0 ≡ ok old
      → kind.equal (kind.contents old) (kind.contents desired) ≡ true
      → Settled kind desired meta s (apply kind desired s).1
  after_same old read same =
      rw (at_rest kind desired s meta own old read same)
        (refl, (old, quiet.read_again (key_of meta) s.world ∙ read, same))

  first_run :
      (apply kind desired s).0 ≡ ok tt → Settled kind desired meta s (apply kind desired s).1
  first_run fine = elim (Result-cases (kind.client.get (key_of meta) s.world).0) [
    | inr (e, read) ↦ after_absent e read fine
    | inl (old, read) ↦ elim (Bool-cases (kind.equal (kind.contents old) (kind.contents desired))) [
      | inl same ↦ after_same old read same
      | inr differ ↦ after_changed old read differ fine
    ]
  ]

  pub apply-settles :
      (apply kind desired s).0 ≡ ok tt
      → let s' = (apply kind desired s).1 in
        apply kind desired s'
        ≡ (ok tt, record s' { world = (kind.client.get (key_of meta) s'.world).1 })
  apply-settles fine =
      let (kept, (found, read, same)) = first_run fine in
      at_rest kind desired (apply kind desired s).1 meta
        (ap (λ inst. R.set_controller_reference inst (kind.meta_of desired)) kept ∙ own) found read
        same
