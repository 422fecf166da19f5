-- ===== src/Controller/Converge/Quiet.antt =====
-- internal/controller/tlndb_controller.go: when a StatefulSet needs no update.
use talon_db_k8s_operator.Base.{
  String, ◌≡◌, refl, ◌⊎◌, inl, inr, true, false, Option, List, [], ◌∷◌, map, ◌==◌, ==_iff,
}
use talon_db_k8s_operator.Base.Int.{ℤ}
use talon_db_k8s_operator.Kube.{Platform, Container, StatefulSet}
use talon_db_k8s_operator.Controller.Exec.{Error, Result, ok, err}
use talon_db_k8s_operator.Controller.Environment.{Key, Runtime}
use talon_db_k8s_operator.Controller.Apply.{
  key_of, hash_annotation, images_differ, stateful_set_needs_update,
}

pub Result-cases :
    {A : Type 0} (r : Result A) → ((a : A) × (r ≡ ok a)) ⊎ ((e : Error) × (r ≡ err e))
Result-cases (ok a) = inl (a, refl)
Result-cases (err e) = inr (e, refl)

same_text : (s : String) → (s == s) ≡ true
same_text s = (==_iff s s).1 refl

abbrev images : {K : Platform} → StatefulSet K → List String
images sts = map (λ c. c.image) sts.spec.template.spec.containers

images_differ_same :
    {K : Platform} (old new : List (Container K))
    → map (λ c. c.image) old ≡ map (λ c. c.image) new
    → images_differ old new ≡ false
images_differ_same [] new e = refl
images_differ_same (a ∷ olds) [] e = refl
images_differ_same (a ∷ olds) (b ∷ news) e =
    let same : a.image ≡ b.image = cc in rw ((==_iff a.image b.image).1 same) refl

-- What a read has to bring back of a set that was written; the server may fill in the rest.
pub record ReadBack {K : Platform} (found written : StatefulSet K) : Type 0 where
  pub replicas : found.spec.replicas ≡ written.spec.replicas
  pub annotations : found.spec.template.annotations ≡ written.spec.template.annotations
  pub images_same : images found ≡ images written

-- StatefulSets of an API server that no other client writes to: a set is found where it was
-- written, under the key that it was read with, and reading changes nothing.
pub record QuietSets {K : Platform} (R : Runtime K) : Type 0 where
  pub equal_replicas_refl : (n : Option ℤ) → R.equal_replicas n n ≡ true
  pub read_key :
      (key : Key) (sts : StatefulSet K) (w : R.World)
      → (R.stateful_sets.get key w).0 ≡ ok sts
      → key_of sts.meta ≡ key
  pub read_again :
      (key : Key) (w : R.World)
      → (R.stateful_sets.get key (R.stateful_sets.get key w).1).0 ≡ (R.stateful_sets.get key w).0
  pub after_create :
      (sts : StatefulSet K) (w : R.World)
      → (R.stateful_sets.create sts w).0 ≡ ok tt
      → (found : StatefulSet K) × ((R.stateful_sets.get
            (key_of sts.meta)
            (R.stateful_sets.create sts w).1).0
          ≡ ok found)
        × ReadBack found sts
  pub after_update :
      (sts : StatefulSet K) (w : R.World)
      → (R.stateful_sets.update sts w).0 ≡ ok tt
      → (found : StatefulSet K) × ((R.stateful_sets.get
            (key_of sts.meta)
            (R.stateful_sets.update sts w).1).0
          ≡ ok found)
        × ReadBack found sts

module _ {K : Platform} (R : Runtime K) (quiet : QuietSets R) where
  -- A set that reads back as desired needs no update.
  pub settled-ReadBack :
      (found desired : StatefulSet K)
      → ReadBack found desired
      → stateful_set_needs_update R found desired ≡ false
  unfolding stateful_set_needs_update
  settled-ReadBack found desired same =
      rw
        (
          same.replicas,
          quiet.equal_replicas_refl desired.spec.replicas,
          same.annotations,
          same_text (hash_annotation desired.spec.template.annotations),
          images_differ_same found.spec.template.spec.containers
              desired.spec.template.spec.containers same.images_same,
        )
        refl
