-- ===== src/Controller/Converge/Ignored.antt =====
-- internal/controller/tlndb_controller.go: what `statefulSetNeedsUpdate` does not look at.
use talon_db_k8s_operator.Base.{◌≡◌, refl, ap, List, [], ◌∷◌, map, not, ◌==◌}
use talon_db_k8s_operator.Kube.{Platform, Container, StatefulSet}
use talon_db_k8s_operator.Controller.Environment.{Runtime}
use talon_db_k8s_operator.Controller.Apply.{images_differ, stateful_set_needs_update}
use talon_db_k8s_operator.Controller.Converge.Quiet.{ReadBack}

images_differ_cong :
    {K : Platform} (old new new' : List (Container K))
    → map (λ c. c.image) new ≡ map (λ c. c.image) new'
    → images_differ old new ≡ images_differ old new'
images_differ_cong [] new new' e = refl
images_differ_cong (a ∷ old) [] [] e = refl
images_differ_cong (a ∷ old) [] (c ∷ new') e = absurd cc
images_differ_cong (a ∷ old) (b ∷ new) [] e = absurd cc
images_differ_cong (a ∷ old) (b ∷ new) (c ∷ new') e =
    let same : b.image ≡ c.image = cc in ap (λ image. not (a.image == image)) same

-- Two desired sets with the same replicas, pod annotations and container images are treated alike:
-- whatever else differs between them (environment, resources, probes, volumes, the selector), an
-- existing set needs an update for the one exactly if it does for the other.
pub stateful_set_needs_update-ignores :
    {K : Platform} (R : Runtime K) (existing desired desired' : StatefulSet K)
    → ReadBack desired desired'
    → stateful_set_needs_update R existing desired ≡ stateful_set_needs_update R existing desired'
unfolding stateful_set_needs_update
stateful_set_needs_update-ignores R existing desired desired' same =
    rw
      (
        same.replicas,
        same.annotations,
        images_differ_cong existing.spec.template.spec.containers
            desired.spec.template.spec.containers desired'.spec.template.spec.containers
            same.images_same,
      )
      refl
