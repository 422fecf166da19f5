-- ===== src/DeepCopy/Structs/Status.antt =====
-- api/v1alpha1/zz_generated.deepcopy.go: the copies of the observed state are right.
use talon_db_k8s_operator.Base.{String, refl, [], ◌∷◌}
use talon_db_k8s_operator.Kube.{Platform}
use talon_db_k8s_operator.DeepCopy.Copyable.{Lawful, concat}
use talon_db_k8s_operator.DeepCopy.Foreign.{Foreign, LawfulForeign}
use talon_db_k8s_operator.DeepCopy.Laws.{
  Lawful-Built, Built-bind, Built-pure, Lawful-plain, Lawful-slice_of, Lawful-present,
}
use talon_db_k8s_operator.DeepCopy.Status.{tln_db_status, deep_copy_into_tln_db_status}

pub Lawful-tln_db_status :
    {K : Platform} {F : Foreign K} → LawfulForeign F → Lawful (tln_db_status F)
unfolding deep_copy_into_tln_db_status
Lawful-tln_db_status L = Lawful-Built λ x.
    Built-bind x.conditions (Lawful-slice_of L.condition) λ y0 e0 n0.
      Built-bind x.managed_resources (Lawful-slice_of (Lawful-plain String)) λ y1 e1 n1.
        Built-bind x.last_update_time (Lawful-present L.time_pointer) λ y2 e2 n2.
          Built-pure _
            (λ i. record {
              phase = x.phase;
              conditions = e0 i;
              observed_generation = x.observed_generation;
              ready_replicas = x.ready_replicas;
              current_image = x.current_image;
              managed_resources = e1 i;
              last_update_time = e2 i;
            })
            (λ i. concat (n0 i ∷ n1 i ∷ n2 i ∷ [])) refl
