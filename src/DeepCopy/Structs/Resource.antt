-- ===== src/DeepCopy/Structs/Resource.antt =====
-- api/v1alpha1/zz_generated.deepcopy.go: the copies of the custom resource and of a list are right.
use talon_db_k8s_operator.Base.{refl, [], ◌∷◌}
use talon_db_k8s_operator.Kube.{Platform}
use talon_db_k8s_operator.DeepCopy.Copyable.{Lawful, concat}
use talon_db_k8s_operator.DeepCopy.Foreign.{Foreign, LawfulForeign}
use talon_db_k8s_operator.DeepCopy.Laws.{Lawful-Built, Built-bind, Built-pure, Lawful-slice_of}
use talon_db_k8s_operator.DeepCopy.Structs.Spec.{Lawful-tln_db_spec}
use talon_db_k8s_operator.DeepCopy.Structs.Status.{Lawful-tln_db_status}
use talon_db_k8s_operator.DeepCopy.Resource.{
  tln_db, deep_copy_into_tln_db, tln_db_list, deep_copy_into_tln_db_list,
}

pub Lawful-tln_db : {K : Platform} {F : Foreign K} → LawfulForeign F → Lawful (tln_db F)
unfolding deep_copy_into_tln_db
Lawful-tln_db L = Lawful-Built λ x. Built-bind x.meta L.object_meta λ y0 e0 n0.
    Built-bind x.spec (Lawful-tln_db_spec L) λ y1 e1 n1.
      Built-bind x.status (Lawful-tln_db_status L) λ y2 e2 n2.
        Built-pure _ (λ i. (x.type_meta, record { meta = e0 i; spec = e1 i; status = e2 i }))
          (λ i. concat (n0 i ∷ n1 i ∷ n2 i ∷ [])) refl

pub Lawful-tln_db_list : {K : Platform} {F : Foreign K} → LawfulForeign F → Lawful (tln_db_list F)
unfolding deep_copy_into_tln_db_list
Lawful-tln_db_list L = Lawful-Built λ x. Built-bind x.list_meta L.list_meta λ y0 e0 n0.
    Built-bind x.items (Lawful-slice_of (Lawful-tln_db L)) λ y1 e1 n1.
      Built-pure _ (λ i. record { type_meta = x.type_meta; list_meta = e0 i; items = e1 i })
        (λ i. concat (n0 i ∷ n1 i ∷ [])) refl
