-- ===== src/DeepCopy/Structs/Storage.antt =====
-- api/v1alpha1/zz_generated.deepcopy.go: the copies of the claim of the database are right.
use talon_db_k8s_operator.Base.{String, Bool, refl, [], ◌∷◌}
use talon_db_k8s_operator.Kube.{Platform}
use talon_db_k8s_operator.DeepCopy.Copyable.{Lawful, concat}
use talon_db_k8s_operator.DeepCopy.Foreign.{Foreign, LawfulForeign}
use talon_db_k8s_operator.DeepCopy.Laws.{
  Lawful-Built, Built-bind, Built-pure, Lawful-plain, Lawful-pointer_to, Lawful-slice_of,
}
use talon_db_k8s_operator.DeepCopy.Storage.{
  persistence_spec, deep_copy_into_persistence_spec, storage_spec, deep_copy_into_storage_spec,
}

pub Lawful-persistence_spec :
    {K : Platform} {F : Foreign K} → LawfulForeign F → Lawful (persistence_spec F)
unfolding deep_copy_into_persistence_spec
Lawful-persistence_spec L = Lawful-Built λ x.
    Built-bind x.enabled (Lawful-pointer_to (Lawful-plain Bool)) λ y0 e0 n0.
      Built-bind x.size L.quantity λ y1 e1 n1.
        Built-bind x.storage_class_name (Lawful-pointer_to (Lawful-plain String)) λ y2 e2 n2.
          Built-bind x.access_modes (Lawful-slice_of (Lawful-plain String)) λ y3 e3 n3.
            Built-pure _
              (λ i. record {
                enabled = e0 i;
                size = e1 i;
                storage_class_name = e2 i;
                access_modes = e3 i;
                existing_claim = x.existing_claim;
              })
              (λ i. concat (n0 i ∷ n1 i ∷ n2 i ∷ n3 i ∷ [])) refl

pub Lawful-storage_spec : {K : Platform} {F : Foreign K} → LawfulForeign F → Lawful (storage_spec F)
unfolding deep_copy_into_storage_spec
Lawful-storage_spec L = Lawful-Built λ x.
    Built-bind x.persistence (Lawful-persistence_spec L)
      λ y0 e0 n0. Built-pure _ (λ i. record { persistence = e0 i }) (λ i. concat (n0 i ∷ [])) refl
