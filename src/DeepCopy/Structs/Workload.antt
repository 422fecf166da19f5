-- ===== src/DeepCopy/Structs/Workload.antt =====
-- api/v1alpha1/zz_generated.deepcopy.go: the copies of the image, replication, the configuration and security are right.
use talon_db_k8s_operator.Base.{String, refl, [], ◌∷◌}
use talon_db_k8s_operator.Base.Int.{ℤ}
use talon_db_k8s_operator.Kube.{Platform}
use talon_db_k8s_operator.DeepCopy.Copyable.{Lawful, concat}
use talon_db_k8s_operator.DeepCopy.Foreign.{Foreign, LawfulForeign}
use talon_db_k8s_operator.DeepCopy.Laws.{
  Lawful-Built, Built-bind, Built-pure, Lawful-plain, Lawful-pointer_to, Lawful-slice_of,
}
use talon_db_k8s_operator.DeepCopy.Workload.{
  image_spec, deep_copy_into_image_spec, replication_spec, deep_copy_into_replication_spec,
  tln_db_config, deep_copy_into_tln_db_config, security_spec, deep_copy_into_security_spec,
}

pub Lawful-image_spec : Lawful image_spec
unfolding deep_copy_into_image_spec
Lawful-image_spec = Lawful-Built λ x.
    Built-bind x.pull_secrets (Lawful-slice_of (Lawful-plain String)) λ y0 e0 n0.
      Built-pure _
        (λ i. record {
          repository = x.repository;
          tag = x.tag;
          digest = x.digest;
          pull_policy = x.pull_policy;
          pull_secrets = e0 i;
        })
        (λ i. concat (n0 i ∷ [])) refl

pub Lawful-replication_spec : Lawful replication_spec
unfolding deep_copy_into_replication_spec
Lawful-replication_spec = Lawful-Built λ x. Built-pure _ refl refl refl

pub Lawful-tln_db_config : Lawful tln_db_config
unfolding deep_copy_into_tln_db_config
Lawful-tln_db_config = Lawful-Built λ x. Built-pure _ refl refl refl

pub Lawful-security_spec :
    {K : Platform} {F : Foreign K} → LawfulForeign F → Lawful (security_spec F)
unfolding deep_copy_into_security_spec
Lawful-security_spec L = Lawful-Built λ x.
    Built-bind x.pod_security_context (Lawful-pointer_to L.pod_security_context) λ y0 e0 n0.
      Built-bind x.container_security_context (Lawful-pointer_to L.security_context) λ y1 e1 n1.
        Built-bind x.fs_group (Lawful-pointer_to (Lawful-plain ℤ)) λ y2 e2 n2.
          Built-pure _
            (λ i. record {
              pod_security_context = e0 i;
              container_security_context = e1 i;
              fs_group = e2 i;
            })
            (λ i. concat (n0 i ∷ n1 i ∷ n2 i ∷ [])) refl
