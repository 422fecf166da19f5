-- ===== src/DeepCopy/Structs/Networking.antt =====
-- api/v1alpha1/zz_generated.deepcopy.go: the copies of services, the ingress and the network policy are right.
use talon_db_k8s_operator.Base.{String, refl, [], ◌∷◌}
use talon_db_k8s_operator.Kube.{Platform}
use talon_db_k8s_operator.DeepCopy.Copyable.{Lawful, concat}
use talon_db_k8s_operator.DeepCopy.Foreign.{Foreign, LawfulForeign}
use talon_db_k8s_operator.DeepCopy.Laws.{
  Lawful-Built, Built-bind, Built-pure, Lawful-plain, Lawful-pointer_to, Lawful-slice_of,
  Lawful-string_map,
}
use talon_db_k8s_operator.DeepCopy.Networking.{
  service_spec, deep_copy_into_service_spec, ingress_spec, deep_copy_into_ingress_spec,
  network_policy_spec, deep_copy_into_network_policy_spec, networking_spec,
  deep_copy_into_networking_spec,
}

pub Lawful-service_spec : Lawful service_spec
unfolding deep_copy_into_service_spec
Lawful-service_spec = Lawful-Built λ x. Built-bind x.annotations Lawful-string_map λ y0 e0 n0.
    Built-bind x.labels Lawful-string_map λ y1 e1 n1.
      Built-pure _
        (λ i. record { service_type = x.service_type; annotations = e0 i; labels = e1 i })
        (λ i. concat (n0 i ∷ n1 i ∷ [])) refl

pub Lawful-ingress_spec : Lawful ingress_spec
unfolding deep_copy_into_ingress_spec
Lawful-ingress_spec = Lawful-Built λ x.
    Built-bind x.class_name (Lawful-pointer_to (Lawful-plain String)) λ y0 e0 n0.
      Built-bind x.annotations Lawful-string_map λ y1 e1 n1.
        Built-pure _
          (λ i. record {
            enabled = x.enabled;
            class_name = e0 i;
            host = x.host;
            path = x.path;
            tls_secret_name = x.tls_secret_name;
            annotations = e1 i;
          })
          (λ i. concat (n0 i ∷ n1 i ∷ [])) refl

pub Lawful-network_policy_spec :
    {K : Platform} {F : Foreign K} → LawfulForeign F → Lawful (network_policy_spec F)
unfolding deep_copy_into_network_policy_spec
Lawful-network_policy_spec L = Lawful-Built λ x.
    Built-bind x.ingress_rules (Lawful-slice_of L.ingress_rule) λ y0 e0 n0.
      Built-bind x.egress_rules (Lawful-slice_of L.egress_rule) λ y1 e1 n1.
        Built-pure _
          (λ i. record { enabled = x.enabled; ingress_rules = e0 i; egress_rules = e1 i })
          (λ i. concat (n0 i ∷ n1 i ∷ [])) refl

pub Lawful-networking_spec :
    {K : Platform} {F : Foreign K} → LawfulForeign F → Lawful (networking_spec F)
unfolding deep_copy_into_networking_spec
Lawful-networking_spec L = Lawful-Built λ x. Built-bind x.service Lawful-service_spec λ y0 e0 n0.
    Built-bind x.ingress Lawful-ingress_spec λ y1 e1 n1.
      Built-bind x.network_policy (Lawful-network_policy_spec L) λ y2 e2 n2.
        Built-pure _ (λ i. record { service = e0 i; ingress = e1 i; network_policy = e2 i })
          (λ i. concat (n0 i ∷ n1 i ∷ n2 i ∷ [])) refl
