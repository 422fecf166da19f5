-- ===== src/DeepCopy/Networking.antt =====
-- api/v1alpha1/zz_generated.deepcopy.go: the copies of services, the ingress and the network policy.
use talon_db_k8s_operator.Base.{String, Bool, [], ◌∷◌}
use talon_db_k8s_operator.Kube.{Platform}
use talon_db_k8s_operator.Api.{ServiceSpec, IngressSpec, NetworkPolicySpec, NetworkingSpec}
use talon_db_k8s_operator.DeepCopy.Alloc.{
  Pointer, Slice, GoMap, Alloc, pure, ◌>>=◌, copy_pointer, copy_slice, copy_map,
}
use talon_db_k8s_operator.DeepCopy.Copyable.{
  Copyable, concat, plain, pointer_to, slice_of, string_map,
}
use talon_db_k8s_operator.DeepCopy.Foreign.{Foreign}

pub record ServiceSpecStruct : Type 0 where
  pub service_type : String
  pub annotations : GoMap
  pub labels : GoMap

unfoldable pub deep_copy_into_service_spec : ServiceSpecStruct → Alloc ServiceSpecStruct
deep_copy_into_service_spec source = do
  annotations ← copy_map source.annotations
  labels ← copy_map source.labels
  pure (record source { annotations = annotations; labels = labels })

unfoldable pub deep_copy_service_spec :
    Pointer ServiceSpecStruct → Alloc (Pointer ServiceSpecStruct)
deep_copy_service_spec = copy_pointer deep_copy_into_service_spec

abbrev pub service_spec : Copyable ServiceSpec
service_spec = record {
  Carrier = ServiceSpecStruct;
  value = λ x. record {
    service_type = x.service_type;
    annotations = string_map.value x.annotations;
    labels = string_map.value x.labels;
  };
  addresses = λ x. concat (string_map.addresses x.annotations ∷ string_map.addresses x.labels ∷ []);
  nils = λ x. concat (string_map.nils x.annotations ∷ string_map.nils x.labels ∷ []);
  copy = deep_copy_into_service_spec;
}

pub record IngressSpecStruct : Type 0 where
  pub enabled : Bool
  pub class_name : Pointer String
  pub host : String
  pub path : String
  pub tls_secret_name : String
  pub annotations : GoMap

unfoldable pub deep_copy_into_ingress_spec : IngressSpecStruct → Alloc IngressSpecStruct
deep_copy_into_ingress_spec source = do
  class_name ← copy_pointer pure source.class_name
  annotations ← copy_map source.annotations
  pure (record source { class_name = class_name; annotations = annotations })

unfoldable pub deep_copy_ingress_spec :
    Pointer IngressSpecStruct → Alloc (Pointer IngressSpecStruct)
deep_copy_ingress_spec = copy_pointer deep_copy_into_ingress_spec

abbrev pub ingress_spec : Copyable IngressSpec
ingress_spec = record {
  Carrier = IngressSpecStruct;
  value = λ x. record {
    enabled = x.enabled;
    class_name = (pointer_to (plain String)).value x.class_name;
    host = x.host;
    path = x.path;
    tls_secret_name = x.tls_secret_name;
    annotations = string_map.value x.annotations;
  };
  addresses = λ x. concat (
      (pointer_to (plain String)).addresses x.class_name ∷ string_map.addresses x.annotations ∷ []);
  nils = λ x.
      concat ((pointer_to (plain String)).nils x.class_name ∷ string_map.nils x.annotations ∷ []);
  copy = deep_copy_into_ingress_spec;
}

pub record NetworkPolicySpecStruct {K : Platform} (F : Foreign K) : Type 0 where
  pub enabled : Bool
  pub ingress_rules : Slice F.ingress_rule.Carrier
  pub egress_rules : Slice F.egress_rule.Carrier

unfoldable pub deep_copy_into_network_policy_spec :
    {K : Platform} (F : Foreign K) → NetworkPolicySpecStruct F → Alloc (NetworkPolicySpecStruct F)
deep_copy_into_network_policy_spec F source = do
  ingress_rules ← copy_slice F.ingress_rule.copy source.ingress_rules
  egress_rules ← copy_slice F.egress_rule.copy source.egress_rules
  pure (record source { ingress_rules = ingress_rules; egress_rules = egress_rules })

unfoldable pub deep_copy_network_policy_spec :
    {K : Platform} (F : Foreign K)
    → Pointer (NetworkPolicySpecStruct F)
    → Alloc (Pointer (NetworkPolicySpecStruct F))
deep_copy_network_policy_spec F = copy_pointer (deep_copy_into_network_policy_spec F)

abbrev pub network_policy_spec : {K : Platform} (F : Foreign K) → Copyable (NetworkPolicySpec K)
network_policy_spec F = record {
  Carrier = NetworkPolicySpecStruct F;
  value = λ x. record {
    enabled = x.enabled;
    ingress_rules = (slice_of F.ingress_rule).value x.ingress_rules;
    egress_rules = (slice_of F.egress_rule).value x.egress_rules;
  };
  addresses = λ x. concat (
      (slice_of F.ingress_rule).addresses x.ingress_rules
      ∷ (slice_of F.egress_rule).addresses x.egress_rules
      ∷ []);
  nils = λ x. concat (
      (slice_of F.ingress_rule).nils x.ingress_rules
      ∷ (slice_of F.egress_rule).nils x.egress_rules
      ∷ []);
  copy = deep_copy_into_network_policy_spec F;
}

pub record NetworkingSpecStruct {K : Platform} (F : Foreign K) : Type 0 where
  pub service : ServiceSpecStruct
  pub ingress : IngressSpecStruct
  pub network_policy : NetworkPolicySpecStruct F

unfoldable pub deep_copy_into_networking_spec :
    {K : Platform} (F : Foreign K) → NetworkingSpecStruct F → Alloc (NetworkingSpecStruct F)
deep_copy_into_networking_spec F source = do
  service ← deep_copy_into_service_spec source.service
  ingress ← deep_copy_into_ingress_spec source.ingress
  network_policy ← deep_copy_into_network_policy_spec F source.network_policy
  pure (record source { service = service; ingress = ingress; network_policy = network_policy })

unfoldable pub deep_copy_networking_spec :
    {K : Platform} (F : Foreign K)
    → Pointer (NetworkingSpecStruct F)
    → Alloc (Pointer (NetworkingSpecStruct F))
deep_copy_networking_spec F = copy_pointer (deep_copy_into_networking_spec F)

abbrev pub networking_spec : {K : Platform} (F : Foreign K) → Copyable (NetworkingSpec K)
networking_spec F = record {
  Carrier = NetworkingSpecStruct F;
  value = λ x. record {
    service = service_spec.value x.service;
    ingress = ingress_spec.value x.ingress;
    network_policy = (network_policy_spec F).value x.network_policy;
  };
  addresses = λ x. concat (
      service_spec.addresses x.service
      ∷ ingress_spec.addresses x.ingress
      ∷ (network_policy_spec F).addresses x.network_policy
      ∷ []);
  nils = λ x. concat (
      service_spec.nils x.service
      ∷ ingress_spec.nils x.ingress
      ∷ (network_policy_spec F).nils x.network_policy
      ∷ []);
  copy = deep_copy_into_networking_spec F;
}
