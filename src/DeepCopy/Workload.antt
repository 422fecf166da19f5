-- ===== src/DeepCopy/Workload.antt =====
-- api/v1alpha1/zz_generated.deepcopy.go: the copies of the image, replication, the configuration and security.
use talon_db_k8s_operator.Base.{String, [], ◌∷◌}
use talon_db_k8s_operator.Base.Int.{ℤ}
use talon_db_k8s_operator.Kube.{Platform}
use talon_db_k8s_operator.Api.{ImageSpec, ReplicationSpec, TlnDbConfig, SecuritySpec}
use talon_db_k8s_operator.DeepCopy.Alloc.{
  Pointer, Slice, Alloc, pure, ◌>>=◌, copy_pointer, copy_slice,
}
use talon_db_k8s_operator.DeepCopy.Copyable.{Copyable, concat, plain, pointer_to, slice_of}
use talon_db_k8s_operator.DeepCopy.Foreign.{Foreign}

pub record ImageSpecStruct : Type 0 where
  pub repository : String
  pub tag : String
  pub digest : String
  pub pull_policy : String
  pub pull_secrets : Slice String

unfoldable pub deep_copy_into_image_spec : ImageSpecStruct → Alloc ImageSpecStruct
deep_copy_into_image_spec source = do
  pull_secrets ← copy_slice pure source.pull_secrets
  pure (record source { pull_secrets = pull_secrets })

unfoldable pub deep_copy_image_spec : Pointer ImageSpecStruct → Alloc (Pointer ImageSpecStruct)
deep_copy_image_spec = copy_pointer deep_copy_into_image_spec

abbrev pub image_spec : Copyable ImageSpec
image_spec = record {
  Carrier = ImageSpecStruct;
  value = λ x. record {
    repository = x.repository;
    tag = x.tag;
    digest = x.digest;
    pull_policy = x.pull_policy;
    pull_secrets = (slice_of (plain String)).value x.pull_secrets;
  };
  addresses = λ x. concat ((slice_of (plain String)).addresses x.pull_secrets ∷ []);
  nils = λ x. concat ((slice_of (plain String)).nils x.pull_secrets ∷ []);
  copy = deep_copy_into_image_spec;
}

unfoldable pub deep_copy_into_replication_spec : ReplicationSpec → Alloc ReplicationSpec
deep_copy_into_replication_spec source = pure source

unfoldable pub deep_copy_replication_spec :
    Pointer ReplicationSpec → Alloc (Pointer ReplicationSpec)
deep_copy_replication_spec = copy_pointer deep_copy_into_replication_spec

abbrev pub replication_spec : Copyable ReplicationSpec
replication_spec = record {
  Carrier = ReplicationSpec;
  value = λ x. x;
  addresses = λ _. [];
  nils = λ _. [];
  copy = deep_copy_into_replication_spec;
}

unfoldable pub deep_copy_into_tln_db_config : TlnDbConfig → Alloc TlnDbConfig
deep_copy_into_tln_db_config source = pure source

unfoldable pub deep_copy_tln_db_config : Pointer TlnDbConfig → Alloc (Pointer TlnDbConfig)
deep_copy_tln_db_config = copy_pointer deep_copy_into_tln_db_config

abbrev pub tln_db_config : Copyable TlnDbConfig
tln_db_config = record {
  Carrier = TlnDbConfig;
  value = λ x. x;
  addresses = λ _. [];
  nils = λ _. [];
  copy = deep_copy_into_tln_db_config;
}

pub record SecuritySpecStruct {K : Platform} (F : Foreign K) : Type 0 where
  pub pod_security_context : Pointer F.pod_security_context.Carrier
  pub container_security_context : Pointer F.security_context.Carrier
  pub fs_group : Pointer ℤ

unfoldable pub deep_copy_into_security_spec :
    {K : Platform} (F : Foreign K) → SecuritySpecStruct F → Alloc (SecuritySpecStruct F)
deep_copy_into_security_spec F source = do
  pod_security_context ← copy_pointer F.pod_security_context.copy source.pod_security_context
  container_security_context ←
      copy_pointer F.security_context.copy source.container_security_context
  fs_group ← copy_pointer pure source.fs_group
  pure (record source {
    pod_security_context = pod_security_context;
    container_security_context = container_security_context;
    fs_group = fs_group;
  })

unfoldable pub deep_copy_security_spec :
    {K : Platform} (F : Foreign K)
    → Pointer (SecuritySpecStruct F)
    → Alloc (Pointer (SecuritySpecStruct F))
deep_copy_security_spec F = copy_pointer (deep_copy_into_security_spec F)

abbrev pub security_spec : {K : Platform} (F : Foreign K) → Copyable (SecuritySpec K)
security_spec F = record {
  Carrier = SecuritySpecStruct F;
  value = λ x. record {
    pod_security_context = (pointer_to F.pod_security_context).value x.pod_security_context;
    container_security_context = (pointer_to F.security_context).value x.container_security_context;
    fs_group = (pointer_to (plain ℤ)).value x.fs_group;
  };
  addresses = λ x. concat (
      (pointer_to F.pod_security_context).addresses x.pod_security_context
      ∷ (pointer_to F.security_context).addresses x.container_security_context
      ∷ (pointer_to (plain ℤ)).addresses x.fs_group
      ∷ []);
  nils = λ x. concat (
      (pointer_to F.pod_security_context).nils x.pod_security_context
      ∷ (pointer_to F.security_context).nils x.container_security_context
      ∷ (pointer_to (plain ℤ)).nils x.fs_group
      ∷ []);
  copy = deep_copy_into_security_spec F;
}
