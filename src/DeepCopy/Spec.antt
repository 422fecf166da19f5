-- ===== src/DeepCopy/Spec.antt =====
-- api/v1alpha1/zz_generated.deepcopy.go: the copies of the whole desired state.
use talon_db_k8s_operator.Base.{String, [], ◌∷◌}
use talon_db_k8s_operator.Base.Int.{ℤ}
use talon_db_k8s_operator.Kube.{Platform}
use talon_db_k8s_operator.Api.{TlnDbSpec, ReplicationSpec, TlnDbConfig}
use talon_db_k8s_operator.DeepCopy.Alloc.{
  Pointer, Slice, GoMap, Alloc, pure, ◌>>=◌, copy_pointer, copy_slice, copy_map,
}
use talon_db_k8s_operator.DeepCopy.Copyable.{
  Copyable, concat, plain, pointer_to, slice_of, string_map,
}
use talon_db_k8s_operator.DeepCopy.Foreign.{Foreign}
use talon_db_k8s_operator.DeepCopy.Availability.{
  AvailabilitySpecStruct, deep_copy_into_availability_spec, availability_spec,
}
use talon_db_k8s_operator.DeepCopy.Networking.{
  NetworkingSpecStruct, deep_copy_into_networking_spec, networking_spec,
}
use talon_db_k8s_operator.DeepCopy.Observability.{
  ObservabilitySpecStruct, deep_copy_into_observability_spec, observability_spec,
}
use talon_db_k8s_operator.DeepCopy.Storage.{
  StorageSpecStruct, deep_copy_into_storage_spec, storage_spec,
}
use talon_db_k8s_operator.DeepCopy.Workload.{
  ImageSpecStruct, deep_copy_into_image_spec, image_spec, SecuritySpecStruct,
  deep_copy_into_security_spec, security_spec,
}

pub record TlnDbSpecStruct {K : Platform} (F : Foreign K) : Type 0 where
  pub mode : String
  pub replication : ReplicationSpec
  pub image : ImageSpecStruct
  pub replicas : Pointer ℤ
  pub config : TlnDbConfig
  pub config_from : Pointer String
  pub env : Slice F.env_var.Carrier
  pub env_from : Slice F.env_from_source.Carrier
  pub resources : F.resource_requirements.Carrier
  pub storage : StorageSpecStruct F
  pub networking : NetworkingSpecStruct F
  pub security : SecuritySpecStruct F
  pub observability : ObservabilitySpecStruct
  pub availability : AvailabilitySpecStruct
  pub node_selector : GoMap
  pub tolerations : Slice F.toleration.Carrier
  pub affinity : Pointer F.affinity.Carrier
  pub pod_annotations : GoMap
  pub service_account_name : String
  pub init_containers : Slice F.container.Carrier
  pub additional_containers : Slice F.container.Carrier
  pub additional_volumes : Slice F.volume.Carrier
  pub additional_volume_mounts : Slice F.volume_mount.Carrier

unfoldable pub deep_copy_into_tln_db_spec :
    {K : Platform} (F : Foreign K) → TlnDbSpecStruct F → Alloc (TlnDbSpecStruct F)
deep_copy_into_tln_db_spec F source = do
  image ← deep_copy_into_image_spec source.image
  replicas ← copy_pointer pure source.replicas
  config_from ← copy_pointer pure source.config_from
  env ← copy_slice F.env_var.copy source.env
  env_from ← copy_slice F.env_from_source.copy source.env_from
  resources ← F.resource_requirements.copy source.resources
  storage ← deep_copy_into_storage_spec F source.storage
  networking ← deep_copy_into_networking_spec F source.networking
  security ← deep_copy_into_security_spec F source.security
  observability ← deep_copy_into_observability_spec source.observability
  availability ← deep_copy_into_availability_spec source.availability
  node_selector ← copy_map source.node_selector
  tolerations ← copy_slice F.toleration.copy source.tolerations
  affinity ← copy_pointer F.affinity.copy source.affinity
  pod_annotations ← copy_map source.pod_annotations
  init_containers ← copy_slice F.container.copy source.init_containers
  additional_containers ← copy_slice F.container.copy source.additional_containers
  additional_volumes ← copy_slice F.volume.copy source.additional_volumes
  additional_volume_mounts ← copy_slice F.volume_mount.copy source.additional_volume_mounts
  pure (record source {
    replication = source.replication;
    image = image;
    replicas = replicas;
    config = source.config;
    config_from = config_from;
    env = env;
    env_from = env_from;
    resources = resources;
    storage = storage;
    networking = networking;
    security = security;
    observability = observability;
    availability = availability;
    node_selector = node_selector;
    tolerations = tolerations;
    affinity = affinity;
    pod_annotations = pod_annotations;
    init_containers = init_containers;
    additional_containers = additional_containers;
    additional_volumes = additional_volumes;
    additional_volume_mounts = additional_volume_mounts;
  })

unfoldable pub deep_copy_tln_db_spec :
    {K : Platform} (F : Foreign K)
    → Pointer (TlnDbSpecStruct F)
    → Alloc (Pointer (TlnDbSpecStruct F))
deep_copy_tln_db_spec F = copy_pointer (deep_copy_into_tln_db_spec F)

abbrev pub tln_db_spec : {K : Platform} (F : Foreign K) → Copyable (TlnDbSpec K)
tln_db_spec F = record {
  Carrier = TlnDbSpecStruct F;
  value = λ x. record {
    mode = x.mode;
    replication = x.replication;
    image = image_spec.value x.image;
    replicas = (pointer_to (plain ℤ)).value x.replicas;
    config = x.config;
    config_from = (pointer_to (plain String)).value x.config_from;
    env = (slice_of F.env_var).value x.env;
    env_from = (slice_of F.env_from_source).value x.env_from;
    resources = F.resource_requirements.value x.resources;
    storage = (storage_spec F).value x.storage;
    networking = (networking_spec F).value x.networking;
    security = (security_spec F).value x.security;
    observability = observability_spec.value x.observability;
    availability = availability_spec.value x.availability;
    node_selector = string_map.value x.node_selector;
    tolerations = (slice_of F.toleration).value x.tolerations;
    affinity = (pointer_to F.affinity).value x.affinity;
    pod_annotations = string_map.value x.pod_annotations;
    service_account_name = x.service_account_name;
    init_containers = (slice_of F.container).value x.init_containers;
    additional_containers = (slice_of F.container).value x.additional_containers;
    additional_volumes = (slice_of F.volume).value x.additional_volumes;
    additional_volume_mounts = (slice_of F.volume_mount).value x.additional_volume_mounts;
  };
  addresses = λ x. concat (
      image_spec.addresses x.image
      ∷ (pointer_to (plain ℤ)).addresses x.replicas
      ∷ (pointer_to (plain String)).addresses x.config_from
      ∷ (slice_of F.env_var).addresses x.env
      ∷ (slice_of F.env_from_source).addresses x.env_from
      ∷ F.resource_requirements.addresses x.resources
      ∷ (storage_spec F).addresses x.storage
      ∷ (networking_spec F).addresses x.networking
      ∷ (security_spec F).addresses x.security
      ∷ observability_spec.addresses x.observability
      ∷ availability_spec.addresses x.availability
      ∷ string_map.addresses x.node_selector
      ∷ (slice_of F.toleration).addresses x.tolerations
      ∷ (pointer_to F.affinity).addresses x.affinity
      ∷ string_map.addresses x.pod_annotations
      ∷ (slice_of F.container).addresses x.init_containers
      ∷ (slice_of F.container).addresses x.additional_containers
      ∷ (slice_of F.volume).addresses x.additional_volumes
      ∷ (slice_of F.volume_mount).addresses x.additional_volume_mounts
      ∷ []);
  nils = λ x. concat (
      image_spec.nils x.image
      ∷ (pointer_to (plain ℤ)).nils x.replicas
      ∷ (pointer_to (plain String)).nils x.config_from
      ∷ (slice_of F.env_var).nils x.env
      ∷ (slice_of F.env_from_source).nils x.env_from
      ∷ F.resource_requirements.nils x.resources
      ∷ (storage_spec F).nils x.storage
      ∷ (networking_spec F).nils x.networking
      ∷ (security_spec F).nils x.security
      ∷ observability_spec.nils x.observability
      ∷ availability_spec.nils x.availability
      ∷ string_map.nils x.node_selector
      ∷ (slice_of F.toleration).nils x.tolerations
      ∷ (pointer_to F.affinity).nils x.affinity
      ∷ string_map.nils x.pod_annotations
      ∷ (slice_of F.container).nils x.init_containers
      ∷ (slice_of F.container).nils x.additional_containers
      ∷ (slice_of F.volume).nils x.additional_volumes
      ∷ (slice_of F.volume_mount).nils x.additional_volume_mounts
      ∷ []);
  copy = deep_copy_into_tln_db_spec F;
}
