-- ===== src/DeepCopy/Package.antt =====
-- api/v1alpha1/zz_generated.deepcopy.go: every type of the API package that has a `DeepCopy`.
pub mod Copies
use talon_db_k8s_operator.Kube.{Platform}
use talon_db_k8s_operator.Api.{
  TlnDb, AvailabilitySpec, HpaSpec, HealthSpec, ImageSpec, IngressSpec, MetricsSpec,
  NetworkPolicySpec, NetworkingSpec, ObservabilitySpec, PdbSpec, PersistenceSpec, ReplicationSpec,
  SecuritySpec, ServiceMonitorSpec, ServiceSpec, StorageSpec, TlnDbConfig, TlnDbSpec, TlnDbStatus,
}
use talon_db_k8s_operator.DeepCopy.Alloc.{Pointer, Alloc}
use talon_db_k8s_operator.DeepCopy.Copyable.{Copyable}
use talon_db_k8s_operator.DeepCopy.Foreign.{Foreign}
use talon_db_k8s_operator.DeepCopy.Availability.{
  availability_spec, deep_copy_availability_spec, hpa_spec, deep_copy_hpa_spec, pdb_spec,
  deep_copy_pdb_spec,
}
use talon_db_k8s_operator.DeepCopy.Observability.{
  health_spec, deep_copy_health_spec, metrics_spec, deep_copy_metrics_spec, observability_spec,
  deep_copy_observability_spec, service_monitor_spec, deep_copy_service_monitor_spec,
}
use talon_db_k8s_operator.DeepCopy.Workload.{
  image_spec, deep_copy_image_spec, replication_spec, deep_copy_replication_spec, security_spec,
  deep_copy_security_spec, tln_db_config, deep_copy_tln_db_config,
}
use talon_db_k8s_operator.DeepCopy.Networking.{
  ingress_spec, deep_copy_ingress_spec, network_policy_spec, deep_copy_network_policy_spec,
  networking_spec, deep_copy_networking_spec, service_spec, deep_copy_service_spec,
}
use talon_db_k8s_operator.DeepCopy.Storage.{
  persistence_spec, deep_copy_persistence_spec, storage_spec, deep_copy_storage_spec,
}
use talon_db_k8s_operator.DeepCopy.Resource.{
  TypeMeta, TlnDbList, tln_db, deep_copy_tln_db, tln_db_list, deep_copy_tln_db_list,
}
use talon_db_k8s_operator.DeepCopy.Spec.{tln_db_spec, deep_copy_tln_db_spec}
use talon_db_k8s_operator.DeepCopy.Status.{tln_db_status, deep_copy_tln_db_status}

pub data ApiType : Type 0 where
  availability hpa health image ingress metrics network_policy networking observability pdb
        persistence replication security service_monitor service storage resource config
        resource_list spec status :
      ApiType

module _ {K : Platform} (F : Foreign K) where
  abbrev pub Value : ApiType → Type 0
  Value availability = AvailabilitySpec
  Value hpa = HpaSpec
  Value health = HealthSpec
  Value image = ImageSpec
  Value ingress = IngressSpec
  Value metrics = MetricsSpec
  Value network_policy = NetworkPolicySpec K
  Value networking = NetworkingSpec K
  Value observability = ObservabilitySpec
  Value pdb = PdbSpec
  Value persistence = PersistenceSpec K
  Value replication = ReplicationSpec
  Value security = SecuritySpec K
  Value service_monitor = ServiceMonitorSpec
  Value service = ServiceSpec
  Value storage = StorageSpec K
  Value resource = TypeMeta × TlnDb K
  Value config = TlnDbConfig
  Value resource_list = TlnDbList F
  Value spec = TlnDbSpec K
  Value status = TlnDbStatus

  abbrev pub copyable : (t : ApiType) → Copyable (Value t)
  copyable availability = availability_spec
  copyable hpa = hpa_spec
  copyable health = health_spec
  copyable image = image_spec
  copyable ingress = ingress_spec
  copyable metrics = metrics_spec
  copyable network_policy = network_policy_spec F
  copyable networking = networking_spec F
  copyable observability = observability_spec
  copyable pdb = pdb_spec
  copyable persistence = persistence_spec F
  copyable replication = replication_spec
  copyable security = security_spec F
  copyable service_monitor = service_monitor_spec
  copyable service = service_spec
  copyable storage = storage_spec F
  copyable resource = tln_db F
  copyable config = tln_db_config
  copyable resource_list = tln_db_list F
  copyable spec = tln_db_spec F
  copyable status = tln_db_status F

  abbrev pub Struct : ApiType → Type 0
  Struct t = (copyable t).Carrier

  -- The method `DeepCopy` of each type.
  unfoldable pub deep_copy : (t : ApiType) → Pointer (Struct t) → Alloc (Pointer (Struct t))
  deep_copy availability = deep_copy_availability_spec
  deep_copy hpa = deep_copy_hpa_spec
  deep_copy health = deep_copy_health_spec
  deep_copy image = deep_copy_image_spec
  deep_copy ingress = deep_copy_ingress_spec
  deep_copy metrics = deep_copy_metrics_spec
  deep_copy network_policy = deep_copy_network_policy_spec F
  deep_copy networking = deep_copy_networking_spec F
  deep_copy observability = deep_copy_observability_spec
  deep_copy pdb = deep_copy_pdb_spec
  deep_copy persistence = deep_copy_persistence_spec F
  deep_copy replication = deep_copy_replication_spec
  deep_copy security = deep_copy_security_spec F
  deep_copy service_monitor = deep_copy_service_monitor_spec
  deep_copy service = deep_copy_service_spec
  deep_copy storage = deep_copy_storage_spec F
  deep_copy resource = deep_copy_tln_db F
  deep_copy config = deep_copy_tln_db_config
  deep_copy resource_list = deep_copy_tln_db_list F
  deep_copy spec = deep_copy_tln_db_spec F
  deep_copy status = deep_copy_tln_db_status F
