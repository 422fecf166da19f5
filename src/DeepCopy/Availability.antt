-- ===== src/DeepCopy/Availability.antt =====
-- api/v1alpha1/zz_generated.deepcopy.go: the copies of the disruption budget and the autoscaler.
use talon_db_k8s_operator.Base.{Bool, [], ◌∷◌}
use talon_db_k8s_operator.Base.Int.{ℤ}
use talon_db_k8s_operator.Api.{PdbSpec, HpaSpec, AvailabilitySpec}
use talon_db_k8s_operator.DeepCopy.Alloc.{Pointer, Alloc, pure, ◌>>=◌, copy_pointer}
use talon_db_k8s_operator.DeepCopy.Copyable.{Copyable, concat, plain, pointer_to}

pub record PdbSpecStruct : Type 0 where
  pub enabled : Bool
  pub min_available : Pointer ℤ
  pub max_unavailable : Pointer ℤ

unfoldable pub deep_copy_into_pdb_spec : PdbSpecStruct → Alloc PdbSpecStruct
deep_copy_into_pdb_spec source = do
  min_available ← copy_pointer pure source.min_available
  max_unavailable ← copy_pointer pure source.max_unavailable
  pure (record source { min_available = min_available; max_unavailable = max_unavailable })

unfoldable pub deep_copy_pdb_spec : Pointer PdbSpecStruct → Alloc (Pointer PdbSpecStruct)
deep_copy_pdb_spec = copy_pointer deep_copy_into_pdb_spec

abbrev pub pdb_spec : Copyable PdbSpec
pdb_spec = record {
  Carrier = PdbSpecStruct;
  value = λ x. record {
    enabled = x.enabled;
    min_available = (pointer_to (plain ℤ)).value x.min_available;
    max_unavailable = (pointer_to (plain ℤ)).value x.max_unavailable;
  };
  addresses = λ x. concat (
      (pointer_to (plain ℤ)).addresses x.min_available
      ∷ (pointer_to (plain ℤ)).addresses x.max_unavailable
      ∷ []);
  nils = λ x. concat (
      (pointer_to (plain ℤ)).nils x.min_available
      ∷ (pointer_to (plain ℤ)).nils x.max_unavailable
      ∷ []);
  copy = deep_copy_into_pdb_spec;
}

pub record HpaSpecStruct : Type 0 where
  pub enabled : Bool
  pub min_replicas : Pointer ℤ
  pub max_replicas : ℤ
  pub cpu_utilization : Pointer ℤ
  pub memory_utilization : Pointer ℤ

unfoldable pub deep_copy_into_hpa_spec : HpaSpecStruct → Alloc HpaSpecStruct
deep_copy_into_hpa_spec source = do
  min_replicas ← copy_pointer pure source.min_replicas
  cpu_utilization ← copy_pointer pure source.cpu_utilization
  memory_utilization ← copy_pointer pure source.memory_utilization
  pure (record source {
    min_replicas = min_replicas;
    cpu_utilization = cpu_utilization;
    memory_utilization = memory_utilization;
  })

unfoldable pub deep_copy_hpa_spec : Pointer HpaSpecStruct → Alloc (Pointer HpaSpecStruct)
deep_copy_hpa_spec = copy_pointer deep_copy_into_hpa_spec

abbrev pub hpa_spec : Copyable HpaSpec
hpa_spec = record {
  Carrier = HpaSpecStruct;
  value = λ x. record {
    enabled = x.enabled;
    min_replicas = (pointer_to (plain ℤ)).value x.min_replicas;
    max_replicas = x.max_replicas;
    cpu_utilization = (pointer_to (plain ℤ)).value x.cpu_utilization;
    memory_utilization = (pointer_to (plain ℤ)).value x.memory_utilization;
  };
  addresses = λ x. concat (
      (pointer_to (plain ℤ)).addresses x.min_replicas
      ∷ (pointer_to (plain ℤ)).addresses x.cpu_utilization
      ∷ (pointer_to (plain ℤ)).addresses x.memory_utilization
      ∷ []);
  nils = λ x. concat (
      (pointer_to (plain ℤ)).nils x.min_replicas
      ∷ (pointer_to (plain ℤ)).nils x.cpu_utilization
      ∷ (pointer_to (plain ℤ)).nils x.memory_utilization
      ∷ []);
  copy = deep_copy_into_hpa_spec;
}

pub record AvailabilitySpecStruct : Type 0 where
  pub pod_disruption_budget : PdbSpecStruct
  pub horizontal_pod_autoscaler : HpaSpecStruct

unfoldable pub deep_copy_into_availability_spec :
    AvailabilitySpecStruct → Alloc AvailabilitySpecStruct
deep_copy_into_availability_spec source = do
  pod_disruption_budget ← deep_copy_into_pdb_spec source.pod_disruption_budget
  horizontal_pod_autoscaler ← deep_copy_into_hpa_spec source.horizontal_pod_autoscaler
  pure (record source {
    pod_disruption_budget = pod_disruption_budget;
    horizontal_pod_autoscaler = horizontal_pod_autoscaler;
  })

unfoldable pub deep_copy_availability_spec :
    Pointer AvailabilitySpecStruct → Alloc (Pointer AvailabilitySpecStruct)
deep_copy_availability_spec = copy_pointer deep_copy_into_availability_spec

abbrev pub availability_spec : Copyable AvailabilitySpec
availability_spec = record {
  Carrier = AvailabilitySpecStruct;
  value = λ x. record {
    pod_disruption_budget = pdb_spec.value x.pod_disruption_budget;
    horizontal_pod_autoscaler = hpa_spec.value x.horizontal_pod_autoscaler;
  };
  addresses = λ x. concat (
      pdb_spec.addresses x.pod_disruption_budget
      ∷ hpa_spec.addresses x.horizontal_pod_autoscaler
      ∷ []);
  nils = λ x.
      concat
        (pdb_spec.nils x.pod_disruption_budget ∷ hpa_spec.nils x.horizontal_pod_autoscaler ∷ []);
  copy = deep_copy_into_availability_spec;
}
