-- ===== src/DeepCopy/Package/Copies.antt =====
-- api/v1alpha1/zz_generated.deepcopy.go: what every `DeepCopy` of the package answers.
use talon_db_k8s_operator.Base.{ℕ, ◌≤◌, ◌<◌, ◌≡◌, ◌≢◌, Option, Bool, List, arith}
use talon_db_k8s_operator.Base.Each.{EachIs, EachIs-map}
use talon_db_k8s_operator.Kube.{Platform}
use talon_db_k8s_operator.DeepCopy.Alloc.{Pointer}
use talon_db_k8s_operator.DeepCopy.Copyable.{Copied, Lawful, pointer_to}
use talon_db_k8s_operator.DeepCopy.Foreign.{Foreign, LawfulForeign}
use talon_db_k8s_operator.DeepCopy.Fresh.{Distinct}
use talon_db_k8s_operator.DeepCopy.Laws.{Lawful-pointer_to}
use talon_db_k8s_operator.DeepCopy.Package.{
  ApiType, availability, hpa, health, image, ingress, metrics, network_policy, networking,
  observability, pdb, persistence, replication, security, service_monitor, service, storage,
  resource, config, resource_list, spec, status, Value, copyable, Struct, deep_copy,
}
use talon_db_k8s_operator.DeepCopy.Availability.{
  deep_copy_availability_spec, deep_copy_hpa_spec, deep_copy_pdb_spec,
}
use talon_db_k8s_operator.DeepCopy.Observability.{
  deep_copy_health_spec, deep_copy_metrics_spec, deep_copy_observability_spec,
  deep_copy_service_monitor_spec,
}
use talon_db_k8s_operator.DeepCopy.Workload.{
  deep_copy_image_spec, deep_copy_replication_spec, deep_copy_security_spec,
  deep_copy_tln_db_config,
}
use talon_db_k8s_operator.DeepCopy.Networking.{
  deep_copy_ingress_spec, deep_copy_network_policy_spec, deep_copy_networking_spec,
  deep_copy_service_spec,
}
use talon_db_k8s_operator.DeepCopy.Storage.{deep_copy_persistence_spec, deep_copy_storage_spec}
use talon_db_k8s_operator.DeepCopy.Resource.{deep_copy_tln_db, deep_copy_tln_db_list}
use talon_db_k8s_operator.DeepCopy.Spec.{deep_copy_tln_db_spec}
use talon_db_k8s_operator.DeepCopy.Status.{deep_copy_tln_db_status}
use talon_db_k8s_operator.DeepCopy.Structs.Availability.{
  Lawful-availability_spec, Lawful-hpa_spec, Lawful-pdb_spec,
}
use talon_db_k8s_operator.DeepCopy.Structs.Observability.{
  Lawful-health_spec, Lawful-metrics_spec, Lawful-observability_spec, Lawful-service_monitor_spec,
}
use talon_db_k8s_operator.DeepCopy.Structs.Workload.{
  Lawful-image_spec, Lawful-replication_spec, Lawful-security_spec, Lawful-tln_db_config,
}
use talon_db_k8s_operator.DeepCopy.Structs.Networking.{
  Lawful-ingress_spec, Lawful-network_policy_spec, Lawful-networking_spec, Lawful-service_spec,
}
use talon_db_k8s_operator.DeepCopy.Structs.Storage.{Lawful-persistence_spec, Lawful-storage_spec}
use talon_db_k8s_operator.DeepCopy.Structs.Resource.{Lawful-tln_db, Lawful-tln_db_list}
use talon_db_k8s_operator.DeepCopy.Structs.Spec.{Lawful-tln_db_spec}
use talon_db_k8s_operator.DeepCopy.Structs.Status.{Lawful-tln_db_status}

module _ {K : Platform} (F : Foreign K) where
  -- The cells that a pointer leads to, its own included.
  abbrev pub cells : (t : ApiType) → Pointer (Struct F t) → List ℕ
  cells t = (pointer_to (copyable F t)).addresses

  abbrev pub meaning : (t : ApiType) → Pointer (Struct F t) → Option (Value F t)
  meaning t = (pointer_to (copyable F t)).value

  -- Which pointers, slices and maps are nil, its own included.
  abbrev pub nils : (t : ApiType) → Pointer (Struct F t) → List Bool
  nils t = (pointer_to (copyable F t)).nils

  -- `c` was made from `x` when the addresses from `n` on were free.
  abbrev pub IsDeepCopy : (t : ApiType) → Pointer (Struct F t) → ℕ → Pointer (Struct F t) → Type 0
  IsDeepCopy t x n c =
      (meaning t c ≡ meaning t x)
      × (nils t c ≡ nils t x)
      × EachIs (λ b. (n ≤ b) × EachIs (λ a. a ≢ b) (cells t x)) (cells t c)
      × Distinct (cells t c)

module _ {K : Platform} {F : Foreign K} (L : LawfulForeign F) where
  copyable-Lawful : (t : ApiType) → Lawful (copyable F t)
  copyable-Lawful availability = Lawful-availability_spec
  copyable-Lawful hpa = Lawful-hpa_spec
  copyable-Lawful health = Lawful-health_spec
  copyable-Lawful image = Lawful-image_spec
  copyable-Lawful ingress = Lawful-ingress_spec
  copyable-Lawful metrics = Lawful-metrics_spec
  copyable-Lawful network_policy = Lawful-network_policy_spec L
  copyable-Lawful networking = Lawful-networking_spec L
  copyable-Lawful observability = Lawful-observability_spec
  copyable-Lawful pdb = Lawful-pdb_spec
  copyable-Lawful persistence = Lawful-persistence_spec L
  copyable-Lawful replication = Lawful-replication_spec
  copyable-Lawful security = Lawful-security_spec L
  copyable-Lawful service_monitor = Lawful-service_monitor_spec
  copyable-Lawful service = Lawful-service_spec
  copyable-Lawful storage = Lawful-storage_spec L
  copyable-Lawful resource = Lawful-tln_db L
  copyable-Lawful config = Lawful-tln_db_config
  copyable-Lawful resource_list = Lawful-tln_db_list L
  copyable-Lawful spec = Lawful-tln_db_spec L
  copyable-Lawful status = Lawful-tln_db_status L

  deep_copy-Copied :
      (t : ApiType) (x : Pointer (Struct F t)) (n : ℕ)
      → Copied (pointer_to (copyable F t)) x n (deep_copy F t x n)
  unfolding deep_copy deep_copy_availability_spec deep_copy_hpa_spec deep_copy_health_spec
      deep_copy_image_spec deep_copy_ingress_spec deep_copy_metrics_spec
      deep_copy_network_policy_spec deep_copy_networking_spec deep_copy_observability_spec
      deep_copy_pdb_spec deep_copy_persistence_spec deep_copy_replication_spec
      deep_copy_security_spec deep_copy_service_monitor_spec deep_copy_service_spec
      deep_copy_storage_spec deep_copy_tln_db deep_copy_tln_db_config deep_copy_tln_db_list
      deep_copy_tln_db_spec deep_copy_tln_db_status
  deep_copy-Copied availability = (Lawful-pointer_to (copyable-Lawful availability)).at
  deep_copy-Copied hpa = (Lawful-pointer_to (copyable-Lawful hpa)).at
  deep_copy-Copied health = (Lawful-pointer_to (copyable-Lawful health)).at
  deep_copy-Copied image = (Lawful-pointer_to (copyable-Lawful image)).at
  deep_copy-Copied ingress = (Lawful-pointer_to (copyable-Lawful ingress)).at
  deep_copy-Copied metrics = (Lawful-pointer_to (copyable-Lawful metrics)).at
  deep_copy-Copied network_policy = (Lawful-pointer_to (copyable-Lawful network_policy)).at
  deep_copy-Copied networking = (Lawful-pointer_to (copyable-Lawful networking)).at
  deep_copy-Copied observability = (Lawful-pointer_to (copyable-Lawful observability)).at
  deep_copy-Copied pdb = (Lawful-pointer_to (copyable-Lawful pdb)).at
  deep_copy-Copied persistence = (Lawful-pointer_to (copyable-Lawful persistence)).at
  deep_copy-Copied replication = (Lawful-pointer_to (copyable-Lawful replication)).at
  deep_copy-Copied security = (Lawful-pointer_to (copyable-Lawful security)).at
  deep_copy-Copied service_monitor = (Lawful-pointer_to (copyable-Lawful service_monitor)).at
  deep_copy-Copied service = (Lawful-pointer_to (copyable-Lawful service)).at
  deep_copy-Copied storage = (Lawful-pointer_to (copyable-Lawful storage)).at
  deep_copy-Copied resource = (Lawful-pointer_to (copyable-Lawful resource)).at
  deep_copy-Copied config = (Lawful-pointer_to (copyable-Lawful config)).at
  deep_copy-Copied resource_list = (Lawful-pointer_to (copyable-Lawful resource_list)).at
  deep_copy-Copied spec = (Lawful-pointer_to (copyable-Lawful spec)).at
  deep_copy-Copied status = (Lawful-pointer_to (copyable-Lawful status)).at

  -- For every type of the package, given that the copies of the Kubernetes types are right and that
  -- all cells of the original were in use: `DeepCopy` answers nil for nil, and else the same value,
  -- with nil at just those pointers, slices and maps where the original has it; each cell of the
  -- copy was free before, no two are the same, and none is a cell of the original.
  pub deep_copy-IsDeepCopy :
      (t : ApiType) (x : Pointer (Struct F t)) (n : ℕ)
      → EachIs (λ a. a < n) (cells F t x)
      → IsDeepCopy F t x n (deep_copy F t x n).0
  deep_copy-IsDeepCopy t x n used =
      let copied = deep_copy-Copied t x n in
      (
        copied.same,
        copied.alike,
        EachIs-map _ _ _ (λ b w. (w.0, EachIs-map _ _ _ (λ a u. ground (arith, w.0, u)) used))
            copied.fresh.within,
        copied.fresh.distinct,
      )
