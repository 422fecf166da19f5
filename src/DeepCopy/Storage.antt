-- ===== src/DeepCopy/Storage.antt =====
-- api/v1alpha1/zz_generated.deepcopy.go: the copies of the claim of the database.
use talon_db_k8s_operator.Base.{String, Bool, [], ◌∷◌}
use talon_db_k8s_operator.Kube.{Platform}
use talon_db_k8s_operator.Api.{PersistenceSpec, StorageSpec}
use talon_db_k8s_operator.DeepCopy.Alloc.{
  Pointer, Slice, Alloc, pure, ◌>>=◌, copy_pointer, copy_slice,
}
use talon_db_k8s_operator.DeepCopy.Copyable.{Copyable, concat, plain, pointer_to, slice_of}
use talon_db_k8s_operator.DeepCopy.Foreign.{Foreign}

pub record PersistenceSpecStruct {K : Platform} (F : Foreign K) : Type 0 where
  pub enabled : Pointer Bool
  pub size : F.quantity.Carrier
  pub storage_class_name : Pointer String
  pub access_modes : Slice String
  pub existing_claim : String

unfoldable pub deep_copy_into_persistence_spec :
    {K : Platform} (F : Foreign K) → PersistenceSpecStruct F → Alloc (PersistenceSpecStruct F)
deep_copy_into_persistence_spec F source = do
  enabled ← copy_pointer pure source.enabled
  size ← F.quantity.copy source.size
  storage_class_name ← copy_pointer pure source.storage_class_name
  access_modes ← copy_slice pure source.access_modes
  pure (record source {
    enabled = enabled;
    size = size;
    storage_class_name = storage_class_name;
    access_modes = access_modes;
  })

unfoldable pub deep_copy_persistence_spec :
    {K : Platform} (F : Foreign K)
    → Pointer (PersistenceSpecStruct F)
    → Alloc (Pointer (PersistenceSpecStruct F))
deep_copy_persistence_spec F = copy_pointer (deep_copy_into_persistence_spec F)

abbrev pub persistence_spec : {K : Platform} (F : Foreign K) → Copyable (PersistenceSpec K)
persistence_spec F = record {
  Carrier = PersistenceSpecStruct F;
  value = λ x. record {
    enabled = (pointer_to (plain Bool)).value x.enabled;
    size = F.quantity.value x.size;
    storage_class_name = (pointer_to (plain String)).value x.storage_class_name;
    access_modes = (slice_of (plain String)).value x.access_modes;
    existing_claim = x.existing_claim;
  };
  addresses = λ x. concat (
      (pointer_to (plain Bool)).addresses x.enabled
      ∷ F.quantity.addresses x.size
      ∷ (pointer_to (plain String)).addresses x.storage_class_name
      ∷ (slice_of (plain String)).addresses x.access_modes
      ∷ []);
  nils = λ x. concat (
      (pointer_to (plain Bool)).nils x.enabled
      ∷ F.quantity.nils x.size
      ∷ (pointer_to (plain String)).nils x.storage_class_name
      ∷ (slice_of (plain String)).nils x.access_modes
      ∷ []);
  copy = deep_copy_into_persistence_spec F;
}

pub record StorageSpecStruct {K : Platform} (F : Foreign K) : Type 0 where
  pub persistence : PersistenceSpecStruct F

unfoldable pub deep_copy_into_storage_spec :
    {K : Platform} (F : Foreign K) → StorageSpecStruct F → Alloc (StorageSpecStruct F)
deep_copy_into_storage_spec F source = do
  persistence ← deep_copy_into_persistence_spec F source.persistence
  pure (record source { persistence = persistence })

unfoldable pub deep_copy_storage_spec :
    {K : Platform} (F : Foreign K)
    → Pointer (StorageSpecStruct F)
    → Alloc (Pointer (StorageSpecStruct F))
deep_copy_storage_spec F = copy_pointer (deep_copy_into_storage_spec F)

abbrev pub storage_spec : {K : Platform} (F : Foreign K) → Copyable (StorageSpec K)
storage_spec F = record {
  Carrier = StorageSpecStruct F;
  value = λ x. record { persistence = (persistence_spec F).value x.persistence };
  addresses = λ x. concat ((persistence_spec F).addresses x.persistence ∷ []);
  nils = λ x. concat ((persistence_spec F).nils x.persistence ∷ []);
  copy = deep_copy_into_storage_spec F;
}
