-- ===== src/DeepCopy/Resource.antt =====
-- api/v1alpha1/zz_generated.deepcopy.go: the copies of the custom resource and of a list of them.
use talon_db_k8s_operator.Base.{String, List, [], ◌∷◌}
use talon_db_k8s_operator.Kube.{Platform}
use talon_db_k8s_operator.Api.{TlnDb}
use talon_db_k8s_operator.DeepCopy.Alloc.{
  Pointer, Slice, Alloc, pure, ◌>>=◌, copy_pointer, copy_slice,
}
use talon_db_k8s_operator.DeepCopy.Copyable.{Copyable, concat, slice_of}
use talon_db_k8s_operator.DeepCopy.Foreign.{Foreign}
use talon_db_k8s_operator.DeepCopy.Spec.{TlnDbSpecStruct, deep_copy_into_tln_db_spec, tln_db_spec}
use talon_db_k8s_operator.DeepCopy.Status.{
  TlnDbStatusStruct, deep_copy_into_tln_db_status, tln_db_status,
}

-- `metav1.TypeMeta`
pub record TypeMeta : Type 0 where
  pub kind : String
  pub api_version : String

pub record TlnDbStruct {K : Platform} (F : Foreign K) : Type 0 where
  pub type_meta : TypeMeta
  pub meta : F.object_meta.Carrier
  pub spec : TlnDbSpecStruct F
  pub status : TlnDbStatusStruct F

unfoldable pub deep_copy_into_tln_db :
    {K : Platform} (F : Foreign K) → TlnDbStruct F → Alloc (TlnDbStruct F)
deep_copy_into_tln_db F source = do
  meta ← F.object_meta.copy source.meta
  spec ← deep_copy_into_tln_db_spec F source.spec
  status ← deep_copy_into_tln_db_status F source.status
  pure (record source { type_meta = source.type_meta; meta = meta; spec = spec; status = status })

unfoldable pub deep_copy_tln_db :
    {K : Platform} (F : Foreign K) → Pointer (TlnDbStruct F) → Alloc (Pointer (TlnDbStruct F))
deep_copy_tln_db F = copy_pointer (deep_copy_into_tln_db F)

abbrev pub resource_value : {K : Platform} (F : Foreign K) → TlnDbStruct F → TlnDb K
resource_value F x = record {
  meta = F.object_meta.value x.meta;
  spec = (tln_db_spec F).value x.spec;
  status = (tln_db_status F).value x.status;
}

abbrev pub tln_db : {K : Platform} (F : Foreign K) → Copyable (TypeMeta × TlnDb K)
tln_db F = record {
  Carrier = TlnDbStruct F;
  value = λ x. (x.type_meta, resource_value F x);
  addresses = λ x. concat (
      F.object_meta.addresses x.meta
      ∷ (tln_db_spec F).addresses x.spec
      ∷ (tln_db_status F).addresses x.status
      ∷ []);
  nils = λ x. concat (
      F.object_meta.nils x.meta
      ∷ (tln_db_spec F).nils x.spec
      ∷ (tln_db_status F).nils x.status
      ∷ []);
  copy = deep_copy_into_tln_db F;
}

pub record TlnDbList {K : Platform} (F : Foreign K) : Type 0 where
  pub type_meta : TypeMeta
  pub list_meta : F.ListMeta
  pub items : List (TypeMeta × TlnDb K)

pub record TlnDbListStruct {K : Platform} (F : Foreign K) : Type 0 where
  pub type_meta : TypeMeta
  pub list_meta : F.list_meta.Carrier
  pub items : Slice (TlnDbStruct F)

unfoldable pub deep_copy_into_tln_db_list :
    {K : Platform} (F : Foreign K) → TlnDbListStruct F → Alloc (TlnDbListStruct F)
deep_copy_into_tln_db_list F source = do
  list_meta ← F.list_meta.copy source.list_meta
  items ← copy_slice (deep_copy_into_tln_db F) source.items
  pure (record source { type_meta = source.type_meta; list_meta = list_meta; items = items })

unfoldable pub deep_copy_tln_db_list :
    {K : Platform} (F : Foreign K)
    → Pointer (TlnDbListStruct F)
    → Alloc (Pointer (TlnDbListStruct F))
deep_copy_tln_db_list F = copy_pointer (deep_copy_into_tln_db_list F)

abbrev pub tln_db_list : {K : Platform} (F : Foreign K) → Copyable (TlnDbList F)
tln_db_list F = record {
  Carrier = TlnDbListStruct F;
  value = λ x. record {
    type_meta = x.type_meta;
    list_meta = F.list_meta.value x.list_meta;
    items = (slice_of (tln_db F)).value x.items;
  };
  addresses = λ x.
      concat (F.list_meta.addresses x.list_meta ∷ (slice_of (tln_db F)).addresses x.items ∷ []);
  nils = λ x. concat (F.list_meta.nils x.list_meta ∷ (slice_of (tln_db F)).nils x.items ∷ []);
  copy = deep_copy_into_tln_db_list F;
}
