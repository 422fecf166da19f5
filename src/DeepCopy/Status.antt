-- ===== src/DeepCopy/Status.antt =====
-- api/v1alpha1/zz_generated.deepcopy.go: the copies of the observed state.
use talon_db_k8s_operator.Base.{String, Option, [], ◌∷◌}
use talon_db_k8s_operator.Base.Int.{ℤ}
use talon_db_k8s_operator.Kube.{Platform}
use talon_db_k8s_operator.Api.{TlnDbStatus}
use talon_db_k8s_operator.DeepCopy.Alloc.{
  Pointer, Slice, Alloc, pure, ◌>>=◌, copy_pointer, copy_present, copy_slice,
}
use talon_db_k8s_operator.DeepCopy.Copyable.{Copyable, concat, plain, slice_of, present}
use talon_db_k8s_operator.DeepCopy.Foreign.{Foreign}

pub record TlnDbStatusStruct {K : Platform} (F : Foreign K) : Type 0 where
  pub phase : String
  pub conditions : Slice F.condition.Carrier
  pub observed_generation : ℤ
  pub ready_replicas : ℤ
  pub current_image : String
  pub managed_resources : Slice String
  pub last_update_time : Option F.time_pointer.Carrier

unfoldable pub deep_copy_into_tln_db_status :
    {K : Platform} (F : Foreign K) → TlnDbStatusStruct F → Alloc (TlnDbStatusStruct F)
deep_copy_into_tln_db_status F source = do
  conditions ← copy_slice F.condition.copy source.conditions
  managed_resources ← copy_slice pure source.managed_resources
  last_update_time ← copy_present F.time_pointer.copy source.last_update_time
  pure (record source {
    conditions = conditions;
    managed_resources = managed_resources;
    last_update_time = last_update_time;
  })

unfoldable pub deep_copy_tln_db_status :
    {K : Platform} (F : Foreign K)
    → Pointer (TlnDbStatusStruct F)
    → Alloc (Pointer (TlnDbStatusStruct F))
deep_copy_tln_db_status F = copy_pointer (deep_copy_into_tln_db_status F)

abbrev pub tln_db_status : {K : Platform} (F : Foreign K) → Copyable TlnDbStatus
tln_db_status F = record {
  Carrier = TlnDbStatusStruct F;
  value = λ x. record {
    phase = x.phase;
    conditions = (slice_of F.condition).value x.conditions;
    observed_generation = x.observed_generation;
    ready_replicas = x.ready_replicas;
    current_image = x.current_image;
    managed_resources = (slice_of (plain String)).value x.managed_resources;
    last_update_time = (present F.time_pointer).value x.last_update_time;
  };
  addresses = λ x. concat (
      (slice_of F.condition).addresses x.conditions
      ∷ (slice_of (plain String)).addresses x.managed_resources
      ∷ (present F.time_pointer).addresses x.last_update_time
      ∷ []);
  nils = λ x. concat (
      (slice_of F.condition).nils x.conditions
      ∷ (slice_of (plain String)).nils x.managed_resources
      ∷ (present F.time_pointer).nils x.last_update_time
      ∷ []);
  copy = deep_copy_into_tln_db_status F;
}
