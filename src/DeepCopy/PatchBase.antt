-- ===== src/DeepCopy/PatchBase.antt =====
-- internal/controller/tlndb_controller.go: `patch := client.MergeFrom(instance.DeepCopy())`, where
-- the conditions of the instance are then changed in place.
use talon_db_k8s_operator.Base.{
  ℕ, ◌≤◌, ◌<◌, ◌≡◌, refl, ap, ◌∙◌, none, some, List, map, true, false, nat_eq, arith, if◌then◌else◌,
}
use talon_db_k8s_operator.Base.Each.{EachIs, EachIs-map, EachIs-append-inverse}
use talon_db_k8s_operator.Kube.{Platform}
use talon_db_k8s_operator.DeepCopy.Alloc.{Ref, Slice}
use talon_db_k8s_operator.DeepCopy.Copyable.{Copyable, Copied, slice_of}
use talon_db_k8s_operator.DeepCopy.Foreign.{Foreign, LawfulForeign}
use talon_db_k8s_operator.DeepCopy.Fresh.{Within}
use talon_db_k8s_operator.DeepCopy.Status.{tln_db_status}
use talon_db_k8s_operator.DeepCopy.Spec.{tln_db_spec}
use talon_db_k8s_operator.DeepCopy.Resource.{
  TlnDbStruct, deep_copy_into_tln_db, resource_value, tln_db,
}
use talon_db_k8s_operator.DeepCopy.Structs.Resource.{Lawful-tln_db}

-- The array at `a` is written: what a slice shows of it.
unfoldable pub write_array : {A : Type 0} → ℕ → (List A → List A) → Slice A → Slice A
write_array a change none = none
write_array a change (some r) =
    if nat_eq r.address a then some (record r { target = change r.target }) else some r

nat_eq_refl : (a : ℕ) → nat_eq a a ≡ true
nat_eq_refl a = ground arith

write_array-apart :
    {V : Type 0} (c : Copyable V) (a n : ℕ) (change : List c.Carrier → List c.Carrier)
    (s : Slice c.Carrier)
    → a < n
    → EachIs (λ b. n ≤ b) ((slice_of c).addresses s)
    → write_array a change s ≡ s
unfolding write_array
write_array-apart c a n change none _ _ = refl
write_array-apart c a n change (some r) used (fresh, _) =
    let other : nat_eq r.address a ≡ false = ground (arith, used, fresh) in rw other refl

module _ {K : Platform} (F : Foreign K) where
  -- What a resource looks like once the array at `a` holds other conditions.
  unfoldable pub write_conditions :
      ℕ → (List F.condition.Carrier → List F.condition.Carrier) → TlnDbStruct F → TlnDbStruct F
  unfolding write_array
  write_conditions a change x = record x {
    status = record x.status { conditions = write_array a change x.status.conditions };
  }

module _ {K : Platform} {F : Foreign K} (L : LawfulForeign F) where
  -- The conditions' array of the copy is a new one.
  conditions-fresh :
      (x : TlnDbStruct F) (n : ℕ)
      → EachIs
          (λ b. n ≤ b)
          ((slice_of F.condition).addresses (deep_copy_into_tln_db F x n).0.status.conditions)
  conditions-fresh x n =
      let copied : Copied (tln_db F) x n (deep_copy_into_tln_db F x n) = (Lawful-tln_db L).at x n in
      let base : TlnDbStruct F = (deep_copy_into_tln_db F x n).0 in
      let fresh : EachIs (Within n _) ((tln_db F).addresses base) = copied.fresh.within in
      let after_meta = (EachIs-append-inverse _ (F.object_meta.addresses base.meta) _ fresh).1 in
      let after_spec =
        (EachIs-append-inverse _ ((tln_db_spec F).addresses base.spec) _ after_meta).1 in
      let status =
        (EachIs-append-inverse _ ((tln_db_status F).addresses base.status) _ after_spec).0 in
      EachIs-map _ _ ((slice_of F.condition).addresses base.status.conditions) (λ b w. w.0)
        (EachIs-append-inverse _ ((slice_of F.condition).addresses base.status.conditions) _
          status).0

  -- Given that the copies of the Kubernetes types are right, and that the array of the resource's
  -- conditions was in use when the resource was copied: a write to that array changes what the
  -- resource shows, and the copy shows all of the resource as it was before.
  pub write_conditions-deep_copy :
      (x : TlnDbStruct F) (n : ℕ) (r : Ref (List F.condition.Carrier))
      (change : List F.condition.Carrier → List F.condition.Carrier)
      → x.status.conditions ≡ some r
      → r.address < n
      → (resource_value F (write_conditions F r.address change x)).status.conditions
          ≡ map F.condition.value (change r.target)
        × (resource_value F (write_conditions F r.address change (deep_copy_into_tln_db F x n).0)
            ≡ resource_value F x)
  unfolding write_conditions write_array
  write_conditions-deep_copy x n r change e used =
      let copied : Copied (tln_db F) x n (deep_copy_into_tln_db F x n) = (Lawful-tln_db L).at x n in
      let base : TlnDbStruct F = (deep_copy_into_tln_db F x n).0 in
      let same : write_array r.address change base.status.conditions ≡ base.status.conditions =
        write_array-apart F.condition r.address n change base.status.conditions used
          (conditions-fresh x n) in
      (
        rw (e, nat_eq_refl r.address) refl,
        (λ i.
              resource_value F
                (record base { status = record base.status { conditions = same i } }))
            ∙ ap (λ p. p.1) copied.same,
      )
