-- ===== src/DeepCopy/Structs/Availability.antt =====
-- api/v1alpha1/zz_generated.deepcopy.go: the copies of the disruption budget and the autoscaler are right.
use talon_db_k8s_operator.Base.{refl, [], ◌∷◌}
use talon_db_k8s_operator.Base.Int.{ℤ}
use talon_db_k8s_operator.DeepCopy.Copyable.{Lawful, concat}
use talon_db_k8s_operator.DeepCopy.Laws.{
  Lawful-Built, Built-bind, Built-pure, Lawful-plain, Lawful-pointer_to,
}
use talon_db_k8s_operator.DeepCopy.Availability.{
  pdb_spec, deep_copy_into_pdb_spec, hpa_spec, deep_copy_into_hpa_spec, availability_spec,
  deep_copy_into_availability_spec,
}

pub Lawful-pdb_spec : Lawful pdb_spec
unfolding deep_copy_into_pdb_spec
Lawful-pdb_spec = Lawful-Built λ x.
    Built-bind x.min_available (Lawful-pointer_to (Lawful-plain ℤ)) λ y0 e0 n0.
      Built-bind x.max_unavailable (Lawful-pointer_to (Lawful-plain ℤ)) λ y1 e1 n1.
        Built-pure _
          (λ i. record { enabled = x.enabled; min_available = e0 i; max_unavailable = e1 i })
          (λ i. concat (n0 i ∷ n1 i ∷ [])) refl

pub Lawful-hpa_spec : Lawful hpa_spec
unfolding deep_copy_into_hpa_spec
Lawful-hpa_spec = Lawful-Built λ x.
    Built-bind x.min_replicas (Lawful-pointer_to (Lawful-plain ℤ)) λ y0 e0 n0.
      Built-bind x.cpu_utilization (Lawful-pointer_to (Lawful-plain ℤ)) λ y1 e1 n1.
        Built-bind x.memory_utilization (Lawful-pointer_to (Lawful-plain ℤ)) λ y2 e2 n2.
          Built-pure _
            (λ i. record {
              enabled = x.enabled;
              min_replicas = e0 i;
              max_replicas = x.max_replicas;
              cpu_utilization = e1 i;
              memory_utilization = e2 i;
            })
            (λ i. concat (n0 i ∷ n1 i ∷ n2 i ∷ [])) refl

pub Lawful-availability_spec : Lawful availability_spec
unfolding deep_copy_into_availability_spec
Lawful-availability_spec = Lawful-Built λ x.
    Built-bind x.pod_disruption_budget Lawful-pdb_spec λ y0 e0 n0.
      Built-bind x.horizontal_pod_autoscaler Lawful-hpa_spec λ y1 e1 n1.
        Built-pure _
          (λ i. record { pod_disruption_budget = e0 i; horizontal_pod_autoscaler = e1 i })
          (λ i. concat (n0 i ∷ n1 i ∷ [])) refl
