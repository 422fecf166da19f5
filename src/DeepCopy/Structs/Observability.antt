-- ===== src/DeepCopy/Structs/Observability.antt =====
-- api/v1alpha1/zz_generated.deepcopy.go: the copies of metrics and health checks are right.
use talon_db_k8s_operator.Base.{Bool, refl, [], ◌∷◌}
use talon_db_k8s_operator.DeepCopy.Copyable.{Lawful, concat}
use talon_db_k8s_operator.DeepCopy.Laws.{
  Lawful-Built, Built-bind, Built-pure, Lawful-plain, Lawful-pointer_to, Lawful-string_map,
}
use talon_db_k8s_operator.DeepCopy.Observability.{
  service_monitor_spec, deep_copy_into_service_monitor_spec, metrics_spec,
  deep_copy_into_metrics_spec, health_spec, deep_copy_into_health_spec, observability_spec,
  deep_copy_into_observability_spec,
}

pub Lawful-service_monitor_spec : Lawful service_monitor_spec
unfolding deep_copy_into_service_monitor_spec
Lawful-service_monitor_spec = Lawful-Built λ x. Built-bind x.labels Lawful-string_map λ y0 e0 n0.
    Built-pure _ (λ i. record { enabled = x.enabled; interval = x.interval; labels = e0 i })
      (λ i. concat (n0 i ∷ [])) refl

pub Lawful-metrics_spec : Lawful metrics_spec
unfolding deep_copy_into_metrics_spec
Lawful-metrics_spec = Lawful-Built λ x.
    Built-bind x.enabled (Lawful-pointer_to (Lawful-plain Bool)) λ y0 e0 n0.
      Built-bind x.service_monitor Lawful-service_monitor_spec λ y1 e1 n1.
        Built-pure _
          (λ i. record { enabled = e0 i; port = x.port; path = x.path; service_monitor = e1 i })
          (λ i. concat (n0 i ∷ n1 i ∷ [])) refl

pub Lawful-health_spec : Lawful health_spec
unfolding deep_copy_into_health_spec
Lawful-health_spec = Lawful-Built λ x. Built-pure _ refl refl refl

pub Lawful-observability_spec : Lawful observability_spec
unfolding deep_copy_into_observability_spec
Lawful-observability_spec = Lawful-Built λ x. Built-bind x.metrics Lawful-metrics_spec λ y0 e0 n0.
    Built-pure _ (λ i. record { metrics = e0 i; health = x.health }) (λ i. concat (n0 i ∷ [])) refl
