-- ===== src/DeepCopy/Observability.antt =====
-- api/v1alpha1/zz_generated.deepcopy.go: the copies of metrics and health checks.
use talon_db_k8s_operator.Base.{String, Bool, [], ◌∷◌}
use talon_db_k8s_operator.Base.Int.{ℤ}
use talon_db_k8s_operator.Api.{ServiceMonitorSpec, MetricsSpec, HealthSpec, ObservabilitySpec}
use talon_db_k8s_operator.DeepCopy.Alloc.{
  Pointer, GoMap, Alloc, pure, ◌>>=◌, copy_pointer, copy_map,
}
use talon_db_k8s_operator.DeepCopy.Copyable.{Copyable, concat, plain, pointer_to, string_map}

pub record ServiceMonitorSpecStruct : Type 0 where
  pub enabled : Bool
  pub interval : String
  pub labels : GoMap

unfoldable pub deep_copy_into_service_monitor_spec :
    ServiceMonitorSpecStruct → Alloc ServiceMonitorSpecStruct
deep_copy_into_service_monitor_spec source = do
  labels ← copy_map source.labels
  pure (record source { labels = labels })

unfoldable pub deep_copy_service_monitor_spec :
    Pointer ServiceMonitorSpecStruct → Alloc (Pointer ServiceMonitorSpecStruct)
deep_copy_service_monitor_spec = copy_pointer deep_copy_into_service_monitor_spec

abbrev pub service_monitor_spec : Copyable ServiceMonitorSpec
service_monitor_spec = record {
  Carrier = ServiceMonitorSpecStruct;
  value = λ x. record {
    enabled = x.enabled;
    interval = x.interval;
    labels = string_map.value x.labels;
  };
  addresses = λ x. concat (string_map.addresses x.labels ∷ []);
  nils = λ x. concat (string_map.nils x.labels ∷ []);
  copy = deep_copy_into_service_monitor_spec;
}

pub record MetricsSpecStruct : Type 0 where
  pub enabled : Pointer Bool
  pub port : ℤ
  pub path : String
  pub service_monitor : ServiceMonitorSpecStruct

unfoldable pub deep_copy_into_metrics_spec : MetricsSpecStruct → Alloc MetricsSpecStruct
deep_copy_into_metrics_spec source = do
  enabled ← copy_pointer pure source.enabled
  service_monitor ← deep_copy_into_service_monitor_spec source.service_monitor
  pure (record source { enabled = enabled; service_monitor = service_monitor })

unfoldable pub deep_copy_metrics_spec :
    Pointer MetricsSpecStruct → Alloc (Pointer MetricsSpecStruct)
deep_copy_metrics_spec = copy_pointer deep_copy_into_metrics_spec

abbrev pub metrics_spec : Copyable MetricsSpec
metrics_spec = record {
  Carrier = MetricsSpecStruct;
  value = λ x. record {
    enabled = (pointer_to (plain Bool)).value x.enabled;
    port = x.port;
    path = x.path;
    service_monitor = service_monitor_spec.value x.service_monitor;
  };
  addresses = λ x. concat (
      (pointer_to (plain Bool)).addresses x.enabled
      ∷ service_monitor_spec.addresses x.service_monitor
      ∷ []);
  nils = λ x.
      concat (
        (pointer_to (plain Bool)).nils x.enabled
        ∷ service_monitor_spec.nils x.service_monitor
        ∷ []);
  copy = deep_copy_into_metrics_spec;
}

unfoldable pub deep_copy_into_health_spec : HealthSpec → Alloc HealthSpec
deep_copy_into_health_spec source = pure source

unfoldable pub deep_copy_health_spec : Pointer HealthSpec → Alloc (Pointer HealthSpec)
deep_copy_health_spec = copy_pointer deep_copy_into_health_spec

abbrev pub health_spec : Copyable HealthSpec
health_spec = record {
  Carrier = HealthSpec;
  value = λ x. x;
  addresses = λ _. [];
  nils = λ _. [];
  copy = deep_copy_into_health_spec;
}

pub record ObservabilitySpecStruct : Type 0 where
  pub metrics : MetricsSpecStruct
  pub health : HealthSpec

unfoldable pub deep_copy_into_observability_spec :
    ObservabilitySpecStruct → Alloc ObservabilitySpecStruct
deep_copy_into_observability_spec source = do
  metrics ← deep_copy_into_metrics_spec source.metrics
  pure (record source { metrics = metrics; health = source.health })

unfoldable pub deep_copy_observability_spec :
    Pointer ObservabilitySpecStruct → Alloc (Pointer ObservabilitySpecStruct)
deep_copy_observability_spec = copy_pointer deep_copy_into_observability_spec

abbrev pub observability_spec : Copyable ObservabilitySpec
observability_spec = record {
  Carrier = ObservabilitySpecStruct;
  value = λ x. record { metrics = metrics_spec.value x.metrics; health = x.health };
  addresses = λ x. concat (metrics_spec.addresses x.metrics ∷ []);
  nils = λ x. concat (metrics_spec.nils x.metrics ∷ []);
  copy = deep_copy_into_observability_spec;
}
