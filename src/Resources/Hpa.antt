-- ===== src/Resources/Hpa.antt =====
-- internal/resources/hpa.go
use talon_db_k8s_operator.Base.{String, Option, none, some, List, [], ◌∷◌, ◌++◌, if◌then◌else◌}
use talon_db_k8s_operator.Base.Int.{ℤ, pos, ltb_ℤ}
use talon_db_k8s_operator.Kube.{Platform, object_meta, MetricSpec, HorizontalPodAutoscaler}
use talon_db_k8s_operator.Api
use talon_db_k8s_operator.Api.{TlnDb}
use talon_db_k8s_operator.Resources.Common.{resource_name, labels}

unfoldable pub resource_metric : String → ℤ → MetricSpec
resource_metric name utilization = record {
  metric_type = "Resource";
  resource_name = name;
  target_type = "Utilization";
  average_utilization = some utilization;
}

-- `if p != nil { metrics = append(metrics, resourceMetric(name, *p)) }`
abbrev metric_if : String → Option ℤ → List MetricSpec
metric_if name none = []
metric_if name (some utilization) = resource_metric name utilization ∷ []

abbrev cpu_unless_any : List MetricSpec → List MetricSpec
cpu_unless_any [] = resource_metric "cpu" (pos 80) ∷ []
cpu_unless_any (metric ∷ metrics) = metric ∷ metrics

unfoldable pub build_hpa_metrics : Api.HpaSpec → List MetricSpec
unfolding resource_metric
build_hpa_metrics hpa =
    cpu_unless_any
      (metric_if "cpu" hpa.cpu_utilization ++ metric_if "memory" hpa.memory_utilization)

abbrev min_replicas_or_one : Option ℤ → ℤ
min_replicas_or_one none = pos 1
min_replicas_or_one (some n) = n

module _ {K : Platform} where
  unfoldable pub build_hpa : TlnDb K → HorizontalPodAutoscaler K
  unfolding labels build_hpa_metrics
  build_hpa inst =
      let hpa = inst.spec.availability.horizontal_pod_autoscaler in
      record {
        meta = object_meta (resource_name inst) inst.meta.namespace (labels inst);
        spec = record {
          scale_target_ref = record {
            api_version = "apps/v1";
            kind = "StatefulSet";
            name = resource_name inst;
          };
          min_replicas = some (min_replicas_or_one hpa.min_replicas);
          max_replicas = if ltb_ℤ (pos 0) hpa.max_replicas then hpa.max_replicas else pos 5;
          metrics = build_hpa_metrics hpa;
        };
      }
