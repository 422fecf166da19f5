-- ===== src/Resources/ServiceMonitor.antt =====
-- internal/resources/servicemonitor.go: an untyped object for the Prometheus operator.
pub mod Targets
use talon_db_k8s_operator.Base.{String, [], ◌∷◌}
use talon_db_k8s_operator.Base.Dict.{Dict, insert_all}
use talon_db_k8s_operator.Kube.{Platform, Value, text, items, object, nil, cons, Fields, end, field}
use talon_db_k8s_operator.Api.{TlnDb}
use talon_db_k8s_operator.Resources.Common.{resource_name, labels, or_default}

unfoldable pub to_string_map : Dict String → Fields
to_string_map [] = end
to_string_map ((k, v) ∷ m) = field k (text v) (to_string_map m)

module _ {K : Platform} where
  unfoldable pub build_service_monitor : TlnDb K → Value
  unfolding labels insert_all to_string_map
  build_service_monitor inst =
      let metrics = inst.spec.observability.metrics in
      let monitor = metrics.service_monitor in
      let interval = or_default monitor.interval "30s" in
      let path = or_default metrics.path "/metrics" in
      let match_labels = labels inst in
      let monitor_labels = insert_all monitor.labels (labels inst) in
      let metadata = field "name" (text (resource_name inst)) (
        field "namespace" (text inst.meta.namespace)
          (field "labels" (object (to_string_map monitor_labels)) end)) in
      let endpoint = field "port" (text "metrics") (
        field "path" (text path)
          (field "interval" (text interval) (field "scheme" (text "http") end))) in
      let body =
        field "selector" (object (field "matchLabels" (object (to_string_map match_labels)) end)) (
          field "namespaceSelector"
            (object (field "matchNames" (items (cons (text inst.meta.namespace) nil)) end))
            (field "endpoints" (items (cons (object endpoint) nil)) end)) in
      object (
        field "apiVersion" (text "monitoring.coreos.com/v1") (
          field "kind" (text "ServiceMonitor")
            (field "metadata" (object metadata) (field "spec" (object body) end))))
