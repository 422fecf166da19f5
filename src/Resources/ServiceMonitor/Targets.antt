-- ===== src/Resources/ServiceMonitor/Targets.antt =====
-- internal/resources/servicemonitor.go and service.go: which Services the ServiceMonitor scrapes.
use talon_db_k8s_operator.Base.{
  String, ◌≡◌, refl, ◌∙◌, ◌⊎◌, inl, inr, true, Option, none, some, List, [], ◌∷◌, ◌==◌,
  if◌then◌else◌, string_dec,
}
use talon_db_k8s_operator.Base.Int.{ℤ}
use talon_db_k8s_operator.Base.Dict.{Dict, lookup, insert, insert_all, NodupKeys, lookup-insert_all}
use talon_db_k8s_operator.Kube.{
  Platform, ServicePort, Service, Value, text, items, object, nil, cons, Fields, end, field,
}
use talon_db_k8s_operator.Api.{TlnDb}
use talon_db_k8s_operator.Resources.Common.{labels, metrics_enabled, metrics_port}
use talon_db_k8s_operator.Resources.Service.{
  service_with, build_service, build_write_service, build_read_service, build_headless_service,
  build_service_ports,
}
use talon_db_k8s_operator.Resources.ServiceMonitor.{to_string_map, build_service_monitor}
use talon_db_k8s_operator.Resources.Selectors.{Selects}

-- A field of an object, by its name.
abbrev field_of : String → Fields → Option Value
field_of name end = none
field_of name (field other value rest) = if other == name then some value else field_of name rest

abbrev below : String → Option Value → Option Value
below name (some (object fields)) = field_of name fields
below name _ = none

abbrev pub match_labels : Value → Option Value
match_labels monitor = below "matchLabels" (below "selector" (below "spec" (some monitor)))

abbrev pub match_names : Value → Option Value
match_names monitor = below "matchNames" (below "namespaceSelector" (below "spec" (some monitor)))

abbrev only_item : Option Value → Option Value
only_item (some (items (cons value nil))) = some value
only_item _ = none

-- A field of the only endpoint.
abbrev pub endpoint_field : String → Value → Option Value
endpoint_field name monitor =
    below name (only_item (below "endpoints" (below "spec" (some monitor))))

abbrev HasPort : String → ℤ → List ServicePort → Type 0
HasPort name number [] = ⊥
HasPort name number (port ∷ ports) =
    ((port.name ≡ name) × (port.port ≡ number)) ⊎ HasPort name number ports

-- The Service is in the monitor's only namespace, carries every label that the monitor asks for,
-- and has a port of the endpoint's name and of this number; the endpoint is for this path, over
-- plain HTTP.
abbrev pub Scrapes : {K : Platform} → ℤ → String → Value → Service K → Type 0
Scrapes number path monitor service =
    (wanted : Dict String) × (port : String) × (match_names monitor
      ≡ some (items (cons (text service.meta.namespace) nil)))
    × (match_labels monitor ≡ some (object (to_string_map wanted)))
    × Selects wanted service.meta.labels
    × (endpoint_field "port" monitor ≡ some (text port))
    × (endpoint_field "path" monitor ≡ some (text path))
    × (endpoint_field "scheme" monitor ≡ some (text "http"))
    × HasPort port number service.spec.ports

-- No key of the selector is among the user's.
abbrev pub LeavesAlone : Dict String → Dict String → Type 0
LeavesAlone user [] = Unit
LeavesAlone user ((k, _) ∷ selector) = (lookup k user ≡ none) × LeavesAlone user selector

Selects-insert_all :
    (selector user base : Dict String)
    → NodupKeys user
    → LeavesAlone user selector
    → Selects selector base
    → Selects selector (insert_all user base)
Selects-insert_all [] user base unique free h = tt
Selects-insert_all ((k, v) ∷ selector) user base unique (absent, free) (hit, h) = (
  lookup-insert_all k user base unique ∙ rw absent hit,
  Selects-insert_all selector user base unique free h,
)

module _ {K : Platform} (inst : TlnDb K) where
  own_labels : Selects (labels inst) (labels inst)
  unfolding labels lookup string_dec
  own_labels = (refl, (refl, (refl, (refl, (refl, tt)))))

  copied_labels : Selects (labels inst) (insert_all (labels inst) [])
  unfolding labels lookup insert_all insert string_dec
  copied_labels = (refl, (refl, (refl, (refl, (refl, tt)))))

  with_user_labels :
      NodupKeys inst.spec.networking.service.labels
      → LeavesAlone inst.spec.networking.service.labels (labels inst)
      → Selects
          (labels inst)
          (insert_all inst.spec.networking.service.labels (insert_all (labels inst) []))
  with_user_labels unique free =
      Selects-insert_all (labels inst) inst.spec.networking.service.labels _ unique free
        copied_labels

  has_metrics :
      metrics_enabled inst ≡ true → HasPort "metrics" (metrics_port inst) (build_service_ports inst)
  unfolding build_service_ports
  has_metrics on = rw on (inr (inr (inl (refl, refl))))

  -- Where metrics are on and the user's Service labels leave the operator's keys alone: the
  -- ServiceMonitor scrapes the headless, the standalone, the write and the read Service, each at
  -- the port and the path of the metrics, over plain HTTP.
  pub build_service_monitor-Scrapes :
      metrics_enabled inst ≡ true
      → NodupKeys inst.spec.networking.service.labels
      → LeavesAlone inst.spec.networking.service.labels (labels inst)
      → let path = inst.spec.observability.metrics.path in
        let scraped =
          Scrapes
            (metrics_port inst)
            (if path == "" then "/metrics" else path)
            (build_service_monitor inst) in
        scraped (build_headless_service inst)
        × scraped (build_service inst)
        × scraped (build_write_service inst)
        × scraped (build_read_service inst)
  unfolding build_headless_service build_service build_write_service build_read_service service_with
      build_service_monitor string_dec
  build_service_monitor-Scrapes on unique free =
      let merged = with_user_labels unique free in
      let port = has_metrics on in
      (
        (labels inst, "metrics", refl, refl, own_labels, refl, refl, refl, port),
        (labels inst, "metrics", refl, refl, merged, refl, refl, refl, port),
        (labels inst, "metrics", refl, refl, merged, refl, refl, refl, port),
        (labels inst, "metrics", refl, refl, merged, refl, refl, refl, port),
      )
