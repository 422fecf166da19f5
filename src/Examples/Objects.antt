-- ===== src/Examples/Objects.antt =====
-- The properties of the built objects at concrete instances.
use talon_db_k8s_operator.Base.{
  string_dec, ◌+◌, ◌*◌, ◌≤◌, ◌<◌, ◌≡◌, refl, ◌≢◌, ◌↔◌, ◌⊎◌, false, true, List, [], map, ◌∷◌, ◌++◌,
  arith, ◌<>◌, ℕ,
}
use talon_db_k8s_operator.Base.Int.{pos}
use talon_db_k8s_operator.Base.Decimal.{format_ℕ}
use talon_db_k8s_operator.Resources.Common.{port_from_addr}
use talon_db_k8s_operator.Resources.Common.Ports.{
  IsPort, port_from_addr_bounds, port_from_addr-format_ℕ,
}
use talon_db_k8s_operator.Resources.StatefulSet.{
  StsParams, build_stateful_set_with, build_stateful_set, build_leader_stateful_set,
  build_follower_stateful_set,
}
use talon_db_k8s_operator.Resources.StatefulSet.Container.{build_probe, container_ports}
use talon_db_k8s_operator.Resources.StatefulSet.DataVolume.{MountResolves, mounts_resolve}
use talon_db_k8s_operator.Resources.StatefulSet.Probes.{build_probe-startup}
use talon_db_k8s_operator.Resources.Service.{
  build_service, build_write_service, build_read_service, build_headless_service,
  build_service_ports,
}
use talon_db_k8s_operator.Resources.Service.Routing.{
  build_read_service-Selects, stateful_set_selectors, build_service-Selects,
}
use talon_db_k8s_operator.Resources.Selectors.{Selects}
use talon_db_k8s_operator.Resources.PortAgreement.{
  service_view, container_view, allowing, rule_ports, ports_agree,
}
use talon_db_k8s_operator.Resources.NetworkPolicy.{
  build_network_policy, build_default_ingress_rules,
}
use talon_db_k8s_operator.Resources.NetworkPolicy.Egress.{
  PermitsEgress, IsDns, build_network_policy-Permits,
}
use talon_db_k8s_operator.Resources.Hpa.{build_hpa}
use talon_db_k8s_operator.Resources.Names.{build_hpa-target}
use talon_db_k8s_operator.Base.Dict.{lookup}
use talon_db_k8s_operator.Resources.Common.{
  labels, metrics_port, config_mount_path, data_mount_path, config_file_name,
}
use talon_db_k8s_operator.Base.Each.{EachIs}
use talon_db_k8s_operator.Kube.{Container, VolumeMount, StatefulSet}
use talon_db_k8s_operator.Resources.ConfigMap.{build_config_map}
use talon_db_k8s_operator.Resources.Rbac.{build_service_account, build_role, build_role_binding}
use talon_db_k8s_operator.Resources.Ingress.{build_ingress}
use talon_db_k8s_operator.Resources.ServiceMonitor.{build_service_monitor}
use talon_db_k8s_operator.Resources.ServiceMonitor.Targets.{
  LeavesAlone, Scrapes, build_service_monitor-Scrapes,
}
use talon_db_k8s_operator.Resources.References.{
  Serves, role_ref_to, subject_of, reading, recording, build_ingress-Serves, rbac_agrees,
}
use talon_db_k8s_operator.Examples.Fixture.{platform, standalone, with_followers}

abbrev standalone_params : StsParams platform
standalone_params = record {
  name = "orders";
  role = "standalone";
  replicas = pos 1;
  selector_role = false;
  extra_env = [];
}

port_from_addr_bounds_example :
    (port_from_addr "0.0.0.0:70000" (pos 8080) ≡ pos 8080)
    ⊎ IsPort (port_from_addr "0.0.0.0:70000" (pos 8080))
port_from_addr_bounds_example = port_from_addr_bounds "0.0.0.0:70000" (pos 8080)

port_from_addr-format_ℕ_example :
    port_from_addr ("[::1]" <> (":" <> format_ℕ 9899)) (pos 8080) ≡ pos 9899
port_from_addr-format_ℕ_example =
    port_from_addr-format_ℕ "[::1]" 9899 (pos 8080) (omega arith) (omega arith)

build_read_service-Selects_example :
    (Selects
        (build_read_service with_followers).spec.selector
        (build_leader_stateful_set with_followers "h" (pos 1000)).spec.template.labels
      ↔ (pos 2 ≡ pos 0))
    × (Selects
          (build_read_service with_followers).spec.selector
          (build_follower_stateful_set with_followers "h" "orders:9899"
            (pos 2)
            (pos 1000)).spec.template.labels
        ↔ (pos 2 ≢ pos 0))
build_read_service-Selects_example =
    build_read_service-Selects with_followers "h" "orders:9899" (pos 2) (pos 1000)

stateful_set_selectors_example :
    (Selects
        (build_stateful_set with_followers "h").spec.selector
        (build_stateful_set with_followers "h").spec.template.labels
      × Selects
          (build_leader_stateful_set with_followers "h" (pos 1000)).spec.selector
          (build_leader_stateful_set with_followers "h" (pos 1000)).spec.template.labels
      × Selects
          (build_follower_stateful_set with_followers "h" "orders:9899"
            (pos 2)
            (pos 1000)).spec.selector
          (build_follower_stateful_set with_followers "h" "orders:9899"
            (pos 2)
            (pos 1000)).spec.template.labels)
    × ¬ Selects
        (build_leader_stateful_set with_followers "h" (pos 1000)).spec.selector
        (build_follower_stateful_set with_followers "h" "orders:9899"
          (pos 2)
          (pos 1000)).spec.template.labels
    × ¬ Selects
        (build_follower_stateful_set with_followers "h" "orders:9899"
          (pos 2)
          (pos 1000)).spec.selector
        (build_leader_stateful_set with_followers "h" (pos 1000)).spec.template.labels
stateful_set_selectors_example =
    stateful_set_selectors with_followers "h" "orders:9899" (pos 2) (pos 1000)

build_service-Selects_example :
    Selects
      (build_service standalone).spec.selector
      (build_stateful_set standalone "h").spec.template.labels
    × Selects
        (build_service standalone).spec.selector
        (build_leader_stateful_set standalone "h" (pos 1000)).spec.template.labels
    × Selects
        (build_service standalone).spec.selector
        (build_follower_stateful_set standalone "h" "orders:9899"
          (pos 2)
          (pos 1000)).spec.template.labels
build_service-Selects_example =
    build_service-Selects standalone "h" "orders:9899" (pos 2) (pos 1000)

ports_agree_example :
    (map service_view (build_service_ports standalone)
      ≡ map container_view (container_ports standalone))
    × (rule_ports (build_default_ingress_rules standalone)
        ≡ map allowing (container_ports standalone) ∷ [])
ports_agree_example = ports_agree standalone

mounts_resolve_example :
    (main : Container platform) × (own : List (VolumeMount platform)) × ((build_stateful_set_with
        standalone "h" standalone_params).spec.template.spec.containers
      ≡ main ∷ standalone.spec.additional_containers)
    × (main.volume_mounts ≡ own ++ standalone.spec.additional_volume_mounts)
    × (map (λ m. m.mount_path) own ≡ config_mount_path ∷ data_mount_path ∷ [])
    × (main.args ≡ "--config" ∷ (config_mount_path <> "/" <> config_file_name) ∷ [])
    × EachIs
        (MountResolves standalone (build_stateful_set_with standalone "h" standalone_params))
        own
mounts_resolve_example = mounts_resolve standalone "h" standalone_params

build_probe-startup_example :
    (failures : ℕ) × ((build_probe standalone (pos 8080) true).failure_threshold ≡ pos failures)
    × ((build_probe standalone (pos 8080) true).period_seconds ≡ pos 5)
    × (1 ≤ failures)
    × (failures * 5 ≤ 30)
    × (30 < failures * 5 + 5)
build_probe-startup_example = build_probe-startup standalone (pos 8080) 30 refl (omega arith)

build_network_policy-Permits_example :
    PermitsEgress "TCP" (pos 9899) (build_network_policy with_followers) ↔ IsDns "TCP" (pos 9899)
build_network_policy-Permits_example =
    build_network_policy-Permits with_followers refl "TCP" (pos 9899)

build_hpa-target_example :
    ((build_hpa with_followers).spec.scale_target_ref.name
      ≡ (build_stateful_set with_followers "h").meta.name)
    × ((build_hpa with_followers).spec.scale_target_ref.name
        ≢ (build_leader_stateful_set with_followers "h" (pos 1000)).meta.name)
    × ((build_hpa with_followers).spec.scale_target_ref.name
        ≢ (build_follower_stateful_set with_followers "h" "orders:9899"
            (pos 2)
            (pos 1000)).meta.name)
build_hpa-target_example = build_hpa-target with_followers "h" "orders:9899" (pos 2) (pos 1000)

no_labels_alone : LeavesAlone [] (labels standalone)
unfolding labels lookup
no_labels_alone = (refl, (refl, (refl, (refl, (refl, tt)))))

build_service_monitor-Scrapes_example :
    Scrapes
      (metrics_port standalone)
      "/metrics"
      (build_service_monitor standalone)
      (build_headless_service standalone)
    × Scrapes
        (metrics_port standalone)
        "/metrics"
        (build_service_monitor standalone)
        (build_service standalone)
    × Scrapes
        (metrics_port standalone)
        "/metrics"
        (build_service_monitor standalone)
        (build_write_service standalone)
    × Scrapes
        (metrics_port standalone)
        "/metrics"
        (build_service_monitor standalone)
        (build_read_service standalone)
unfolding string_dec
build_service_monitor-Scrapes_example =
    build_service_monitor-Scrapes standalone refl tt no_labels_alone

build_ingress-Serves_example :
    Serves
      (port_from_addr standalone.spec.config.http (pos 8080))
      (build_ingress standalone)
      (build_service standalone)
      (build_stateful_set_with standalone "h" standalone_params)
    × Serves
        (port_from_addr standalone.spec.config.http (pos 8080))
        (build_ingress standalone)
        (build_write_service standalone)
        (build_stateful_set_with standalone "h" standalone_params)
build_ingress-Serves_example = build_ingress-Serves standalone "h" standalone_params

abbrev orders_set : StatefulSet platform
orders_set = build_stateful_set_with standalone "h" standalone_params

rbac_agrees_example :
    ((build_role_binding standalone).role_ref ≡ role_ref_to (build_role standalone))
    × ((build_role_binding standalone).subjects
        ≡ subject_of (build_service_account standalone) ∷ [])
    × ((build_role standalone).rules ≡ reading (build_config_map standalone) ∷ recording ∷ [])
    × ((build_role standalone).meta.namespace ≡ orders_set.meta.namespace)
    × ((build_role_binding standalone).meta.namespace ≡ orders_set.meta.namespace)
    × ((build_service_account standalone).meta.namespace ≡ orders_set.meta.namespace)
    × ((build_config_map standalone).meta.namespace ≡ orders_set.meta.namespace)
    × (orders_set.spec.template.spec.service_account_name
        ≡ (build_service_account standalone).meta.name)
rbac_agrees_example = rbac_agrees standalone "h" standalone_params refl
