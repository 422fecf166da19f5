-- ===== src/Resources/Service.antt =====
-- internal/resources/service.go
pub mod Routing
use talon_db_k8s_operator.Base.{String, true, false, List, [], ◌∷◌, if◌then◌else◌}
use talon_db_k8s_operator.Base.Int.{is_zero}
use talon_db_k8s_operator.Base.Dict.{Dict, insert_all}
use talon_db_k8s_operator.Kube.{Platform, object_meta, ServicePort, Service, from_string}
use talon_db_k8s_operator.Api.{TlnDb}
use talon_db_k8s_operator.Resources.Common.{
  default_grpc_port, default_http_port, role_leader, role_follower, resource_name,
  headless_service_name, read_service_name, labels, selector_labels, role_selector, or_default,
  port_from_addr, metrics_enabled, metrics_port,
}

module _ {K : Platform} where
  unfoldable pub build_service_ports : TlnDb K → List ServicePort
  unfolding port_from_addr metrics_port
  build_service_ports inst =
      let grpc_port = port_from_addr inst.spec.config.tcp default_grpc_port in
      let http_port = port_from_addr inst.spec.config.http default_http_port in
      record { name = "grpc"; port = grpc_port; target_port = from_string "grpc"; protocol = "TCP" }
      ∷ record {
        name = "http";
        port = http_port;
        target_port = from_string "http";
        protocol = "TCP";
      }
      ∷ (if metrics_enabled inst
          then record {
            name = "metrics";
            port = metrics_port inst;
            target_port = from_string "metrics";
            protocol = "TCP";
          }
            ∷ []
          else [])

  unfoldable pub service_with : TlnDb K → String → Dict String → Service K
  unfolding labels insert_all build_service_ports
  service_with inst name selector =
      let svc = inst.spec.networking.service in
      record {
        meta =
            record (object_meta name inst.meta.namespace
              (insert_all svc.labels (insert_all (labels inst) []))) {
                annotations = svc.annotations;
              };
        spec = record {
          service_type = or_default svc.service_type "ClusterIP";
          cluster_ip = "";
          selector = selector;
          ports = build_service_ports inst;
          publish_not_ready_addresses = false;
        };
      }

  unfoldable pub build_service : TlnDb K → Service K
  unfolding service_with selector_labels
  build_service inst = service_with inst (resource_name inst) (selector_labels inst)

  unfoldable pub build_write_service : TlnDb K → Service K
  unfolding service_with role_selector
  build_write_service inst = service_with inst (resource_name inst) (role_selector inst role_leader)

  unfoldable pub build_read_service : TlnDb K → Service K
  unfolding service_with role_selector
  build_read_service inst =
      let role =
        if is_zero inst.spec.replication.read_replicas then role_leader else role_follower in
      service_with inst (read_service_name inst) (role_selector inst role)

  unfoldable pub build_headless_service : TlnDb K → Service K
  unfolding labels selector_labels build_service_ports
  build_headless_service inst = record {
    meta = object_meta (headless_service_name inst) inst.meta.namespace (labels inst);
    spec = record {
      service_type = "";
      cluster_ip = "None";
      selector = selector_labels inst;
      ports = build_service_ports inst;
      publish_not_ready_addresses = true;
    };
  }
