-- ===== src/Resources/Ingress.antt =====
-- internal/resources/ingress.go
use talon_db_k8s_operator.Base.{List, [], ◌∷◌, ◌==◌, if◌then◌else◌}
use talon_db_k8s_operator.Kube.{Platform, object_meta, Ingress, IngressTls}
use talon_db_k8s_operator.Api
use talon_db_k8s_operator.Api.{TlnDb}
use talon_db_k8s_operator.Resources.Common.{
  default_http_port, resource_name, labels, or_default, port_from_addr,
}

abbrev ingress_tls : Api.IngressSpec → List IngressTls
ingress_tls ingress =
    if ingress.tls_secret_name == ""
    then []
    else record { hosts = ingress.host ∷ []; secret_name = ingress.tls_secret_name } ∷ []

module _ {K : Platform} where
  unfoldable pub build_ingress : TlnDb K → Ingress K
  unfolding labels port_from_addr
  build_ingress inst =
      let ingress = inst.spec.networking.ingress in
      record {
        meta = record (object_meta (resource_name inst) inst.meta.namespace (labels inst)) {
          annotations = ingress.annotations;
        };
        spec = record {
          ingress_class_name = ingress.class_name;
          rules =
              record {
                host = ingress.host;
                paths =
                    record {
                      path = or_default ingress.path "/";
                      path_type = "Prefix";
                      service_name = resource_name inst;
                      service_port = port_from_addr inst.spec.config.http default_http_port;
                    }
                    ∷ [];
              }
              ∷ [];
          tls = ingress_tls ingress;
        };
      }
