-- ===== src/Resources/NetworkPolicy.antt =====
-- internal/resources/networkpolicy.go
pub mod Egress
use talon_db_k8s_operator.Base.{String, none, some, List, [], ◌∷◌, ◌++◌, if◌then◌else◌}
use talon_db_k8s_operator.Base.Int.{ℤ, pos}
use talon_db_k8s_operator.Kube.{
  Platform, object_meta, NetworkPolicyPort, NetworkPolicyRule, NetworkPolicy, from_int,
}
use talon_db_k8s_operator.Api.{TlnDb}
use talon_db_k8s_operator.Resources.Common.{
  default_grpc_port, default_http_port, resource_name, labels, selector_labels, port_from_addr,
  metrics_enabled, metrics_port,
}

abbrev port_rule : String → ℤ → NetworkPolicyPort
port_rule protocol port = record {
  protocol = some protocol;
  port = some (from_int port);
  end_port = none;
}

unfoldable pub build_default_egress_rules : (K : Platform) → List (NetworkPolicyRule K)
build_default_egress_rules K =
    record { ports = port_rule "TCP" (pos 53) ∷ port_rule "UDP" (pos 53) ∷ []; peers = [] } ∷ []

module _ {K : Platform} where
  unfoldable pub build_default_ingress_rules : TlnDb K → List (NetworkPolicyRule K)
  unfolding port_from_addr metrics_port
  build_default_ingress_rules inst =
      record {
        ports =
            port_rule "TCP" (port_from_addr inst.spec.config.tcp default_grpc_port)
            ∷ port_rule "TCP" (port_from_addr inst.spec.config.http default_http_port)
            ∷ (if metrics_enabled inst then port_rule "TCP" (metrics_port inst) ∷ [] else []);
        peers = [];
      }
      ∷ []

  unfoldable pub build_network_policy : TlnDb K → NetworkPolicy K
  unfolding labels selector_labels build_default_ingress_rules build_default_egress_rules
  build_network_policy inst =
      let policy = inst.spec.networking.network_policy in
      record {
        meta = object_meta (resource_name inst) inst.meta.namespace (labels inst);
        spec = record {
          pod_selector = selector_labels inst;
          policy_types = "Ingress" ∷ "Egress" ∷ [];
          ingress = build_default_ingress_rules inst ++ policy.ingress_rules;
          egress = build_default_egress_rules K ++ policy.egress_rules;
        };
      }
