-- ===== src/Resources/PortAgreement.antt =====
-- The ports that containers, Services, the NetworkPolicy, the Ingress and the probes use.
use talon_db_k8s_operator.Base.{
  String, ◌≡◌, refl, some, List, [], ◌∷◌, map, Bool-cases, inl, inr, none,
}
use talon_db_k8s_operator.Base.Int.{ℤ}
use talon_db_k8s_operator.Kube.{
  Platform, IntOrString, from_int, from_string, ContainerPort, ServicePort, NetworkPolicyPort,
  NetworkPolicyRule,
}
use talon_db_k8s_operator.Api.{TlnDb}
use talon_db_k8s_operator.Resources.Common.{metrics_enabled}
use talon_db_k8s_operator.Resources.StatefulSet.Container.{container_ports}
use talon_db_k8s_operator.Resources.Service.{build_service_ports}
use talon_db_k8s_operator.Resources.NetworkPolicy.{build_default_ingress_rules}

-- A container port as a Service has to name it: its name, number and protocol.
abbrev pub container_view : ContainerPort → IntOrString × ℤ × String
container_view p = (from_string p.name, p.container_port, p.protocol)

-- What a Service port forwards to, its number and its protocol.
abbrev pub service_view : ServicePort → IntOrString × ℤ × String
service_view p = (p.target_port, p.port, p.protocol)

-- A container port as a NetworkPolicy has to allow it.
abbrev pub allowing : ContainerPort → NetworkPolicyPort
allowing p = record {
  protocol = some p.protocol;
  port = some (from_int p.container_port);
  end_port = none;
}

abbrev pub rule_ports : {K : Platform} → List (NetworkPolicyRule K) → List (List NetworkPolicyPort)
rule_ports rules = map (λ r. r.ports) rules

module _ {K : Platform} (inst : TlnDb K) where
  -- Every Service port forwards to a container port by its name, with the same number and
  -- protocol, and no container port is left out; the default ingress rule allows just these ports.
  pub ports_agree :
      (map service_view (build_service_ports inst) ≡ map container_view (container_ports inst))
      × (rule_ports (build_default_ingress_rules inst) ≡ map allowing (container_ports inst) ∷ [])
  unfolding build_service_ports container_ports build_default_ingress_rules
  ports_agree = elim (Bool-cases (metrics_enabled inst)) [
    | inl on ↦ rw on (refl, refl)
    | inr off ↦ rw off (refl, refl)
  ]
