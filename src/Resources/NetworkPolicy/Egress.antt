-- ===== src/Resources/NetworkPolicy/Egress.antt =====
-- internal/resources/networkpolicy.go: what the egress rules let through.
use talon_db_k8s_operator.Base.{
  String, ◌≡◌, refl, sym, ◌⊎◌, ◌↔◌, Option, none, some, List, [], ◌∷◌, inl, inr,
}
use talon_db_k8s_operator.Base.Int.{ℤ, pos, ◌≤ℤ◌}
use talon_db_k8s_operator.Kube.{
  Platform, IntOrString, from_int, from_string, NetworkPolicyPort, NetworkPolicyRule, NetworkPolicy,
}
use talon_db_k8s_operator.Api.{TlnDb}
use talon_db_k8s_operator.Resources.NetworkPolicy.{build_default_egress_rules, build_network_policy}

-- An entry without a protocol is for TCP.
abbrev AdmitsProtocol : String → Option String → Type 0
AdmitsProtocol protocol none = protocol ≡ "TCP"
AdmitsProtocol protocol (some given) = given ≡ protocol

-- An entry without a port is for all, one with an end for a range. A name can stand for any port
-- of a peer.
abbrev AdmitsPort : ℤ → Option IntOrString → Option ℤ → Type 0
AdmitsPort port none _ = Unit
AdmitsPort port (some (from_string _)) _ = Unit
AdmitsPort port (some (from_int number)) none = number ≡ port
AdmitsPort port (some (from_int first)) (some last) = (first ≤ℤ port) × (port ≤ℤ last)

abbrev SomeAdmits : String → ℤ → List NetworkPolicyPort → Type 0
SomeAdmits protocol port [] = ⊥
SomeAdmits protocol port (entry ∷ entries) =
    (AdmitsProtocol protocol entry.protocol × AdmitsPort port entry.port entry.end_port)
    ⊎ SomeAdmits protocol port entries

-- A rule without ports is for every protocol and port.
abbrev RuleAdmits : String → ℤ → List NetworkPolicyPort → Type 0
RuleAdmits protocol port [] = Unit
RuleAdmits protocol port (entry ∷ entries) = SomeAdmits protocol port (entry ∷ entries)

-- Some rule permits traffic to the port, of whatever peers the rule is for.
abbrev pub Permits : {K : Platform} → String → ℤ → List (NetworkPolicyRule K) → Type 0
Permits protocol port [] = ⊥
Permits protocol port (rule ∷ rules) =
    RuleAdmits protocol port rule.ports ⊎ Permits protocol port rules

abbrev Lists : String → List String → Type 0
Lists name [] = ⊥
Lists name (other ∷ names) = (other ≡ name) ⊎ Lists name names

-- A policy that is not for egress leaves all of it through.
abbrev pub PermitsEgress : {K : Platform} → String → ℤ → NetworkPolicy K → Type 0
PermitsEgress protocol port policy =
    (¬ Lists "Egress" policy.spec.policy_types) ⊎ Permits protocol port policy.spec.egress

-- DNS: port 53 over TCP or UDP
abbrev pub IsDns : String → ℤ → Type 0
IsDns protocol port = ((protocol ≡ "TCP") ⊎ (protocol ≡ "UDP")) × (port ≡ pos 53)

module _ (K : Platform) (protocol : String) (port : ℤ) where
  IsDns-of_Permits : Permits protocol port (build_default_egress_rules K) → IsDns protocol port
  unfolding build_default_egress_rules
  IsDns-of_Permits (inl (inl (tcp, number))) = (inl (sym tcp), sym number)
  IsDns-of_Permits (inl (inr (inl (udp, number)))) = (inr (sym udp), sym number)
  IsDns-of_Permits (inl (inr (inr h))) = absurd h
  IsDns-of_Permits (inr h) = absurd h

  Permits-of_dns : IsDns protocol port → Permits protocol port (build_default_egress_rules K)
  unfolding build_default_egress_rules
  Permits-of_dns (inl tcp, number) = inl (inl (sym tcp, sym number))
  Permits-of_dns (inr udp, number) = inl (inr (inl (sym udp, sym number)))

module _ {K : Platform} (inst : TlnDb K) where
  -- Without egress rules of the user's, the policy permits TCP and UDP to port 53, and no other
  -- protocol or port.
  pub build_network_policy-Permits :
      inst.spec.networking.network_policy.egress_rules ≡ []
      → (protocol : String) (port : ℤ)
      → PermitsEgress protocol port (build_network_policy inst) ↔ IsDns protocol port
  unfolding build_network_policy
  build_network_policy-Permits none_added protocol port = rw none_added (
    λ permitted. elim permitted [
      | inl unrestricted ↦ absurd (unrestricted (inr (inl refl)))
      | inr h ↦ IsDns-of_Permits K protocol port h
    ],
    λ dns. inr (Permits-of_dns K protocol port dns),
  )
