-- ===== src/Kube/Network.antt =====
-- The fields of Services, Ingresses and NetworkPolicies that the operator sets or reads.
use talon_db_k8s_operator.Base.{String, Bool, Option, List}
use talon_db_k8s_operator.Base.Int.{ℤ}
use talon_db_k8s_operator.Base.Dict.{Dict}
use talon_db_k8s_operator.Kube.External.{Platform}
use talon_db_k8s_operator.Kube.Meta.{ObjectMeta, IntOrString}

pub record ServicePort : Type 0 where
  pub name : String
  pub port : ℤ
  pub target_port : IntOrString
  pub protocol : String

pub record ServiceSpec : Type 0 where
  pub service_type : String
  pub cluster_ip : String
  pub selector : Dict String
  pub ports : List ServicePort
  pub publish_not_ready_addresses : Bool

pub record Service (K : Platform) : Type 0 where
  pub meta : ObjectMeta K
  pub spec : ServiceSpec

pub record IngressPath : Type 0 where
  pub path : String
  pub path_type : String
  pub service_name : String
  pub service_port : ℤ

pub record IngressRule : Type 0 where
  pub host : String
  pub paths : List IngressPath

pub record IngressTls : Type 0 where
  pub hosts : List String
  pub secret_name : String

pub record IngressSpec : Type 0 where
  pub ingress_class_name : Option String
  pub rules : List IngressRule
  pub tls : List IngressTls

pub record Ingress (K : Platform) : Type 0 where
  pub meta : ObjectMeta K
  pub spec : IngressSpec

pub record NetworkPolicyPort : Type 0 where
  pub protocol : Option String
  pub port : Option IntOrString
  pub end_port : Option ℤ

-- An ingress rule with its `From`, or an egress rule with its `To`.
pub record NetworkPolicyRule (K : Platform) : Type 0 where
  pub ports : List NetworkPolicyPort
  pub peers : List K.NetworkPolicyPeer

pub record NetworkPolicySpec (K : Platform) : Type 0 where
  pub pod_selector : Dict String
  pub policy_types : List String
  pub ingress : List (NetworkPolicyRule K)
  pub egress : List (NetworkPolicyRule K)

pub record NetworkPolicy (K : Platform) : Type 0 where
  pub meta : ObjectMeta K
  pub spec : NetworkPolicySpec K
