-- ===== src/Kube/Scaling.antt =====
-- The fields of PodDisruptionBudgets and HorizontalPodAutoscalers that the operator sets, and the
-- untyped objects (`unstructured.Unstructured`) that it writes for Prometheus.
use talon_db_k8s_operator.Base.{String, Option, List}
use talon_db_k8s_operator.Base.Int.{ℤ}
use talon_db_k8s_operator.Base.Dict.{Dict}
use talon_db_k8s_operator.Kube.External.{Platform}
use talon_db_k8s_operator.Kube.Meta.{ObjectMeta, IntOrString}

pub record PdbSpec : Type 0 where
  pub selector : Dict String
  pub min_available : Option IntOrString
  pub max_unavailable : Option IntOrString

pub record PodDisruptionBudget (K : Platform) : Type 0 where
  pub meta : ObjectMeta K
  pub spec : PdbSpec

pub record CrossVersionObjectReference : Type 0 where
  pub api_version : String
  pub kind : String
  pub name : String

pub record MetricSpec : Type 0 where
  pub metric_type : String
  pub resource_name : String
  pub target_type : String
  pub average_utilization : Option ℤ

pub record HpaSpec : Type 0 where
  pub scale_target_ref : CrossVersionObjectReference
  pub min_replicas : Option ℤ
  pub max_replicas : ℤ
  pub metrics : List MetricSpec

pub record HorizontalPodAutoscaler (K : Platform) : Type 0 where
  pub meta : ObjectMeta K
  pub spec : HpaSpec

-- `interface{}` as far as the operator builds it: texts, lists and maps with text keys.
mutual
  pub data Value : Type 0 where
    text : String → Value
    items : Values → Value
    object : Fields → Value

  pub data Values : Type 0 where
    nil : Values
    cons : Value → Values → Values

  pub data Fields : Type 0 where
    end : Fields
    field : String → Value → Fields → Fields
