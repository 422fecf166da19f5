-- ===== src/Kube/Meta.antt =====
-- `metav1.ObjectMeta` and `intstr.IntOrString`, with the fields that the operator reads or writes.
use talon_db_k8s_operator.Base.{ℕ, String, Option, none, List, []}
use talon_db_k8s_operator.Base.Int.{ℤ, pos}
use talon_db_k8s_operator.Base.Dict.{Dict}
use talon_db_k8s_operator.Kube.External.{Platform}

pub record ObjectMeta (K : Platform) : Type 0 where
  pub name : String
  pub namespace : String
  pub labels : Dict String
  pub annotations : Dict String
  pub owner_references : List K.OwnerReference
  pub resource_version : String
  pub generation : ℤ
  pub finalizers : List String
  -- seconds since Go's zero time
  pub deletion_timestamp : Option ℕ

-- A literal `metav1.ObjectMeta{Name, Namespace, Labels}`: Go sets all other fields to zero.
abbrev pub object_meta : {K : Platform} → String → String → Dict String → ObjectMeta K
object_meta name namespace labels = record {
  name = name;
  namespace = namespace;
  labels = labels;
  annotations = [];
  owner_references = [];
  resource_version = "";
  generation = pos 0;
  finalizers = [];
  deletion_timestamp = none;
}

pub data IntOrString : Type 0 where
  from_int : ℤ → IntOrString
  from_string : String → IntOrString
