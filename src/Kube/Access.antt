-- ===== src/Kube/Access.antt =====
-- The fields of ConfigMaps and of the RBAC objects that the operator sets or reads.
use talon_db_k8s_operator.Base.{String, Bool, Option, List}
use talon_db_k8s_operator.Base.Dict.{Dict}
use talon_db_k8s_operator.Kube.External.{Platform}
use talon_db_k8s_operator.Kube.Meta.{ObjectMeta}

pub record ConfigMap (K : Platform) : Type 0 where
  pub meta : ObjectMeta K
  pub entries : Dict String

pub record ServiceAccount (K : Platform) : Type 0 where
  pub meta : ObjectMeta K
  pub automount_token : Option Bool

pub record PolicyRule : Type 0 where
  pub api_groups : List String
  pub resources : List String
  pub resource_names : List String
  pub verbs : List String

pub record Role (K : Platform) : Type 0 where
  pub meta : ObjectMeta K
  pub rules : List PolicyRule

pub record RoleRef : Type 0 where
  pub api_group : String
  pub kind : String
  pub name : String

pub record Subject : Type 0 where
  pub kind : String
  pub name : String
  pub namespace : String

pub record RoleBinding (K : Platform) : Type 0 where
  pub meta : ObjectMeta K
  pub role_ref : RoleRef
  pub subjects : List Subject
