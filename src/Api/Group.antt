-- ===== src/Api/Group.antt =====
-- api/v1alpha1/groupversion_info.go: the API group of the custom resource.
use talon_db_k8s_operator.Base.{String, List, [], ◌∷◌}

-- `schema.GroupVersion`
pub record GroupVersion : Type 0 where
  pub group : String
  pub version : String

abbrev pub group_version : GroupVersion
group_version = record { group = "db.tlndb.io"; version = "v1alpha1" }

-- The types that the package registers: `SchemeBuilder.Register(&TlnDB{}, &TlnDBList{})`.
pub data RootType : Type 0 where
  tln_db_type tln_db_list_type : RootType

abbrev pub registered_types : List RootType
registered_types = tln_db_type ∷ tln_db_list_type ∷ []

-- The name of the Go type, which the API machinery takes for the kind.
abbrev pub root_kind : RootType → String
root_kind tln_db_type = "TlnDB"
root_kind tln_db_list_type = "TlnDBList"
