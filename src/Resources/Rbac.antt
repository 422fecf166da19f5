-- ===== src/Resources/Rbac.antt =====
-- internal/resources/rbac.go
use talon_db_k8s_operator.Base.{false, some, [], ◌∷◌}
use talon_db_k8s_operator.Kube.{Platform, object_meta, ServiceAccount, Role, RoleBinding}
use talon_db_k8s_operator.Api.{TlnDb}
use talon_db_k8s_operator.Resources.Common.{resource_name, config_map_name, labels}

module _ {K : Platform} where
  unfoldable pub build_service_account : TlnDb K → ServiceAccount K
  unfolding labels
  build_service_account inst = record {
    meta = object_meta (resource_name inst) inst.meta.namespace (labels inst);
    automount_token = some false;
  }

  unfoldable pub build_role : TlnDb K → Role K
  unfolding labels
  build_role inst = record {
    meta = object_meta (resource_name inst) inst.meta.namespace (labels inst);
    rules =
        record {
          api_groups = "" ∷ [];
          resources = "configmaps" ∷ [];
          resource_names = config_map_name inst ∷ [];
          verbs = "get" ∷ "watch" ∷ "list" ∷ [];
        }
        ∷ record {
          api_groups = "" ∷ [];
          resources = "events" ∷ [];
          resource_names = [];
          verbs = "create" ∷ "patch" ∷ [];
        }
        ∷ [];
  }

  unfoldable pub build_role_binding : TlnDb K → RoleBinding K
  unfolding labels
  build_role_binding inst = record {
    meta = object_meta (resource_name inst) inst.meta.namespace (labels inst);
    role_ref = record {
      api_group = "rbac.authorization.k8s.io";
      kind = "Role";
      name = resource_name inst;
    };
    subjects =
        record {
          kind = "ServiceAccount";
          name = resource_name inst;
          namespace = inst.meta.namespace;
        }
        ∷ [];
  }
