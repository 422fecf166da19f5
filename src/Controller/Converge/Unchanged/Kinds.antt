-- ===== src/Controller/Converge/Unchanged/Kinds.antt =====
-- internal/controller/tlndb_controller.go: `createOrUpdateConfigMap`, `createOrUpdateRole` and
-- `createOrUpdateRoleBinding` come to rest.
use talon_db_k8s_operator.Base.{String, List, ◌≡◌, refl, ◌&&◌}
use talon_db_k8s_operator.Base.Dict.{Dict}
use talon_db_k8s_operator.Kube.{
  Platform, ObjectMeta, ConfigMap, Role, RoleBinding, PolicyRule, RoleRef, Subject,
}
use talon_db_k8s_operator.Controller.Exec.{ok}
use talon_db_k8s_operator.Controller.Environment.{Runtime, Session}
use talon_db_k8s_operator.Controller.Apply.{
  key_of, create_or_update_config_map, create_or_update_role, create_or_update_role_binding,
}
use talon_db_k8s_operator.Controller.Converge.Unchanged.{Kind, QuietKind, apply}
use talon_db_k8s_operator.Controller.Converge.Unchanged.Settles.{apply-settles}

module _ {K : Platform} (R : Runtime K) where
  abbrev pub config_map_kind : Kind R (ConfigMap K)
  config_map_kind = record {
    Contents = Dict String;
    client = R.config_maps;
    meta_of = λ cm. cm.meta;
    contents = λ cm. cm.entries;
    equal = R.equal_entries;
    with_meta = λ cm meta. record cm { meta = meta };
    changed = λ found meta desired. record {
      meta = record found.meta { labels = meta.labels };
      entries = desired.entries;
    };
    with_meta_key = λ cm meta. refl;
    with_meta_contents = λ cm meta. refl;
    changed_key = λ found cm meta. refl;
    changed_contents = λ found cm meta. refl;
  }

  abbrev pub role_kind : Kind R (Role K)
  role_kind = record {
    Contents = List PolicyRule;
    client = R.roles;
    meta_of = λ role. role.meta;
    contents = λ role. role.rules;
    equal = R.equal_rules;
    with_meta = λ role meta. record role { meta = meta };
    changed = λ found meta desired. record {
      meta = record found.meta { labels = meta.labels };
      rules = desired.rules;
    };
    with_meta_key = λ role meta. refl;
    with_meta_contents = λ role meta. refl;
    changed_key = λ found role meta. refl;
    changed_contents = λ found role meta. refl;
  }

  abbrev pub role_binding_kind : Kind R (RoleBinding K)
  role_binding_kind = record {
    Contents = RoleRef × List Subject;
    client = R.role_bindings;
    meta_of = λ binding. binding.meta;
    contents = λ binding. (binding.role_ref, binding.subjects);
    equal = λ old new. R.equal_role_ref old.0 new.0 && R.equal_subjects old.1 new.1;
    with_meta = λ binding meta. record binding { meta = meta };
    changed = λ found meta desired. record {
      meta = record found.meta { labels = meta.labels };
      role_ref = desired.role_ref;
      subjects = desired.subjects;
    };
    with_meta_key = λ binding meta. refl;
    with_meta_contents = λ binding meta. refl;
    changed_key = λ found binding meta. refl;
    changed_contents = λ found binding meta. refl;
  }

  -- Of ConfigMaps that read back as they were written (`QuietKind`): if the owner reference can be
  -- set and a first run succeeds, then a second run with the same desired object succeeds and
  -- makes no call but one read.
  pub create_or_update_config_map-settles :
      (desired : ConfigMap K) (s : Session R) (meta : ObjectMeta K)
      → QuietKind config_map_kind
      → R.set_controller_reference s.instance_in_memory desired.meta ≡ ok meta
      → (create_or_update_config_map R desired s).0 ≡ ok tt
      → let s' = (create_or_update_config_map R desired s).1 in
        create_or_update_config_map R desired s'
        ≡ (ok tt, record s' { world = (R.config_maps.get (key_of meta) s'.world).1 })
  unfolding create_or_update_config_map apply
  create_or_update_config_map-settles desired s meta quiet own fine =
      apply-settles config_map_kind quiet desired s meta own fine

  -- The same of Roles: a second run with the same desired object makes no call but one read.
  pub create_or_update_role-settles :
      (desired : Role K) (s : Session R) (meta : ObjectMeta K)
      → QuietKind role_kind
      → R.set_controller_reference s.instance_in_memory desired.meta ≡ ok meta
      → (create_or_update_role R desired s).0 ≡ ok tt
      → let s' = (create_or_update_role R desired s).1 in
        create_or_update_role R desired s'
        ≡ (ok tt, record s' { world = (R.roles.get (key_of meta) s'.world).1 })
  unfolding create_or_update_role apply
  create_or_update_role-settles desired s meta quiet own fine =
      apply-settles role_kind quiet desired s meta own fine

  -- The same of RoleBindings: a second run with the same desired object makes no call but one
  -- read.
  pub create_or_update_role_binding-settles :
      (desired : RoleBinding K) (s : Session R) (meta : ObjectMeta K)
      → QuietKind role_binding_kind
      → R.set_controller_reference s.instance_in_memory desired.meta ≡ ok meta
      → (create_or_update_role_binding R desired s).0 ≡ ok tt
      → let s' = (create_or_update_role_binding R desired s).1 in
        create_or_update_role_binding R desired s'
        ≡ (ok tt, record s' { world = (R.role_bindings.get (key_of meta) s'.world).1 })
  unfolding create_or_update_role_binding apply
  create_or_update_role_binding-settles desired s meta quiet own fine =
      apply-settles role_binding_kind quiet desired s meta own fine
