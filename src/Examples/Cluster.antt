-- ===== src/Examples/Cluster.antt =====
-- A cluster in memory: the custom resource, StatefulSets and Services, latest write first. Of the
-- other kinds it keeps nothing: a read finds no object and a write is accepted.
use talon_db_k8s_operator.Base.{
  String, Bool, true, false, Option, none, some, List, [], ◌∷◌, ◌==◌, ◌&&◌, if◌then◌else◌,
}
use talon_db_k8s_operator.Base.Int.{ℤ, leb_ℤ}
use talon_db_k8s_operator.Kube.{ObjectMeta, StatefulSet, Service}
use talon_db_k8s_operator.Api.{TlnDb}
use talon_db_k8s_operator.Controller.Exec.{Result, ok, err, Error, not_found}
use talon_db_k8s_operator.Controller.Environment.{Key, KindClient, Runtime}
use talon_db_k8s_operator.Examples.Fixture.{platform}

pub record Cluster : Type 0 where
  pub instance_stored : TlnDb platform
  pub sets : List (StatefulSet platform)
  pub services : List (Service platform)

abbrev pub missing : Error
missing = record { reason = not_found; message = "not found" }

abbrev pub is_at : Key → ObjectMeta platform → Bool
is_at key meta = meta.namespace == key.namespace && meta.name == key.name

abbrev pub find_set : Key → List (StatefulSet platform) → Result (StatefulSet platform)
find_set key [] = err missing
find_set key (set ∷ sets) = if is_at key set.meta then ok set else find_set key sets

abbrev pub find_service : String → List (Service platform) → Result (Service platform)
find_service name [] = err missing
find_service name (service ∷ services) =
    if service.meta.name == name then ok service else find_service name services

abbrev without : String → List (StatefulSet platform) → List (StatefulSet platform)
without name [] = []
without name (set ∷ sets) =
    let rest = without name sets in if set.meta.name == name then rest else set ∷ rest

abbrev pub accepting : {W T : Type 0} → KindClient W T
accepting = record {
  get = λ key w. (err missing, w);
  create = λ object w. (ok tt, w);
  update = λ object w. (ok tt, w);
  delete = λ object w. (ok tt, w);
}

abbrev pub has_string : List String → String → Bool
has_string [] s = false
has_string (t ∷ ts) s = if t == s then true else has_string ts s

abbrev pub drop_string : List String → String → List String
drop_string [] s = []
drop_string (t ∷ ts) s = let rest = drop_string ts s in if t == s then rest else t ∷ rest

abbrev pub equal_counts : Option ℤ → Option ℤ → Bool
equal_counts none none = true
equal_counts (some a) (some b) = leb_ℤ a b && leb_ℤ b a
equal_counts _ _ = false

abbrev pub in_memory : Runtime platform
in_memory = record {
  World = Cluster;
  now = λ w. 1;
  instances = record {
    get = λ key w. (ok w.instance_stored, w);
    update = λ inst w. (ok inst, record w { instance_stored = inst });
    patch_status = λ base inst w. (ok inst, record w { instance_stored = inst });
  };
  stateful_sets = record {
    get = λ key w. (find_set key w.sets, w);
    create = λ set w. (ok tt, record w { sets = set ∷ w.sets });
    update = λ set w. (ok tt, record w { sets = set ∷ w.sets });
    delete = λ set w. (ok tt, record w { sets = without set.meta.name w.sets });
  };
  services = record {
    get = λ key w. (find_service key.name w.services, w);
    create = λ service w. (ok tt, record w { services = service ∷ w.services });
    update = λ service w. (ok tt, record w { services = service ∷ w.services });
    delete = λ service w. (ok tt, w);
  };
  config_maps = accepting;
  service_accounts = accepting;
  roles = accepting;
  role_bindings = accepting;
  ingresses = accepting;
  network_policies = accepting;
  pod_disruption_budgets = accepting;
  autoscalers = accepting;
  service_monitors = accepting;
  set_controller_reference =
      λ inst meta. ok (record meta { owner_references = inst.meta.name ∷ [] });
  set_value_controller_reference = λ inst value. ok value;
  contains_finalizer = has_string;
  add_finalizer = λ finalizers s. s ∷ finalizers;
  remove_finalizer = drop_string;
  set_status_condition = λ conditions condition. condition ∷ conditions;
  equal_entries = λ a b. false;
  equal_rules = λ a b. false;
  equal_role_ref = λ a b. false;
  equal_subjects = λ a b. false;
  equal_replicas = equal_counts;
  value_name = λ value. "monitor";
  value_namespace = λ value. "shop";
  value_resource_version = λ value. "1";
  set_value_resource_version = λ value version. value;
}
