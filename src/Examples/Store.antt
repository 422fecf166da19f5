-- ===== src/Examples/Store.antt =====
-- ConfigMaps and Roles that are kept in memory, and what the helpers make of them.
use talon_db_k8s_operator.Base.{
  ℕ, suc, String, ◌≡◌, refl, ap, sym, ◌∙◌, inl, inr, Bool, true, false, ◌&&◌, List, [], ◌∷◌, arith,
  nat_eq, ◌==◌, ==_iff, if◌then◌else◌, Bool-cases,
}
use talon_db_k8s_operator.Base.Dict.{Dict}
use talon_db_k8s_operator.Kube.{ObjectMeta, ConfigMap, Role}
use talon_db_k8s_operator.Resources.ConfigMap.{build_config_map}
use talon_db_k8s_operator.Resources.Rbac.{build_role}
use talon_db_k8s_operator.Controller.Exec.{Result, ok, err}
use talon_db_k8s_operator.Controller.Environment.{Key, KindClient, Runtime, Session}
use talon_db_k8s_operator.Controller.Calls.{steps}
use talon_db_k8s_operator.Controller.Apply.{
  key_of, create_or_update_config_map, create_or_update_role,
}
use talon_db_k8s_operator.Controller.Converge.Unchanged.{QuietKind}
use talon_db_k8s_operator.Controller.Converge.Unchanged.Kinds.{config_map_kind, role_kind}
use talon_db_k8s_operator.Examples.Fixture.{platform, standalone}
use talon_db_k8s_operator.Examples.Cluster.{in_memory, accepting, is_at, missing}
use talon_db_k8s_operator.Examples.Quiet.{is_at_refl, key_of-is_at}

abbrev find_object : {T : Type 0} → (T → ObjectMeta platform) → Key → List T → Result T
find_object meta_of key [] = err missing
find_object meta_of key (t ∷ ts) =
    if is_at key (meta_of t) then ok t else find_object meta_of key ts

-- One kind of object, in a list: the latest version stands first.
abbrev list_client : {T : Type 0} → (T → ObjectMeta platform) → KindClient (List T) T
list_client meta_of = record {
  get = λ key ts. (find_object meta_of key ts, ts);
  create = λ t ts. (ok tt, t ∷ ts);
  update = λ t ts. (ok tt, t ∷ ts);
  delete = λ t ts. (ok tt, ts);
}

find_object-key :
    {T : Type 0} (meta_of : T → ObjectMeta platform) (key : Key) (ts : List T) (found : T)
    → find_object meta_of key ts ≡ ok found
    → key_of (meta_of found) ≡ key
find_object-key meta_of key [] found h = ground arith
find_object-key meta_of key (t ∷ ts) found h = elim (Bool-cases (is_at key (meta_of t))) [
  | inl here ↦
      let same : t ≡ found = ground (arith, h, here) in
      ap (λ t. key_of (meta_of t)) (sym same) ∙ key_of-is_at key (meta_of t) here
  | inr later ↦ find_object-key meta_of key ts found (ground (arith, h, later))
]

find_object-first :
    {T : Type 0} (meta_of : T → ObjectMeta platform) (t : T) (ts : List T)
    → find_object meta_of (key_of (meta_of t)) (t ∷ ts) ≡ ok t
find_object-first meta_of t ts = rw (is_at_refl (meta_of t)) refl

abbrev equal_dict : Dict String → Dict String → Bool
equal_dict [] [] = true
equal_dict ((k, v) ∷ m) ((j, w) ∷ n) = (k == j) && ((v == w) && equal_dict m n)
equal_dict _ _ = false

abbrev count : {T : Type 0} → List T → ℕ
count [] = 0
count (t ∷ ts) = suc (count ts)

-- A world that holds some kinds of object, and has no other.
abbrev storing :
    (W : Type 0)
    → KindClient W (ConfigMap platform)
    → KindClient W (Role platform)
    → Runtime platform
storing W config_maps roles = record in_memory {
  World = W;
  now = λ w. 1;
  instances = record {
    get = λ key w. (ok standalone, w);
    update = λ inst w. (ok inst, w);
    patch_status = λ base inst w. (ok inst, w);
  };
  stateful_sets = accepting;
  services = accepting;
  config_maps = config_maps;
  service_accounts = accepting;
  roles = roles;
  role_bindings = accepting;
  ingresses = accepting;
  network_policies = accepting;
  pod_disruption_budgets = accepting;
  autoscalers = accepting;
  service_monitors = accepting;
  equal_entries = equal_dict;
  equal_rules = λ old new. nat_eq (count old) (count new);
}

equal_dict_refl : (m : Dict String) → equal_dict m m ≡ true
equal_dict_refl [] = refl
equal_dict_refl ((k, v) ∷ m) = rw ((==_iff k k).1 refl, (==_iff v v).1 refl, equal_dict_refl m) refl

abbrev config_map_store : Runtime platform
config_map_store = storing (List (ConfigMap platform)) (list_client (λ cm. cm.meta)) accepting

config_map_store-quiet : QuietKind (config_map_kind config_map_store)
config_map_store-quiet = record {
  equal_refl = equal_dict_refl;
  read_key = λ key cm w h. find_object-key (λ cm. cm.meta) key w cm h;
  read_again = λ key w. refl;
  after_create = λ cm w h. (cm, find_object-first (λ cm. cm.meta) cm w, refl);
  after_update = λ cm w h. (cm, find_object-first (λ cm. cm.meta) cm w, refl);
}

abbrev role_store : Runtime platform
role_store = storing (List (Role platform)) accepting (list_client (λ role. role.meta))

role_store-quiet : QuietKind (role_kind role_store)
role_store-quiet = record {
  equal_refl = λ rules. ground arith;
  read_key = λ key role w h. find_object-key (λ role. role.meta) key w role h;
  read_again = λ key w. refl;
  after_create = λ role w h. (role, find_object-first (λ role. role.meta) role w, refl);
  after_update = λ role w h. (role, find_object-first (λ role. role.meta) role w, refl);
}

abbrev owned : ObjectMeta platform → ObjectMeta platform
owned meta = record meta { owner_references = "orders" ∷ [] }

abbrev no_config_maps : Session config_map_store
no_config_maps = record { world = []; instance_in_memory = standalone; events = [] }

abbrev orders_config : ConfigMap platform
orders_config = build_config_map standalone

config_map_created :
    (create_or_update_config_map config_map_store orders_config no_config_maps).0 ≡ ok tt
unfolding create_or_update_config_map steps
config_map_created = refl

abbrev no_roles : Session role_store
no_roles = record { world = []; instance_in_memory = standalone; events = [] }

abbrev orders_role : Role platform
orders_role = build_role standalone

role_created : (create_or_update_role role_store orders_role no_roles).0 ≡ ok tt
unfolding create_or_update_role steps
role_created = refl
