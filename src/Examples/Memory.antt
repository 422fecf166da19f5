-- ===== src/Examples/Memory.antt =====
-- Custom resources in memory, with a Kubernetes library whose types take a cell each.
use talon_db_k8s_operator.Base.{
  ℕ, suc, String, ◌≡◌, refl, true, false, none, some, List, [], ◌∷◌, map, arith,
}
use talon_db_k8s_operator.Base.Int.{pos}
use talon_db_k8s_operator.Base.Dict.{NodupKeys, lookup}
use talon_db_k8s_operator.Kube.{object_meta}
use talon_db_k8s_operator.Api.{Condition, condition_config_map_ready}
use talon_db_k8s_operator.DeepCopy.Alloc.{Ref, Entries}
use talon_db_k8s_operator.DeepCopy.Copyable.{Copyable, Lawful, plain}
use talon_db_k8s_operator.DeepCopy.Foreign.{Foreign, LawfulForeign}
use talon_db_k8s_operator.DeepCopy.Fresh.{Fresh-[], Fresh-cons}
use talon_db_k8s_operator.DeepCopy.Laws.{Lawful-plain}
use talon_db_k8s_operator.DeepCopy.Resource.{TlnDbStruct, deep_copy_into_tln_db, resource_value}
use talon_db_k8s_operator.DeepCopy.Objects.{
  tln_db_object, deep_copy_object, Answers, deep_copy_object-Answers,
}
use talon_db_k8s_operator.DeepCopy.Package.{resource, deep_copy}
use talon_db_k8s_operator.DeepCopy.Package.Copies.{IsDeepCopy, deep_copy-IsDeepCopy}
use talon_db_k8s_operator.DeepCopy.PatchBase.{write_conditions, write_conditions-deep_copy}
use talon_db_k8s_operator.Examples.Fixture.{platform, default_spec}

-- A value behind a pointer of its own.
abbrev boxed : (A : Type 0) → Copyable A
boxed A = record {
  Carrier = Ref A;
  value = λ r. r.target;
  addresses = λ r. r.address ∷ [];
  nils = λ r. [];
  copy = λ r n. (record r { address = n }, suc n);
}

boxed-Lawful : (A : Type 0) → Lawful (boxed A)
boxed-Lawful A = record {
  at = λ r n. record { same = refl; alike = refl; fresh = Fresh-cons (Fresh-[] (suc n)) };
}

abbrev library : Foreign platform
library = record {
  ListMeta = Unit;
  object_meta = boxed _;
  list_meta = plain _;
  condition = plain _;
  time_pointer = boxed _;
  quantity = plain _;
  env_var = boxed _;
  env_from_source = boxed _;
  resource_requirements = boxed _;
  toleration = plain _;
  affinity = boxed _;
  container = boxed _;
  volume = boxed _;
  volume_mount = boxed _;
  pod_security_context = boxed _;
  security_context = boxed _;
  ingress_rule = boxed _;
  egress_rule = boxed _;
}

library-lawful : LawfulForeign library
library-lawful = record {
  object_meta = boxed-Lawful _;
  list_meta = Lawful-plain _;
  condition = Lawful-plain _;
  time_pointer = boxed-Lawful _;
  quantity = Lawful-plain _;
  env_var = boxed-Lawful _;
  env_from_source = boxed-Lawful _;
  resource_requirements = boxed-Lawful _;
  toleration = Lawful-plain _;
  affinity = boxed-Lawful _;
  container = boxed-Lawful _;
  volume = boxed-Lawful _;
  volume_mount = boxed-Lawful _;
  pod_security_context = boxed-Lawful _;
  security_context = boxed-Lawful _;
  ingress_rule = boxed-Lawful _;
  egress_rule = boxed-Lawful _;
}

abbrev at : {A : Type 0} → ℕ → A → Ref A
at address target = record { address = address; target = target }

abbrev ready : Condition
ready = record {
  condition_type = condition_config_map_ready;
  status = true;
  reason = "Reconciled";
  message = "";
  observed_generation = pos 1;
}

abbrev conditions_array : Ref (List Condition)
conditions_array = at 3 (ready ∷ [])

team_once : NodupKeys {V = String} (("team", "data") ∷ [])
unfolding lookup
team_once = (refl, tt)

abbrev team : Entries
team = record { entries = ("team", "data") ∷ []; nodup = team_once }

-- A resource with pointers, slices and maps in several places; cells 0 to 11 are in use.
abbrev stored : TlnDbStruct library
stored = record {
  type_meta = record { kind = "TlnDB"; api_version = "db.tlndb.io/v1alpha1" };
  meta = at 1 (object_meta "orders" "shop" []);
  spec = record {
    mode = "";
    replication = default_spec.replication;
    image = record {
      repository = "";
      tag = "";
      digest = "";
      pull_policy = "";
      pull_secrets = some (at 2 ("registry" ∷ []));
    };
    replicas = some (at 4 (pos 1));
    config = default_spec.config;
    config_from = none;
    env = none;
    env_from = none;
    resources = at 5 tt;
    storage = record {
      persistence = record {
        enabled = some (at 6 true);
        size = "10Gi";
        storage_class_name = none;
        access_modes = none;
        existing_claim = "";
      };
    };
    networking = record {
      service = record { service_type = ""; annotations = none; labels = some (at 7 team) };
      ingress = record {
        enabled = false;
        class_name = none;
        host = "";
        path = "";
        tls_secret_name = "";
        annotations = none;
      };
      network_policy = record { enabled = true; ingress_rules = none; egress_rules = none };
    };
    security = record {
      pod_security_context = none;
      container_security_context = none;
      fs_group = none;
    };
    observability = record {
      metrics = record {
        enabled = none;
        port = pos 0;
        path = "";
        service_monitor = record { enabled = false; interval = ""; labels = none };
      };
      health = default_spec.observability.health;
    };
    availability = record {
      pod_disruption_budget = record {
        enabled = false;
        min_available = none;
        max_unavailable = none;
      };
      horizontal_pod_autoscaler = record {
        enabled = true;
        min_replicas = some (at 8 (pos 2));
        max_replicas = pos 5;
        cpu_utilization = none;
        memory_utilization = none;
      };
    };
    node_selector = none;
    tolerations = none;
    affinity = some (at 9 (at 10 tt));
    pod_annotations = none;
    service_account_name = "";
    init_containers = none;
    additional_containers = none;
    additional_volumes = none;
    additional_volume_mounts = none;
  };
  status = record {
    phase = "Running";
    conditions = some conditions_array;
    observed_generation = pos 1;
    ready_replicas = pos 1;
    current_image = "";
    managed_resources = none;
    last_update_time = some (at 11 60);
  };
}

deep_copy-IsDeepCopy_example :
    IsDeepCopy library resource
      (some (at 0 stored))
      12
      (deep_copy library resource (some (at 0 stored)) 12).0
deep_copy-IsDeepCopy_example =
    deep_copy-IsDeepCopy library-lawful resource (some (at 0 stored)) 12 (omega arith)

-- A later reconciliation finds the condition false.
abbrev turn_false : List Condition → List Condition
turn_false = map (λ (c : Condition). record c { status = false })

write_conditions-deep_copy_example :
    ((resource_value library (write_conditions library 3 turn_false stored)).status.conditions
      ≡ map (λ c. c) (turn_false conditions_array.target))
    × (resource_value library
          (write_conditions library 3 turn_false (deep_copy_into_tln_db library stored 12).0)
        ≡ resource_value library stored)
write_conditions-deep_copy_example =
    write_conditions-deep_copy library-lawful stored 12 conditions_array turn_false refl
      (omega arith)

deep_copy_object-Answers_example :
    Answers library
      (tln_db_object (some (at 0 stored)))
      12
      (deep_copy_object library (tln_db_object (some (at 0 stored))) 12)
deep_copy_object-Answers_example =
    deep_copy_object-Answers library-lawful (tln_db_object (some (at 0 stored))) 12
