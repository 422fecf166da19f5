-- ===== src/Examples/Fixture.antt =====
-- A concrete outside world and concrete custom resources.
use talon_db_k8s_operator.Base.{String, true, false, none, []}
use talon_db_k8s_operator.Base.Int.{pos}
use talon_db_k8s_operator.Kube.{Platform, object_meta}
use talon_db_k8s_operator.Api.{TlnDbSpec, TlnDbStatus, TlnDb}

abbrev pub platform : Platform
platform = record {
  Affinity = Unit;
  Toleration = Unit;
  EnvFromSource = Unit;
  EnvVarSource = Unit;
  ResourceRequirements = Unit;
  OtherSource = Unit;
  ContainerRest = Unit;
  VolumeMountRest = Unit;
  PodSecurityRest = Unit;
  SecurityRest = Unit;
  NetworkPolicyPeer = Unit;
  OwnerReference = String;
  Quantity = String;
  quantity_is_zero = λ q. false;
  must_parse = λ s. s;
  sha256_hex = λ s. s;
  is_print = λ code. true;
}

abbrev pub default_spec : TlnDbSpec platform
default_spec = record {
  mode = "";
  replication = record { read_replicas = pos 0; oplog_retention = pos 0 };
  image = record { repository = ""; tag = ""; digest = ""; pull_policy = ""; pull_secrets = [] };
  replicas = none;
  config = record { db_path = ""; tcp = ""; http = ""; socket = ""; extra_config = "" };
  config_from = none;
  env = [];
  env_from = [];
  resources = tt;
  storage = record {
    persistence = record {
      enabled = none;
      size = "10Gi";
      storage_class_name = none;
      access_modes = [];
      existing_claim = "";
    };
  };
  networking = record {
    service = record { service_type = ""; annotations = []; labels = [] };
    ingress = record {
      enabled = false;
      class_name = none;
      host = "";
      path = "";
      tls_secret_name = "";
      annotations = [];
    };
    network_policy = record { enabled = true; ingress_rules = []; egress_rules = [] };
  };
  security = record {
    pod_security_context = none;
    container_security_context = none;
    fs_group = none;
  };
  observability = record {
    metrics = record {
      enabled = none;
      port = pos 0;
      path = "";
      service_monitor = record { enabled = false; interval = ""; labels = [] };
    };
    health = record { initial_delay_seconds = pos 0; startup_timeout_seconds = pos 30 };
  };
  availability = record {
    pod_disruption_budget = record {
      enabled = false;
      min_available = none;
      max_unavailable = none;
    };
    horizontal_pod_autoscaler = record {
      enabled = false;
      min_replicas = none;
      max_replicas = pos 0;
      cpu_utilization = none;
      memory_utilization = none;
    };
  };
  node_selector = [];
  tolerations = [];
  affinity = none;
  pod_annotations = [];
  service_account_name = "";
  init_containers = [];
  additional_containers = [];
  additional_volumes = [];
  additional_volume_mounts = [];
}

abbrev pub new_status : TlnDbStatus
new_status = record {
  phase = "";
  conditions = [];
  observed_generation = pos 0;
  ready_replicas = pos 0;
  current_image = "";
  managed_resources = [];
  last_update_time = none;
}

-- A standalone instance, just created.
abbrev pub standalone : TlnDb platform
standalone = record {
  meta = object_meta "orders" "shop" [];
  spec = default_spec;
  status = new_status;
}

-- A leader with two followers.
abbrev pub with_followers : TlnDb platform
with_followers = record standalone {
  spec = record default_spec {
    mode = "replicated";
    replication = record { read_replicas = pos 2; oplog_retention = pos 1000 };
  };
}
