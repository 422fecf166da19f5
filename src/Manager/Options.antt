-- ===== src/Manager/Options.antt =====
-- cmd/main.go: the flags, and the options of the manager that they give. `flag.Parse` is the
-- standard library's: the options are a function of the flags that it leaves.
use talon_db_k8s_operator.Base.{ℕ, String, Bool, true, false, List, [], ◌∷◌, ◌==◌, if◌then◌else◌}

pub record Flags : Type 0 where
  pub metrics_bind_address : String
  pub health_probe_bind_address : String
  pub leader_elect : Bool
  pub metrics_secure : Bool
  pub enable_http2 : Bool

-- The defaults of the flags
abbrev pub default_flags : Flags
default_flags = record {
  metrics_bind_address = "0";
  health_probe_bind_address = ":8081";
  leader_elect = false;
  metrics_secure = true;
  enable_http2 = false;
}

-- The fields of `tls.Config` that the program sets
pub record TlsConfig : Type 0 where
  pub next_protos : List String
  pub min_version : ℕ

-- `tls.VersionTLS12`
abbrev pub version_tls12 : ℕ
version_tls12 = 0x0303

abbrev pub disable_http2 : TlsConfig → TlsConfig
disable_http2 config = record config { next_protos = "http/1.1" ∷ []; min_version = version_tls12 }

unfoldable pub tls_opts : Flags → List (TlsConfig → TlsConfig)
tls_opts flags = if flags.enable_http2 then [] else disable_http2 ∷ []

-- The namespace of the environment variable, which reads as the empty text where it is not set.
abbrev pub operator_namespace : String → String
operator_namespace given = if given == "" then "tln-db-operator-system" else given

-- `ctrl.Options`, with the options of the metrics and the webhook server in it
pub record ManagerOptions : Type 0 where
  pub metrics_bind_address : String
  pub metrics_secure_serving : Bool
  pub metrics_tls_opts : List (TlsConfig → TlsConfig)
  pub webhook_tls_opts : List (TlsConfig → TlsConfig)
  pub health_probe_bind_address : String
  pub leader_election : Bool
  pub leader_election_id : String
  pub leader_election_namespace : String
  pub leader_election_release_on_cancel : Bool

unfoldable pub manager_options : Flags → String → ManagerOptions
unfolding tls_opts
manager_options flags namespace_given = record {
  metrics_bind_address = flags.metrics_bind_address;
  metrics_secure_serving = flags.metrics_secure;
  metrics_tls_opts = tls_opts flags;
  webhook_tls_opts = tls_opts flags;
  health_probe_bind_address = flags.health_probe_bind_address;
  leader_election = flags.leader_elect;
  leader_election_id = "tlndb-operator-leader.db.tlndb.io";
  leader_election_namespace = operator_namespace namespace_given;
  leader_election_release_on_cancel = true;
}
