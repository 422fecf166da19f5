-- ===== src/Resources/Common.antt =====
-- internal/resources/common.go: names, labels, the image reference and ports.
pub mod Ports
use talon_db_k8s_operator.Base.{
  String, ◌<>◌, Bool, true, Option, none, some, [], ◌∷◌, ◌==◌, if◌then◌else◌,
}
use talon_db_k8s_operator.Base.Int.{ℤ, pos, ltb_ℤ, leb_ℤ}
use talon_db_k8s_operator.Base.Dict.{Dict, insert, insert_all}
use talon_db_k8s_operator.Base.Decimal.{parse_int32}
use talon_db_k8s_operator.Base.Lines.{after_last_colon}
use talon_db_k8s_operator.Kube.{Platform}
use talon_db_k8s_operator.Api.{ImageSpec, TlnDb}

abbrev pub default_image : String
default_image = "ghcr.io/opentalon/tln-db"

abbrev pub default_tag : String
default_tag = "latest"

abbrev pub managed_by_label : String
managed_by_label = "tln-db-operator"

abbrev pub finalizer_name : String
finalizer_name = "db.tlndb.io/finalizer"

abbrev pub config_hash_annotation : String
config_hash_annotation = "db.tlndb.io/config-hash"

abbrev pub config_volume_name : String
config_volume_name = "config"

abbrev pub config_mount_path : String
config_mount_path = "/etc/tlndb"

abbrev pub config_file_name : String
config_file_name = "config.yaml"

abbrev pub data_volume_name : String
data_volume_name = "data"

abbrev pub data_mount_path : String
data_mount_path = "/data"

abbrev pub default_grpc_port : ℤ
default_grpc_port = pos 9899

abbrev pub default_http_port : ℤ
default_http_port = pos 8080

abbrev pub default_metrics_port : ℤ
default_metrics_port = pos 9090

abbrev pub role_label_key : String
role_label_key = "db.tlndb.io/role"

abbrev pub role_standalone : String
role_standalone = "standalone"

abbrev pub role_leader : String
role_leader = "leader"

abbrev pub role_follower : String
role_follower = "follower"

-- A value that the user may leave empty, with its default.
abbrev pub or_default : String → String → String
or_default given default = if given == "" then default else given

-- `e == nil || *e`
abbrev pub enabled_or_default : Option Bool → Bool
enabled_or_default none = true
enabled_or_default (some b) = b

module _ {K : Platform} where
  abbrev pub resource_name : TlnDb K → String
  resource_name inst = inst.meta.name

  abbrev pub config_map_name : TlnDb K → String
  config_map_name inst = inst.meta.name <> "-config"

  abbrev pub headless_service_name : TlnDb K → String
  headless_service_name inst = inst.meta.name <> "-headless"

  abbrev pub leader_stateful_set_name : TlnDb K → String
  leader_stateful_set_name inst = inst.meta.name <> "-leader"

  abbrev pub follower_stateful_set_name : TlnDb K → String
  follower_stateful_set_name inst = inst.meta.name <> "-follower"

  abbrev pub read_service_name : TlnDb K → String
  read_service_name inst = inst.meta.name <> "-read"

  unfoldable pub labels : TlnDb K → Dict String
  labels inst =
      ("app.kubernetes.io/name", "tln-db")
      ∷ ("app.kubernetes.io/instance", inst.meta.name)
      ∷ ("app.kubernetes.io/component", "database")
      ∷ ("app.kubernetes.io/part-of", "tln-db")
      ∷ ("app.kubernetes.io/managed-by", managed_by_label)
      ∷ []

  unfoldable pub selector_labels : TlnDb K → Dict String
  selector_labels inst =
      ("app.kubernetes.io/name", "tln-db") ∷ ("app.kubernetes.io/instance", inst.meta.name) ∷ []

  unfoldable pub role_selector : TlnDb K → String → Dict String
  unfolding selector_labels insert
  role_selector inst role = insert role_label_key role (selector_labels inst)

  abbrev pub replicated : TlnDb K → Bool
  replicated inst = inst.spec.mode == "replicated"

  abbrev pub metrics_enabled : TlnDb K → Bool
  metrics_enabled inst = enabled_or_default inst.spec.observability.metrics.enabled

  unfoldable pub metrics_port : TlnDb K → ℤ
  metrics_port inst =
      let p = inst.spec.observability.metrics.port in
      if ltb_ℤ (pos 0) p then p else default_metrics_port

unfoldable pub with_role : Dict String → String → Dict String
unfolding insert_all insert
with_role base role = insert role_label_key role (insert_all base [])

unfoldable pub image_ref : ImageSpec → String
image_ref spec =
    let repo = or_default spec.repository default_image in
    if spec.digest == ""
    then repo <> ":" <> or_default spec.tag default_tag
    else repo <> "@" <> spec.digest

-- The last test of `PortFromAddr`: the number that was read, if any, as a port.
abbrev port_or : ℤ → Option ℤ → ℤ
port_or default none = default
port_or default (some p) =
    if leb_ℤ p (pos 0) then default else if ltb_ℤ (pos 65535) p then default else p

abbrev port_of : ℤ → Option String → ℤ
port_of default none = default
port_of default (some digits) = port_or default (parse_int32 digits)

unfoldable pub port_from_addr : String → ℤ → ℤ
unfolding after_last_colon parse_int32
port_from_addr addr default =
    if addr == "" then default else port_of default (after_last_colon addr)
