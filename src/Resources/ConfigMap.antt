-- ===== src/Resources/ConfigMap.antt =====
-- internal/resources/configmap.go
pub mod Lines
pub mod Rendered
use talon_db_k8s_operator.Base.{String, ◌<>◌, [], ◌∷◌, ◌==◌, if◌then◌else◌}
use talon_db_k8s_operator.Base.Int.{ℤ}
use talon_db_k8s_operator.Base.Decimal.{format_int}
use talon_db_k8s_operator.Base.Lines.{quote, trim_space}
use talon_db_k8s_operator.Kube.{Platform, ConfigMap, object_meta}
use talon_db_k8s_operator.Api.{TlnDb}
use talon_db_k8s_operator.Resources.Common.{
  config_file_name, data_mount_path, default_grpc_port, default_http_port, or_default,
  config_map_name, labels, metrics_enabled, metrics_port,
}

-- `:%d`
abbrev listen_on : ℤ → String
listen_on port = ":" <> format_int port

module _ {K : Platform} where
  -- `key: %q` and the end of the line
  unfoldable pub config_line : TlnDb K → String → String → String
  unfolding quote
  config_line inst key value = key <> ": " <> quote K.is_print value <> "\n"

  unfoldable pub render_config_yaml : TlnDb K → String
  unfolding config_line metrics_port trim_space
  render_config_yaml inst =
      let cfg = inst.spec.config in
      let db_path = or_default cfg.db_path (data_mount_path <> "/tlndb.bbolt") in
      let tcp = or_default cfg.tcp (listen_on default_grpc_port) in
      let http = or_default cfg.http (listen_on default_http_port) in
      let extra = trim_space cfg.extra_config in
      "# Rendered by tln-db-operator. Do not edit.\n"
      <> config_line inst "db" db_path
      <> config_line inst "tcp" tcp
      <> config_line inst "http" http
      <> (if cfg.socket == "" then "" else config_line inst "socket" cfg.socket)
      <> (if metrics_enabled inst
          then config_line inst "metrics" (listen_on (metrics_port inst))
          else "")
      <> (if extra == "" then "" else extra <> "\n")

  unfoldable pub build_config_map : TlnDb K → ConfigMap K
  unfolding labels render_config_yaml
  build_config_map inst = record {
    meta = object_meta (config_map_name inst) inst.meta.namespace (labels inst);
    entries = (config_file_name, render_config_yaml inst) ∷ [];
  }
