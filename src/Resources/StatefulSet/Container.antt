-- ===== src/Resources/StatefulSet/Container.antt =====
-- internal/resources/statefulset.go: the main container, its probes and security contexts.
use talon_db_k8s_operator.Base.{
  ℕ, ◌/◌, String, ◌<>◌, Bool, true, false, none, some, List, [], ◌∷◌, ◌++◌, ltb, if◌then◌else◌,
}
use talon_db_k8s_operator.Base.Int.{ℤ, pos, pos_part, leb_ℤ}
use talon_db_k8s_operator.Kube.{
  Platform, EnvVar, Container, ContainerPort, HttpGetAction, Probe, PodSecurityContext,
  SecurityContext, from_int,
}
use talon_db_k8s_operator.Api.{TlnDb}
use talon_db_k8s_operator.Resources.Common.{
  config_volume_name, config_mount_path, config_file_name, data_volume_name, data_mount_path,
  default_grpc_port, default_http_port, port_from_addr, metrics_enabled, metrics_port, image_ref,
}

abbrev container_name : String
container_name = "tlndb"

abbrev default_fs_group : ℤ
default_fs_group = pos 65532

abbrev startup_period : ℕ
startup_period = 5

-- `failures := timeout / period`, and at least 1; the timeout is positive here.
unfoldable pub startup_failures : ℤ → ℕ
startup_failures timeout =
    let failures = pos_part timeout / startup_period in if ltb failures 1 then 1 else failures

-- A field that is used if it is positive, with its default.
abbrev positive_or : ℤ → ℤ → ℤ
positive_or default given = if leb_ℤ given (pos 0) then default else given

module _ {K : Platform} where
  unfoldable pub build_probe : TlnDb K → ℤ → Bool → Probe
  unfolding startup_failures
  build_probe inst http_port startup =
      let handler : HttpGetAction = record { path = "/v1/health"; port = from_int http_port } in
      let health = inst.spec.observability.health in
      if startup
      then record {
        http_get = handler;
        initial_delay_seconds = pos 0;
        period_seconds = pos startup_period;
        timeout_seconds = pos 3;
        failure_threshold =
            pos (startup_failures (positive_or (pos 600) health.startup_timeout_seconds));
      }
      else record {
        http_get = handler;
        initial_delay_seconds = positive_or (pos 10) health.initial_delay_seconds;
        period_seconds = pos 10;
        timeout_seconds = pos 3;
        failure_threshold = pos 3;
      }

  -- A pod-level context of the user's replaces the default one whole.
  unfoldable pub build_pod_security_context : TlnDb K → PodSecurityContext K
  build_pod_security_context inst =
      let security = inst.spec.security in
      elim security.pod_security_context [
        | some given ↦ given
        | none ↦ record {
          run_as_non_root = some true;
          fs_group = elim security.fs_group [
            | none ↦ some default_fs_group
            | some group ↦ some group
          ];
          seccomp_profile_type = some "RuntimeDefault";
          other = none;
        }
      ]

  unfoldable pub build_container_security_context : TlnDb K → SecurityContext K
  build_container_security_context inst = elim inst.spec.security.container_security_context [
    | some given ↦ given
    | none ↦ record {
      run_as_non_root = some true;
      allow_privilege_escalation = some false;
      read_only_root_filesystem = some true;
      drop_capabilities = "ALL" ∷ [];
      other = none;
    }
  ]

  unfoldable pub container_ports : TlnDb K → List ContainerPort
  unfolding port_from_addr metrics_port
  container_ports inst =
      let http_port = port_from_addr inst.spec.config.http default_http_port in
      let grpc_port = port_from_addr inst.spec.config.tcp default_grpc_port in
      record { name = "grpc"; container_port = grpc_port; protocol = "TCP" }
      ∷ record { name = "http"; container_port = http_port; protocol = "TCP" }
      ∷ (if metrics_enabled inst
          then record { name = "metrics"; container_port = metrics_port inst; protocol = "TCP" }
            ∷ []
          else [])

  unfoldable pub build_main_container : TlnDb K → List (EnvVar K) → Container K
  unfolding container_ports build_probe build_container_security_context image_ref
  build_main_container inst extra_env =
      let http_port = port_from_addr inst.spec.config.http default_http_port in
      record {
        name = container_name;
        image = image_ref inst.spec.image;
        image_pull_policy = inst.spec.image.pull_policy;
        args = "--config" ∷ (config_mount_path <> "/" <> config_file_name) ∷ [];
        ports = container_ports inst;
        env = inst.spec.env ++ extra_env;
        env_from = inst.spec.env_from;
        resources = inst.spec.resources;
        volume_mounts =
            record {
              name = config_volume_name;
              mount_path = config_mount_path;
              read_only = true;
              other = none;
            }
            ∷ record {
              name = data_volume_name;
              mount_path = data_mount_path;
              read_only = false;
              other = none;
            }
            ∷ inst.spec.additional_volume_mounts;
        security_context = some (build_container_security_context inst);
        liveness_probe = some (build_probe inst http_port false);
        readiness_probe = some (build_probe inst http_port false);
        startup_probe = some (build_probe inst http_port true);
        other = none;
      }

  unfoldable pub build_containers : TlnDb K → List (EnvVar K) → List (Container K)
  unfolding build_main_container
  build_containers inst extra_env =
      build_main_container inst extra_env ∷ inst.spec.additional_containers
