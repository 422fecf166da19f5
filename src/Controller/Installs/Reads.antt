-- ===== src/Controller/Installs/Reads.antt =====
-- internal/resources: the builders read nothing of an instance but its specification, its name and
-- its namespace, so that they build the same objects after a write of the status.
use talon_db_k8s_operator.Base.{String, none, ◌≡◌, refl, sym, ◌∙◌, []}
use talon_db_k8s_operator.Base.Int.{pos}
use talon_db_k8s_operator.Kube.{Platform, object_meta}
use talon_db_k8s_operator.Api.{TlnDbSpec, TlnDbStatus, TlnDb}
use talon_db_k8s_operator.Resources.Common.{labels, selector_labels, role_selector, metrics_port}
use talon_db_k8s_operator.Resources.ConfigMap.{build_config_map, render_config_yaml, config_line}
use talon_db_k8s_operator.Resources.StatefulSet.{
  pod_annotations, build_stateful_set, build_stateful_set_with, build_leader_stateful_set,
  build_follower_stateful_set,
}
use talon_db_k8s_operator.Resources.StatefulSet.Container.{
  build_probe, build_pod_security_context, build_container_security_context, container_ports,
  build_main_container, build_containers,
}
use talon_db_k8s_operator.Resources.StatefulSet.Volumes.{
  data_volumes, build_volumes, build_volume_claim_template,
}
use talon_db_k8s_operator.Resources.Service.{
  build_service, build_write_service, build_read_service, build_headless_service, service_with,
  build_service_ports,
}
use talon_db_k8s_operator.Resources.Ingress.{build_ingress}
use talon_db_k8s_operator.Resources.NetworkPolicy.{build_network_policy}
use talon_db_k8s_operator.Resources.Rbac.{build_service_account, build_role, build_role_binding}
use talon_db_k8s_operator.Resources.ServiceMonitor.{build_service_monitor}
use talon_db_k8s_operator.Resources.Pdb.{build_pdb}
use talon_db_k8s_operator.Resources.Hpa.{build_hpa}
use talon_db_k8s_operator.Controller.Provision.{leader_address}
use talon_db_k8s_operator.Controller.Total.Healthy.{SameAs}

abbrev blank_status : TlnDbStatus
blank_status = record {
  phase = "";
  conditions = [];
  observed_generation = pos 0;
  ready_replicas = pos 0;
  current_image = "";
  managed_resources = [];
  last_update_time = none;
}

module _ {K : Platform} where
  -- The parts of an instance that a builder may read.
  abbrev bare : String → String → TlnDbSpec K → TlnDb K
  bare name namespace spec = record {
    meta = object_meta name namespace [];
    spec = spec;
    status = blank_status;
  }

  pub record Reads {A : Type 0} (build : TlnDb K → A) : Type 0 where
    pub at : (i : TlnDb K) → build i ≡ build (bare i.meta.name i.meta.namespace i.spec)

  pub same-Reads :
      {A : Type 0} {build : TlnDb K → A} {i i' : TlnDb K}
      → Reads build
      → SameAs i i'
      → build i' ≡ build i
  same-Reads {build} {i} {i'} reads same =
      reads.at i'
      ∙ (λ j. build (bare (same.name j) (same.namespace j) (same.spec j)))
      ∙ sym (reads.at i)

  pub build_service_account-Reads : Reads (build_service_account {K = K})
  unfolding build_service_account labels
  build_service_account-Reads = record { at = λ i. refl }

  pub build_role-Reads : Reads (build_role {K = K})
  unfolding build_role labels
  build_role-Reads = record { at = λ i. refl }

  pub build_role_binding-Reads : Reads (build_role_binding {K = K})
  unfolding build_role_binding labels
  build_role_binding-Reads = record { at = λ i. refl }

  pub build_config_map-Reads : Reads (build_config_map {K = K})
  unfolding build_config_map labels render_config_yaml config_line metrics_port
  build_config_map-Reads = record { at = λ i. refl }

  pub build_headless_service-Reads : Reads (build_headless_service {K = K})
  unfolding build_headless_service labels selector_labels build_service_ports metrics_port
  build_headless_service-Reads = record { at = λ i. refl }

  pub build_write_service-Reads : Reads (build_write_service {K = K})
  unfolding build_write_service service_with labels selector_labels role_selector
      build_service_ports metrics_port
  build_write_service-Reads = record { at = λ i. refl }

  pub build_read_service-Reads : Reads (build_read_service {K = K})
  unfolding build_read_service service_with labels selector_labels role_selector build_service_ports
      metrics_port
  build_read_service-Reads = record { at = λ i. refl }

  pub build_service-Reads : Reads (build_service {K = K})
  unfolding build_service service_with labels selector_labels build_service_ports metrics_port
  build_service-Reads = record { at = λ i. refl }

  pub build_ingress-Reads : Reads (build_ingress {K = K})
  unfolding build_ingress labels
  build_ingress-Reads = record { at = λ i. refl }

  pub build_network_policy-Reads : Reads (build_network_policy {K = K})
  unfolding build_network_policy labels selector_labels metrics_port
  build_network_policy-Reads = record { at = λ i. refl }

  pub build_service_monitor-Reads : Reads (build_service_monitor {K = K})
  unfolding build_service_monitor labels
  build_service_monitor-Reads = record { at = λ i. refl }

  pub build_pdb-Reads : Reads (build_pdb {K = K})
  unfolding build_pdb labels selector_labels
  build_pdb-Reads = record { at = λ i. refl }

  pub build_hpa-Reads : Reads (build_hpa {K = K})
  unfolding build_hpa labels
  build_hpa-Reads = record { at = λ i. refl }

  pub build_stateful_set-Reads :
      (hash : String) → Reads (λ (i : TlnDb K). build_stateful_set i hash)
  unfolding build_stateful_set build_stateful_set_with labels selector_labels role_selector
      pod_annotations build_containers build_main_container container_ports
      build_container_security_context build_pod_security_context build_probe build_volumes
      data_volumes build_volume_claim_template metrics_port
  build_stateful_set-Reads hash = record { at = λ i. refl }

  pub build_leader_stateful_set-Reads :
      (hash : String)
      → Reads (λ (i : TlnDb K). build_leader_stateful_set i hash i.spec.replication.oplog_retention)
  unfolding build_leader_stateful_set build_stateful_set_with labels selector_labels role_selector
      pod_annotations build_containers build_main_container container_ports
      build_container_security_context build_pod_security_context build_probe build_volumes
      data_volumes build_volume_claim_template metrics_port
  build_leader_stateful_set-Reads hash = record { at = λ i. refl }

  pub build_follower_stateful_set-Reads :
      (hash : String)
      → Reads (λ (i : TlnDb K).
        build_follower_stateful_set i hash
          (leader_address i)
          i.spec.replication.read_replicas
          i.spec.replication.oplog_retention)
  unfolding build_follower_stateful_set leader_address build_stateful_set_with labels
      selector_labels role_selector pod_annotations build_containers build_main_container
      container_ports build_container_security_context build_pod_security_context build_probe
      build_volumes data_volumes build_volume_claim_template metrics_port
  build_follower_stateful_set-Reads hash = record { at = λ i. refl }
