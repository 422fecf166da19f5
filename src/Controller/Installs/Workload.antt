-- ===== src/Controller/Installs/Workload.antt =====
-- internal/controller/tlndb_controller.go: the configuration, the StatefulSets and the Services that
-- are created where nothing is found.
use talon_db_k8s_operator.Base.{◌≡◌, refl, ap, ◌∙◌, none, [], ◌∷◌, ◌++◌, ◌==◌}
use talon_db_k8s_operator.Base.Int.{pos, ltb_ℤ}
use talon_db_k8s_operator.Kube.{Platform}
use talon_db_k8s_operator.Api.{TlnDb}
use talon_db_k8s_operator.Resources.Hash.{hash_string_data}
use talon_db_k8s_operator.Resources.ConfigMap.{build_config_map}
use talon_db_k8s_operator.Resources.StatefulSet.{
  build_stateful_set, build_stateful_set_with, build_leader_stateful_set,
  build_follower_stateful_set,
}
use talon_db_k8s_operator.Resources.Service.{build_service, build_write_service, build_read_service}
use talon_db_k8s_operator.Controller.Environment.{Runtime}
use talon_db_k8s_operator.Controller.Provision.{
  leader_address, reconcile_config, reconcile_followers, reconcile_replicated, reconcile_standalone,
  reconcile_workload,
}
use talon_db_k8s_operator.Controller.Installs.{
  Makes-if_else, Makes-same, Makes-names, Makes-either, Makes, Any, Makes-pure, Makes-then,
  Makes-with_instance, Makes-wrapping,
}
use talon_db_k8s_operator.Controller.Installs.EmptyServer.{Empty}
use talon_db_k8s_operator.Controller.Installs.Reads.{
  same-Reads, build_config_map-Reads, build_write_service-Reads, build_read_service-Reads,
  build_service-Reads, build_stateful_set-Reads, build_leader_stateful_set-Reads,
  build_follower_stateful_set-Reads,
}
use talon_db_k8s_operator.Controller.Installs.Helpers.{
  create_or_update_config_map-Makes, create_or_update_stateful_set-Makes,
  create_or_update_service-Makes, delete_stateful_set_if_exists-Makes, set_condition-Makes,
}
use talon_db_k8s_operator.Controller.Installs.Table.{
  owned_config_map, owned_stateful_set, owned_service, config_made, config_hash, followers_made,
  replicated_made, standalone_made, workload_made,
}

module _ {K : Platform} {R : Runtime K} {inst : TlnDb K} (E : Empty R inst) where
  pub reconcile_config-Makes :
      inst.spec.config_from ≡ none
      → Makes E (λ (hash, names). hash ≡ config_hash E) (config_made E) (reconcile_config R)
  unfolding reconcile_config build_config_map
  reconcile_config-Makes own = Makes-with_instance λ i same.
      let absent : i.spec.config_from ≡ none = ap (λ spec. spec.config_from) same.spec ∙ own in
      let config = same-Reads build_config_map-Reads same in
      rw absent (
        Makes-same (ap (λ x. owned_config_map E x ∷ []) config) (
          Makes-then
            (Makes-wrapping _
              (create_or_update_config_map-Makes E (build_config_map i) same.namespace refl))
            λ _.
              Makes-then (set_condition-Makes E _ _ _ _)
                λ _. Makes-pure _ (ap (λ x. hash_string_data K x.entries) config)))

  reconcile_standalone-Makes :
      Makes E Any (standalone_made E) (reconcile_standalone R (config_hash E))
  unfolding reconcile_standalone build_stateful_set build_service build_stateful_set_with
  reconcile_standalone-Makes = Makes-with_instance λ i same.
      let sts = same-Reads (build_stateful_set-Reads (config_hash E)) same in
      let svc = same-Reads build_service-Reads same in
      Makes-same (λ j. owned_stateful_set E (sts j) ∷ owned_service E (svc j) ∷ [])
        (Makes-then
          (Makes-wrapping _ (
            create_or_update_stateful_set-Makes E (build_stateful_set i (config_hash E))
              same.namespace refl))
          λ _.
            Makes-then
              (Makes-wrapping _
                (create_or_update_service-Makes E (build_service i) same.namespace refl))
              λ _. Makes-names _ (set_condition-Makes E _ _ _ _))

  reconcile_followers-Makes : Makes E Any (followers_made E) (reconcile_followers R (config_hash E))
  unfolding reconcile_followers build_follower_stateful_set build_stateful_set_with
  reconcile_followers-Makes = Makes-with_instance λ i same.
      let followers = same-Reads (build_follower_stateful_set-Reads (config_hash E)) same in
      Makes-if_else _ _ (ap (λ spec. ltb_ℤ (pos 0) spec.replication.read_replicas) same.spec)
        (Makes-same (ap (λ x. owned_stateful_set E x ∷ []) followers) (
          Makes-names _ (
            Makes-wrapping _ (
              create_or_update_stateful_set-Makes E
                (build_follower_stateful_set i (config_hash E) (leader_address i)
                  i.spec.replication.read_replicas i.spec.replication.oplog_retention)
                same.namespace refl))))
        (Makes-names _ (Makes-wrapping _ (delete_stateful_set_if_exists-Makes E _ _)))

  reconcile_replicated-Makes :
      Makes E Any (replicated_made E) (reconcile_replicated R (config_hash E))
  unfolding reconcile_replicated build_leader_stateful_set build_stateful_set_with
      build_write_service build_read_service
  reconcile_replicated-Makes = Makes-with_instance λ i same.
      let leader = same-Reads (build_leader_stateful_set-Reads (config_hash E)) same in
      Makes-same
        (λ j.
          owned_stateful_set E (leader j)
          ∷ (followers_made E
              ++ (owned_service E (build_write_service inst)
                  ∷ owned_service E (build_read_service inst)
                  ∷ [])))
        (Makes-then
          (Makes-wrapping _ (
            create_or_update_stateful_set-Makes E
              (build_leader_stateful_set i (config_hash E) i.spec.replication.oplog_retention)
              same.namespace refl))
          λ _. Makes-then reconcile_followers-Makes λ followers. Makes-with_instance λ later same'.
            let write = same-Reads build_write_service-Reads same' in
            let read = same-Reads build_read_service-Reads same' in
            Makes-same (λ j. owned_service E (write j) ∷ owned_service E (read j) ∷ [])
              (Makes-then
                (Makes-wrapping _ (
                  create_or_update_service-Makes E (build_write_service later) same'.namespace
                    refl))
                λ _.
                  Makes-then
                    (Makes-wrapping _ (
                      create_or_update_service-Makes E (build_read_service later) same'.namespace
                        refl))
                    λ _. Makes-names _ (set_condition-Makes E _ _ _ _)))

  pub reconcile_workload-Makes :
      Makes E Any (workload_made E) (reconcile_workload R (config_hash E))
  unfolding reconcile_workload
  reconcile_workload-Makes = Makes-with_instance λ i same.
      Makes-either _ _ (ap (λ spec. spec.mode == "replicated") same.spec) reconcile_replicated-Makes
        reconcile_standalone-Makes
