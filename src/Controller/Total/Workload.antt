-- ===== src/Controller/Total/Workload.antt =====
-- internal/controller/tlndb_controller.go: on a healthy server the configuration, the StatefulSets
-- and the Services are provisioned, with the names of what the instance asks for.
use talon_db_k8s_operator.Base.{String, ◌<>◌, ◌≡◌, refl, ap, sym, ◌∙◌, false, some, [], ◌∷◌}
use talon_db_k8s_operator.Base.Int.{ltb_ℤ, pos}
use talon_db_k8s_operator.Kube.{Platform, ConfigMap}
use talon_db_k8s_operator.Api.{TlnDb}
use talon_db_k8s_operator.Resources.Common.{replicated}
use talon_db_k8s_operator.Resources.ConfigMap.{build_config_map}
use talon_db_k8s_operator.Resources.StatefulSet.{
  build_stateful_set, build_stateful_set_with, build_leader_stateful_set,
  build_follower_stateful_set,
}
use talon_db_k8s_operator.Resources.Service.{build_service, build_write_service, build_read_service}
use talon_db_k8s_operator.Controller.Exec.{Result, ok}
use talon_db_k8s_operator.Controller.Environment.{Runtime}
use talon_db_k8s_operator.Controller.Provision.{
  leader_address, external_hash, reconcile_config, reconcile_followers, reconcile_replicated,
  reconcile_standalone,
}
use talon_db_k8s_operator.Controller.Managed.{
  listed, unless_given, config_names, follower_names, replicated_names, workload_names,
}
use talon_db_k8s_operator.Controller.Total.{
  Yields, Succeeds, Yields-with_instance, Yields-bind, Yields-then, Yields-pure, Yields-if,
  Yields-attempt, Yields-when_found, Yields-names,
}
use talon_db_k8s_operator.Controller.Total.Steps.{Succeeds-wrapping, Succeeds-call, Succeeds-pure}
use talon_db_k8s_operator.Controller.Total.Healthy.{Healthy, Answers}
use talon_db_k8s_operator.Controller.Total.Status.{set_condition-Succeeds}
use talon_db_k8s_operator.Controller.Total.Apply.{
  create_or_update_config_map-Succeeds, create_or_update_stateful_set-Succeeds,
  create_or_update_service-Succeeds, delete_stateful_set_if_exists-Succeeds,
}

-- The ConfigMap that an instance refers to can be read.
abbrev pub ExternalConfigFound : {K : Platform} → Runtime K → TlnDb K → Type 0
ExternalConfigFound R inst =
    (name : String)
    → inst.spec.config_from ≡ some name
    → Answers (R.config_maps.get (record { namespace = inst.meta.namespace; name = name }))

module _ {K : Platform} {R : Runtime K} (healthy : Healthy R) {inst : TlnDb K} where
  external_hash-Succeeds :
      (name : String) (answer : Result (ConfigMap K)) (external : ConfigMap K)
      → answer ≡ ok external
      → Succeeds R inst (external_hash R name answer)
  external_hash-Succeeds name answer external e =
      rw e (Yields-then (set_condition-Succeeds healthy _ _ _ _) λ _. Succeeds-pure _)

  pub reconcile_config-Yields :
      ExternalConfigFound R inst
      → Yields R inst (λ (hash, names). names ≡ config_names inst) (reconcile_config R)
  unfolding reconcile_config build_config_map
  reconcile_config-Yields found = Yields-with_instance λ inst' same.
      Yields-when_found _
        (λ absent.
          Yields-then
            (Succeeds-wrapping _ (
              create_or_update_config_map-Succeeds healthy (build_config_map inst') same.namespace
                refl))
            λ _. Yields-then (set_condition-Succeeds healthy _ _ _ _) λ _. Yields-pure _ (
              ap (λ name. ("ConfigMap/" <> (name <> "-config")) ∷ []) same.name
              ∙ ap
                  (λ given.
                    unless_given given (("ConfigMap/" <> (inst.meta.name <> "-config")) ∷ []))
                  (sym absent ∙ ap (λ spec. spec.config_from) same.spec)))
        (λ name given.
          Yields-bind
            (Yields-attempt (
              Succeeds-call (
                rw same.namespace
                  (found name (ap (λ spec. spec.config_from) (sym same.spec) ∙ given)))))
            λ answer (external, e, _).
              Yields-then (external_hash-Succeeds name answer external e) λ hash. Yields-pure _ (
                ap
                  (λ given.
                    unless_given given (("ConfigMap/" <> (inst.meta.name <> "-config")) ∷ []))
                  (sym given ∙ ap (λ spec. spec.config_from) same.spec)))

  pub reconcile_standalone-Yields :
      (hash : String)
      → replicated inst ≡ false
      → Yields R inst (λ got. got ≡ workload_names inst) (reconcile_standalone R hash)
  unfolding reconcile_standalone build_stateful_set build_service build_stateful_set_with
  reconcile_standalone-Yields hash alone = Yields-with_instance λ inst' same.
      Yields-then
        (Succeeds-wrapping _ (
          create_or_update_stateful_set-Succeeds healthy (build_stateful_set inst' hash)
            same.namespace refl))
        λ _.
          Yields-then
            (Succeeds-wrapping _
              (create_or_update_service-Succeeds healthy (build_service inst') same.namespace refl))
            λ _. Yields-names (set_condition-Succeeds healthy _ _ _ _) (
              rw alone
                (ap (λ name. ("StatefulSet/" <> name) ∷ ("Service/" <> name) ∷ []) same.name))

  reconcile_followers-Yields :
      (hash : String)
      → Yields R inst (λ got. got ≡ follower_names inst) (reconcile_followers R hash)
  unfolding reconcile_followers build_follower_stateful_set build_stateful_set_with
  reconcile_followers-Yields hash = Yields-with_instance λ inst' same.
      let wanted = ap (λ spec. ltb_ℤ (pos 0) spec.replication.read_replicas) same.spec in
      Yields-if _
        (λ some_wanted.
          Yields-names
            (Succeeds-wrapping _ (
              create_or_update_stateful_set-Succeeds healthy
                (build_follower_stateful_set inst' hash (leader_address inst')
                  inst'.spec.replication.read_replicas inst'.spec.replication.oplog_retention)
                same.namespace refl))
            (ap (λ name. ("StatefulSet/" <> (name <> "-follower")) ∷ []) same.name
              ∙ ap (λ b. listed b (("StatefulSet/" <> (inst.meta.name <> "-follower")) ∷ []))
                  (sym some_wanted ∙ wanted)))
        (λ none_wanted.
          Yields-names (Succeeds-wrapping _ (delete_stateful_set_if_exists-Succeeds healthy _ _)) (
            ap (λ b. listed b (("StatefulSet/" <> (inst.meta.name <> "-follower")) ∷ []))
              (sym none_wanted ∙ wanted)))

  pub reconcile_replicated-Yields :
      (hash : String)
      → Yields R inst (λ got. got ≡ replicated_names inst) (reconcile_replicated R hash)
  unfolding reconcile_replicated build_leader_stateful_set build_stateful_set_with
      build_write_service build_read_service
  reconcile_replicated-Yields hash = Yields-with_instance λ inst' same.
      Yields-then
        (Succeeds-wrapping _ (
          create_or_update_stateful_set-Succeeds healthy
            (build_leader_stateful_set inst' hash inst'.spec.replication.oplog_retention)
            same.namespace refl))
        λ _. Yields-bind (reconcile_followers-Yields hash) λ followers e.
          Yields-with_instance λ later same'.
            Yields-then
              (Succeeds-wrapping _ (
                create_or_update_service-Succeeds healthy (build_write_service later)
                  same'.namespace refl))
              λ _.
                Yields-then
                  (Succeeds-wrapping _ (
                    create_or_update_service-Succeeds healthy (build_read_service later)
                      same'.namespace refl))
                  λ _.
                    Yields-names (set_condition-Succeeds healthy _ _ _ _)
                      (rw (e, same.name, same'.name) refl)
