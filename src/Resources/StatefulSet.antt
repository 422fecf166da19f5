-- ===== src/Resources/StatefulSet.antt =====
-- internal/resources/statefulset.go: the StatefulSets of the three roles.
pub mod Container
pub mod Volumes
pub mod DataVolume
pub mod Probes
use talon_db_k8s_operator.Base.{
  String, Bool, true, false, Option, none, some, List, [], ◌∷◌, ◌++◌, ◌==◌, ◌&&◌, if◌then◌else◌,
}
use talon_db_k8s_operator.Base.Int.{ℤ, pos, leb_ℤ}
use talon_db_k8s_operator.Base.Dict.{Dict, insert_all}
use talon_db_k8s_operator.Base.Decimal.{format_int}
use talon_db_k8s_operator.Kube.{Platform, object_meta, EnvVar, StatefulSet}
use talon_db_k8s_operator.Api.{TlnDb}
use talon_db_k8s_operator.Resources.Common.{
  config_hash_annotation, role_standalone, role_leader, role_follower, resource_name,
  headless_service_name, leader_stateful_set_name, follower_stateful_set_name, labels,
  selector_labels, role_selector, with_role, or_default,
}
use Container.{build_containers, build_pod_security_context}
use Volumes.{persistence_enabled, build_volumes, build_volume_claim_template}

-- What differs between the roles.
pub record StsParams (K : Platform) : Type 0 where
  pub name : String
  pub role : String
  pub replicas : ℤ
  pub selector_role : Bool
  pub extra_env : List (EnvVar K)

-- `replicas := int32(1)`, and the value of a pointer that is not nil.
abbrev pub replicas_or_one : Option ℤ → ℤ
replicas_or_one none = pos 1
replicas_or_one (some n) = n

module _ {K : Platform} where
  abbrev env_var : String → String → EnvVar K
  env_var name value = record { name = name; value = value; value_from = none }

  abbrev pub service_account_name : TlnDb K → String
  service_account_name inst = or_default inst.spec.service_account_name (resource_name inst)

  -- The config hash; a pod annotation of the user's with the same key replaces it.
  unfoldable pub pod_annotations : TlnDb K → String → Dict String
  unfolding insert_all
  pod_annotations inst config_hash =
      insert_all inst.spec.pod_annotations ((config_hash_annotation, config_hash) ∷ [])

  unfoldable pub build_stateful_set_with : TlnDb K → String → StsParams K → StatefulSet K
  unfolding pod_annotations with_role labels role_selector selector_labels build_containers
      build_pod_security_context build_volumes build_volume_claim_template
  build_stateful_set_with inst config_hash p = record {
    meta = object_meta p.name inst.meta.namespace (with_role (labels inst) p.role);
    spec = record {
      replicas = some p.replicas;
      service_name = headless_service_name inst;
      pod_management_policy = "Parallel";
      selector = if p.selector_role then role_selector inst p.role else selector_labels inst;
      template = record {
        labels = with_role (labels inst) p.role;
        annotations = pod_annotations inst config_hash;
        spec = record {
          service_account_name = service_account_name inst;
          security_context = build_pod_security_context inst;
          image_pull_secrets = inst.spec.image.pull_secrets;
          node_selector = inst.spec.node_selector;
          tolerations = inst.spec.tolerations;
          affinity = inst.spec.affinity;
          init_containers = inst.spec.init_containers;
          containers = build_containers inst p.extra_env;
          volumes = build_volumes inst;
        };
      };
      volume_claim_templates =
          if persistence_enabled inst && inst.spec.storage.persistence.existing_claim == ""
          then build_volume_claim_template inst ∷ []
          else [];
    };
    status = record { observed_generation = pos 0; ready_replicas = pos 0 };
  }

  unfoldable pub build_stateful_set : TlnDb K → String → StatefulSet K
  unfolding build_stateful_set_with
  build_stateful_set inst config_hash = build_stateful_set_with inst config_hash (record {
    name = resource_name inst;
    role = role_standalone;
    replicas = replicas_or_one inst.spec.replicas;
    selector_role = false;
    extra_env = [];
  })

  unfoldable pub oplog_retention_env : ℤ → List (EnvVar K)
  unfolding format_int
  oplog_retention_env retention =
      if leb_ℤ retention (pos 0)
      then []
      else env_var "TLNDB_OPLOG_RETENTION" (format_int retention) ∷ []

  unfoldable pub build_leader_stateful_set : TlnDb K → String → ℤ → StatefulSet K
  unfolding build_stateful_set_with oplog_retention_env
  build_leader_stateful_set inst config_hash retention =
      build_stateful_set_with inst config_hash (record {
        name = leader_stateful_set_name inst;
        role = role_leader;
        replicas = pos 1;
        selector_role = true;
        extra_env = env_var "TLNDB_ROLE" role_leader ∷ oplog_retention_env retention;
      })

  unfoldable pub build_follower_stateful_set : TlnDb K → String → String → ℤ → ℤ → StatefulSet K
  unfolding build_stateful_set_with oplog_retention_env
  build_follower_stateful_set inst config_hash leader_addr replicas retention =
      build_stateful_set_with inst config_hash (record {
        name = follower_stateful_set_name inst;
        role = role_follower;
        replicas = replicas;
        selector_role = true;
        extra_env =
            env_var "TLNDB_ROLE" role_follower
            ∷ env_var "TLNDB_REPLICATE_FROM" leader_addr
            ∷ oplog_retention_env retention;
      })
