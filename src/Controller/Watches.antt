-- ===== src/Controller/Watches.antt =====
-- internal/controller/tlndb_controller.go: `SetupWithManager`. The builder of controller-runtime is
-- a parameter: it gets the kinds that the source names.
pub mod Covers
use talon_db_k8s_operator.Base.{String, List, [], ◌∷◌}
use talon_db_k8s_operator.Api.{GroupVersion, group_version}
use talon_db_k8s_operator.Controller.Exec.{Exec}

-- The kind of a Go type, as its scheme knows it.
pub record GroupVersionKind : Type 0 where
  pub group_version : GroupVersion
  pub kind : String

-- `For` and `Owns` of the builder
pub record ControllerWatches : Type 0 where
  pub for_kind : GroupVersionKind
  pub owned_kinds : List GroupVersionKind

abbrev pub kind_of : String → String → String → GroupVersionKind
kind_of group version kind = record {
  group_version = record { group = group; version = version };
  kind = kind;
}

abbrev pub controller_watches : ControllerWatches
controller_watches = record {
  for_kind = record { group_version = group_version; kind = "TlnDB" };
  owned_kinds =
      kind_of "apps" "v1" "StatefulSet"
      ∷ kind_of "" "v1" "Service"
      ∷ kind_of "" "v1" "ConfigMap"
      ∷ kind_of "" "v1" "ServiceAccount"
      ∷ kind_of "rbac.authorization.k8s.io" "v1" "Role"
      ∷ kind_of "rbac.authorization.k8s.io" "v1" "RoleBinding"
      ∷ kind_of "networking.k8s.io" "v1" "Ingress"
      ∷ kind_of "networking.k8s.io" "v1" "NetworkPolicy"
      ∷ kind_of "policy" "v1" "PodDisruptionBudget"
      ∷ kind_of "autoscaling" "v2" "HorizontalPodAutoscaler"
      ∷ [];
}

-- `complete` is `Complete(r)` of the builder for the manager.
unfoldable pub setup_with_manager : {W : Type 0} → (ControllerWatches → Exec W Unit) → Exec W Unit
setup_with_manager complete = complete controller_watches
