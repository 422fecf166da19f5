-- ===== src/Examples/Scaled.antt =====
-- A set that the autoscaler has scaled up, and the next reconciliation of it.
use talon_db_k8s_operator.Base.{◌≡◌, refl, true, some, [], ◌∷◌, string_dec}
use talon_db_k8s_operator.Base.Int.{pos}
use talon_db_k8s_operator.Kube.{StatefulSet, ObjectMeta}
use talon_db_k8s_operator.Api.{TlnDb}
use talon_db_k8s_operator.Resources.StatefulSet.{
  build_stateful_set, build_stateful_set_with, replicas_or_one,
}
use talon_db_k8s_operator.Controller.Exec.{ok}
use talon_db_k8s_operator.Controller.Environment.{Session}
use talon_db_k8s_operator.Controller.Apply.{
  key_of, stateful_set_needs_update, create_or_update_stateful_set,
}
use talon_db_k8s_operator.Controller.Calls.{steps}
use talon_db_k8s_operator.Controller.Converge.Scaled.{create_or_update_stateful_set-reverts}
use talon_db_k8s_operator.Examples.Fixture.{platform, standalone}
use talon_db_k8s_operator.Examples.Cluster.{in_memory}
use talon_db_k8s_operator.Examples.Quiet.{quiet_in_memory}

-- One pod, and up to five by the autoscaler
abbrev scaling : TlnDb platform
scaling = record standalone {
  spec = record standalone.spec {
    availability = record standalone.spec.availability {
      horizontal_pod_autoscaler = record standalone.spec.availability.horizontal_pod_autoscaler {
        enabled = true;
        max_replicas = pos 5;
      };
    };
  };
}

abbrev scaled_up : StatefulSet platform
scaled_up = record (build_stateful_set scaling "h") {
  spec = record (build_stateful_set scaling "h").spec { replicas = some (pos 3) };
}

abbrev busy : Session in_memory
busy = record {
  world = record { instance_stored = scaling; sets = scaled_up ∷ []; services = [] };
  instance_in_memory = scaling;
  events = [];
}

abbrev owned_by_orders : ObjectMeta platform
owned_by_orders = record (build_stateful_set scaling "h").meta { owner_references = "orders" ∷ [] }

scaled_down_again :
    (create_or_update_stateful_set in_memory (build_stateful_set scaling "h") busy).0 ≡ ok tt
unfolding create_or_update_stateful_set stateful_set_needs_update build_stateful_set
    build_stateful_set_with steps string_dec
scaled_down_again = refl

create_or_update_stateful_set-reverts_example :
    (found : StatefulSet platform) × ((in_memory.stateful_sets.get
        (key_of owned_by_orders)
        (create_or_update_stateful_set in_memory (build_stateful_set scaling "h") busy).1.world).0
      ≡ ok found)
    × (in_memory.equal_replicas found.spec.replicas (some (replicas_or_one scaling.spec.replicas))
        ≡ true)
create_or_update_stateful_set-reverts_example =
    create_or_update_stateful_set-reverts in_memory quiet_in_memory busy owned_by_orders "h" refl
      scaled_down_again
