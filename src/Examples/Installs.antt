-- ===== src/Examples/Installs.antt =====
-- A server that accepts what is created, and whose cache has seen nothing of it yet.
use talon_db_k8s_operator.Base.{◌≡◌, refl, true, List, [], ◌∷◌, ◌++◌}
use talon_db_k8s_operator.Api.{TlnDb}
use talon_db_k8s_operator.Controller.Exec.{ok, err}
use talon_db_k8s_operator.Controller.Environment.{KindClient, Runtime, Session}
use talon_db_k8s_operator.Controller.Provision.{reconcile_resources}
use talon_db_k8s_operator.Controller.Total.Healthy.{same_refl}
use talon_db_k8s_operator.Controller.Installs.EmptyServer.{
  Created, new_config_map, new_service_account, new_role, new_role_binding, new_stateful_set,
  new_service, new_ingress, new_network_policy, new_service_monitor, new_pdb, new_hpa, EmptyKind,
  Empty,
}
use talon_db_k8s_operator.Controller.Installs.Table.{all_made}
use talon_db_k8s_operator.Controller.Installs.Whole.{reconcile_resources-installs}
use talon_db_k8s_operator.Examples.Fixture.{platform, with_followers}
use talon_db_k8s_operator.Examples.Cluster.{in_memory, missing}

abbrev noting : {T : Type 0} → (T → Created platform) → KindClient (List (Created platform)) T
noting created = record {
  get = λ key w. (err missing, w);
  create = λ object w. (ok tt, w ++ (created object ∷ []));
  update = λ object w. (ok tt, w);
  delete = λ object w. (ok tt, w);
}

abbrev new_server : Runtime platform
new_server = record in_memory {
  World = List (Created platform);
  now = λ w. 1;
  instances = record {
    get = λ key w. (ok with_followers, w);
    update = λ inst w. (ok inst, w);
    patch_status = λ base inst w. (ok inst, w);
  };
  stateful_sets = noting new_stateful_set;
  services = noting new_service;
  config_maps = noting new_config_map;
  service_accounts = noting new_service_account;
  roles = noting new_role;
  role_bindings = noting new_role_binding;
  ingresses = noting new_ingress;
  network_policies = noting new_network_policy;
  pod_disruption_budgets = noting new_pdb;
  autoscalers = noting new_hpa;
  service_monitors = noting new_service_monitor;
}

noting_kind :
    {T : Type 0} (created : T → Created platform) → EmptyKind (λ w. w) created (noting created)
noting_kind created = record {
  get = λ key w. ("not found", refl, refl);
  create = λ object w. (refl, refl);
}

-- A replicated instance with all optional objects
abbrev everything : TlnDb platform
everything = record with_followers {
  spec = record with_followers.spec {
    networking = record with_followers.spec.networking {
      ingress = record with_followers.spec.networking.ingress { enabled = true };
    };
    observability = record with_followers.spec.observability {
      metrics = record with_followers.spec.observability.metrics {
        service_monitor = record with_followers.spec.observability.metrics.service_monitor {
          enabled = true;
        };
      };
    };
  };
}

abbrev new_server-empty : Empty new_server everything
new_server-empty = record {
  journal = λ w. w;
  owned = λ meta. record meta { owner_references = "orders" ∷ [] };
  owned_value = λ object. object;
  set_controller_reference =
      λ i meta same inside unowned. (λ j. ok (record meta { owner_references = same.name j ∷ [] }));
  set_value_controller_reference = λ i object same. refl;
  patch_status = λ base i w. (i, refl, same_refl i, refl);
  config_maps = noting_kind new_config_map;
  service_accounts = noting_kind new_service_account;
  roles = noting_kind new_role;
  role_bindings = noting_kind new_role_binding;
  stateful_sets = noting_kind new_stateful_set;
  services = noting_kind new_service;
  ingresses = noting_kind new_ingress;
  network_policies = noting_kind new_network_policy;
  service_monitors = noting_kind new_service_monitor;
  pod_disruption_budgets = noting_kind new_pdb;
  autoscalers = noting_kind new_hpa;
}

abbrev untouched : Session new_server
untouched = record { world = []; instance_in_memory = everything; events = [] }

reconcile_resources-installs_example :
    ((reconcile_resources new_server untouched).0 ≡ ok tt)
    × ((reconcile_resources new_server untouched).1.world ≡ [] ++ all_made new_server-empty)
reconcile_resources-installs_example =
    reconcile_resources-installs new_server-empty untouched (same_refl everything) refl
