-- ===== src/Controller/Installs/Whole.antt =====
-- internal/controller/tlndb_controller.go: what `reconcileResources` creates for a new instance.
use mathlib.Core.List.{append-nil}
use talon_db_k8s_operator.Base.{String, ◌≡◌, none, List, [], ◌++◌}
use talon_db_k8s_operator.Kube.{Platform}
use talon_db_k8s_operator.Api.{TlnDb}
use talon_db_k8s_operator.Controller.Exec.{ok}
use talon_db_k8s_operator.Controller.Environment.{Runtime, Session}
use talon_db_k8s_operator.Controller.Provision.{persist_managed, reconcile_resources}
use talon_db_k8s_operator.Controller.Total.Healthy.{SameAs, status_only}
use talon_db_k8s_operator.Controller.Installs.{
  Makes, Any, Makes-bind, Makes-then, Makes-gets, Makes-same,
}
use talon_db_k8s_operator.Controller.Installs.EmptyServer.{Empty}
use talon_db_k8s_operator.Controller.Installs.Helpers.{patch_status-Makes, Makes-ignore_conflict}
use talon_db_k8s_operator.Controller.Installs.Blocks.{
  reconcile_rbac-Makes, reconcile_headless-Makes, reconcile_ingress-Makes,
  reconcile_network_policy-Makes, reconcile_service_monitor-Makes, reconcile_pdb-Makes,
  reconcile_hpa-Makes,
}
use talon_db_k8s_operator.Controller.Installs.Workload.{
  reconcile_config-Makes, reconcile_workload-Makes,
}
use talon_db_k8s_operator.Controller.Installs.Table.{
  rbac_made, config_made, headless_made, workload_made, ingress_made, network_policy_made,
  monitor_made, pdb_made, hpa_made, all_made,
}

module _ {K : Platform} {R : Runtime K} {inst : TlnDb K} (E : Empty R inst) where
  persist_managed-Makes : (names : List String) → Makes E Any [] (persist_managed R names)
  unfolding persist_managed
  persist_managed-Makes names =
      Makes-then (Makes-gets _)
        λ now. Makes-ignore_conflict E (patch_status-Makes E _ λ i. status_only i _)

  reconcile_resources-Makes :
      inst.spec.config_from ≡ none → Makes E Any (all_made E) (reconcile_resources R)
  unfolding reconcile_resources all_made
  reconcile_resources-Makes own =
      Makes-same
        (λ j.
          rbac_made E
          ++ (config_made E
              ++ (headless_made E
                  ++ (workload_made E
                      ++ (ingress_made E
                          ++ (network_policy_made E
                              ++ (monitor_made E ++ (pdb_made E ++ append-nil (hpa_made E) j))))))))
        (Makes-then (reconcile_rbac-Makes E) λ rbac.
          Makes-bind (reconcile_config-Makes E own) λ (hash, config) e. rw e (
            Makes-then (reconcile_headless-Makes E) λ headless.
              Makes-then (reconcile_workload-Makes E) λ workload.
                Makes-then (reconcile_ingress-Makes E) λ ingress.
                  Makes-then (reconcile_network_policy-Makes E) λ policy.
                    Makes-then (reconcile_service_monitor-Makes E) λ monitor.
                      Makes-then (reconcile_pdb-Makes E)
                        λ pdb. Makes-then (reconcile_hpa-Makes E) λ hpa. persist_managed-Makes _))

  -- Where every read of the instance's objects finds nothing, what is created is accepted, and the
  -- status can be patched, and where the instance names no external ConfigMap: the provisioning
  -- succeeds, and has then created exactly the objects of the table, in its order, each as its
  -- builder makes it and with the owner set; the builder of each StatefulSet gets the hash of the
  -- ConfigMap that was created.
  pub reconcile_resources-installs :
      (s : Session R)
      → SameAs inst s.instance_in_memory
      → inst.spec.config_from ≡ none
      → ((reconcile_resources R s).0 ≡ ok tt)
        × (E.journal (reconcile_resources R s).1.world ≡ E.journal s.world ++ all_made E)
  reconcile_resources-installs s same own =
      let (u, e, _, grown, _) = (reconcile_resources-Makes own).at s same in (e, grown)
