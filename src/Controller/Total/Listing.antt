-- ===== src/Controller/Total/Listing.antt =====
-- internal/controller/tlndb_controller.go: the list of the managed resources in the status.
use mathlib.Core.List.{Perm}
use talon_db_k8s_operator.Kube.{Platform}
use talon_db_k8s_operator.Resources.Hash.Sorted.{IsSorted, sort_strings-sorts}
use talon_db_k8s_operator.Controller.Environment.{Runtime, Session}
use talon_db_k8s_operator.Controller.Provision.{reconcile_resources}
use talon_db_k8s_operator.Controller.Managed.{managed_names}
use talon_db_k8s_operator.Controller.Total.Healthy.{Healthy, same_refl}
use talon_db_k8s_operator.Controller.Total.Workload.{ExternalConfigFound}
use talon_db_k8s_operator.Controller.Total.Resources.{reconcile_resources-manages}

-- On a healthy server, and where an external ConfigMap that the instance refers to can be read:
-- after the provisioning the status lists the objects that the instance asks for, each as often as
-- it is asked for, and in the order of their bytes.
pub managed_resources-IsSorted :
    {K : Platform} (R : Runtime K) (s : Session R)
    → let inst = s.instance_in_memory in
      Healthy R
      → ExternalConfigFound R inst
      → let listed = (reconcile_resources R s).1.instance_in_memory.status.managed_resources in
        IsSorted listed × Perm listed (managed_names R inst)
managed_resources-IsSorted R s healthy found =
    let inst = s.instance_in_memory in
    let (_, records) = reconcile_resources-manages healthy s (same_refl inst) found in
    rw records.managed (sort_strings-sorts (managed_names R inst))
