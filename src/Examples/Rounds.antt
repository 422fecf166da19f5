-- ===== src/Examples/Rounds.antt =====
-- The first two calls for a new instance, and the order of the names in the status.
use talon_db_k8s_operator.Base.{◌≡◌, refl, ap, sym, some, [], ==_iff}
use talon_db_k8s_operator.Resources.Common.{finalizer_name}
use talon_db_k8s_operator.Controller.{Outcome}
use talon_db_k8s_operator.Controller.Rounds.{KeepsFinalizers, rounds}
use talon_db_k8s_operator.Controller.Rounds.Ends.{rounds-ends}
use talon_db_k8s_operator.Examples.Fixture.{standalone}
use talon_db_k8s_operator.Examples.Cluster.{Cluster, in_memory}
use talon_db_k8s_operator.Examples.Outcomes.{orders_key}

finalizers_kept : KeepsFinalizers in_memory
finalizers_kept = record {
  added = λ finalizers. rw ((==_iff finalizer_name finalizer_name).1 refl) refl;
  read_back = λ key w w' w'' inst answer finalizers read updated.
      (w''.instance_stored, refl, ap (λ q. q.1.instance_stored.meta.finalizers) (sym updated));
}

abbrev fresh : Cluster
fresh = record { instance_stored = standalone; sets = []; services = [] }

rounds-ends_example :
    (outcome : Outcome in_memory) × (rounds in_memory 2 orders_key fresh ≡ some outcome)
rounds-ends_example = rounds-ends in_memory finalizers_kept orders_key fresh
