-- ===== src/Resources/Pdb.antt =====
-- internal/resources/pdb.go
use talon_db_k8s_operator.Base.{String, Option, none, some}
use talon_db_k8s_operator.Base.Int.{ℤ, pos}
use talon_db_k8s_operator.Base.Dict.{Dict}
use talon_db_k8s_operator.Kube.{Platform, object_meta, PdbSpec, PodDisruptionBudget, from_int}
use talon_db_k8s_operator.Api.{TlnDb}
use talon_db_k8s_operator.Resources.Common.{resource_name, labels, selector_labels}

-- The switch of `BuildPDB`: at most one of the two fields is set.
abbrev pdb_limits : Dict String → Option ℤ → Option ℤ → PdbSpec
pdb_limits selector (some n) _ = record {
  selector = selector;
  min_available = some (from_int n);
  max_unavailable = none;
}
pdb_limits selector none (some n) = record {
  selector = selector;
  min_available = none;
  max_unavailable = some (from_int n);
}
pdb_limits selector none none = record {
  selector = selector;
  min_available = none;
  max_unavailable = some (from_int (pos 1));
}

module _ {K : Platform} where
  unfoldable pub build_pdb : TlnDb K → PodDisruptionBudget K
  unfolding labels selector_labels
  build_pdb inst =
      let pdb = inst.spec.availability.pod_disruption_budget in
      record {
        meta = object_meta (resource_name inst) inst.meta.namespace (labels inst);
        spec = pdb_limits (selector_labels inst) pdb.min_available pdb.max_unavailable;
      }
