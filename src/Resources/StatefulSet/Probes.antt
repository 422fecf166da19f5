-- ===== src/Resources/StatefulSet/Probes.antt =====
-- internal/resources/statefulset.go: how long the startup probe waits.
use talon_db_k8s_operator.Base.{ℕ, ◌+◌, ◌*◌, ◌/◌, ◌≤◌, ◌<◌, ◌≡◌, refl, true, arith}
use talon_db_k8s_operator.Base.Int.{ℤ, pos}
use talon_db_k8s_operator.Kube.{Platform}
use talon_db_k8s_operator.Api.{TlnDb}
use talon_db_k8s_operator.Resources.StatefulSet.Container.{build_probe}

module _ {K : Platform} (inst : TlnDb K) (port : ℤ) (timeout : ℕ) where
  -- For a timeout of at least one period, the probe allows the whole periods that fit into it: the
  -- wait does not exceed the timeout, and falls short of it by less than one period.
  pub build_probe-startup :
      inst.spec.observability.health.startup_timeout_seconds ≡ pos timeout
      → 5 ≤ timeout
      → (failures : ℕ) × ((build_probe inst port true).failure_threshold ≡ pos failures)
        × ((build_probe inst port true).period_seconds ≡ pos 5)
        × (1 ≤ failures)
        × (failures * 5 ≤ timeout)
        × (timeout < failures * 5 + 5)
  unfolding build_probe
  build_probe-startup given long =
      (timeout / 5, rw given (ground arith), refl, omega arith, omega arith, omega arith)
