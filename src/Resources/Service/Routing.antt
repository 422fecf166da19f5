-- ===== src/Resources/Service/Routing.antt =====
-- internal/resources/service.go and statefulset.go: which pods the Services and the StatefulSets
-- of replicated mode pick.
use mathlib.Core.Bool.{false≢true}
use text.Mathlib.TextEquality.{eq_iff}
use talon_db_k8s_operator.Base.{String, sym, ◌∙◌, ◌≡◌, ◌≢◌, ◌↔◌, true, arith, inl, inr, Bool-cases}
use talon_db_k8s_operator.Base.Int.{ℤ, pos, is_zero}
use talon_db_k8s_operator.Kube.{Platform}
use talon_db_k8s_operator.Api.{TlnDb}
use talon_db_k8s_operator.Resources.Common.{role_standalone, role_leader, role_follower}
use talon_db_k8s_operator.Resources.StatefulSet.{
  build_stateful_set_with, build_stateful_set, build_leader_stateful_set,
  build_follower_stateful_set,
}
use talon_db_k8s_operator.Resources.Service.{
  service_with, build_service, build_write_service, build_read_service,
}
use talon_db_k8s_operator.Resources.Selectors.{
  Selects, role_selector-Selects, not-role_selector-Selects, selector_labels-Selects,
}

leader-ne-follower : role_leader ≢ role_follower
leader-ne-follower = ground (arith, eq_iff "leader" "follower")

follower-ne-leader : role_follower ≢ role_leader
follower-ne-leader = ground (arith, eq_iff "follower" "leader")

is_zero_iff : (n : ℤ) → (is_zero n ≡ true) ↔ (n ≡ pos 0)
is_zero_iff n = ground arith

module _ {K : Platform} (inst : TlnDb K) (hash addr : String) (n retention : ℤ) where
  -- The write Service picks the pods of the leader, and none of the followers'.
  pub build_write_service-Selects :
      Selects
        (build_write_service inst).spec.selector
        (build_leader_stateful_set inst hash retention).spec.template.labels
      × ¬ Selects
          (build_write_service inst).spec.selector
          (build_follower_stateful_set inst hash addr n retention).spec.template.labels
  unfolding service_with build_write_service build_stateful_set_with build_leader_stateful_set
      build_follower_stateful_set
  build_write_service-Selects = (
    role_selector-Selects inst role_leader,
    not-role_selector-Selects inst role_leader role_follower leader-ne-follower,
  )

  -- The read Service picks the leader's pods exactly when no read replicas are asked for, and the
  -- followers' pods exactly when some are.
  pub build_read_service-Selects :
      (Selects
          (build_read_service inst).spec.selector
          (build_leader_stateful_set inst hash retention).spec.template.labels
        ↔ (inst.spec.replication.read_replicas ≡ pos 0))
      × (Selects
            (build_read_service inst).spec.selector
            (build_follower_stateful_set inst hash addr n retention).spec.template.labels
          ↔ (inst.spec.replication.read_replicas ≢ pos 0))
  unfolding service_with build_read_service build_stateful_set_with build_leader_stateful_set
      build_follower_stateful_set
  build_read_service-Selects = elim (Bool-cases (is_zero inst.spec.replication.read_replicas)) [
    | inl zero ↦
        let none_asked = (is_zero_iff _).0 zero in
        rw zero (
          (λ _. none_asked, λ _. role_selector-Selects inst role_leader),
          (
            λ s.
                absurd
                  (not-role_selector-Selects inst role_leader role_follower leader-ne-follower s),
            λ some_asked. absurd (some_asked none_asked),
          ),
        )
    | inr more ↦
        let some_asked = λ (e : inst.spec.replication.read_replicas ≡ pos 0).
          false≢true (sym more ∙ (is_zero_iff _).1 e) in
        rw more (
          (
            λ s.
                absurd
                  (not-role_selector-Selects inst role_follower role_leader follower-ne-leader s),
            λ e. absurd (some_asked e),
          ),
          (λ _. some_asked, λ _. role_selector-Selects inst role_follower),
        )
  ]

  -- Each StatefulSet selects its own pods, as the API server requires, and the leader's and the
  -- followers' sets do not select each other's.
  pub stateful_set_selectors :
      (Selects
          (build_stateful_set inst hash).spec.selector
          (build_stateful_set inst hash).spec.template.labels
        × Selects
            (build_leader_stateful_set inst hash retention).spec.selector
            (build_leader_stateful_set inst hash retention).spec.template.labels
        × Selects
            (build_follower_stateful_set inst hash addr n retention).spec.selector
            (build_follower_stateful_set inst hash addr n retention).spec.template.labels)
      × ¬ Selects
          (build_leader_stateful_set inst hash retention).spec.selector
          (build_follower_stateful_set inst hash addr n retention).spec.template.labels
      × ¬ Selects
          (build_follower_stateful_set inst hash addr n retention).spec.selector
          (build_leader_stateful_set inst hash retention).spec.template.labels
  unfolding build_stateful_set_with build_stateful_set build_leader_stateful_set
      build_follower_stateful_set
  stateful_set_selectors = (
    (
      selector_labels-Selects inst role_standalone,
      role_selector-Selects inst role_leader,
      role_selector-Selects inst role_follower,
    ),
    not-role_selector-Selects inst role_leader role_follower leader-ne-follower,
    not-role_selector-Selects inst role_follower role_leader follower-ne-leader,
  )

  -- The standalone Service picks the pods of the standalone set, and also those of a leader or a
  -- follower set that is left over from replicated mode.
  pub build_service-Selects :
      Selects (build_service inst).spec.selector (build_stateful_set inst hash).spec.template.labels
      × Selects
          (build_service inst).spec.selector
          (build_leader_stateful_set inst hash retention).spec.template.labels
      × Selects
          (build_service inst).spec.selector
          (build_follower_stateful_set inst hash addr n retention).spec.template.labels
  unfolding service_with build_service build_stateful_set_with build_stateful_set
      build_leader_stateful_set build_follower_stateful_set
  build_service-Selects = (
    selector_labels-Selects inst role_standalone,
    selector_labels-Selects inst role_leader,
    selector_labels-Selects inst role_follower,
  )
