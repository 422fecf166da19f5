-- ===== src/Resources/Names.antt =====
-- The names that the operator gives to the objects of one instance.
use text.Mathlib.TextLemmas.{append-nil, append_cancel_left}
use text.Mathlib.TextEquality.{eq_iff}
use talon_db_k8s_operator.Base.{String, ◌<>◌, ◌≡◌, refl, ◌∙◌, ◌≢◌, arith}
use talon_db_k8s_operator.Base.Int.{ℤ}
use talon_db_k8s_operator.Kube.{Platform}
use talon_db_k8s_operator.Api.{TlnDb}
use talon_db_k8s_operator.Resources.StatefulSet.{
  build_stateful_set_with, build_stateful_set, build_leader_stateful_set,
  build_follower_stateful_set,
}
use talon_db_k8s_operator.Resources.Service.{
  service_with, build_write_service, build_read_service, build_headless_service,
}
use talon_db_k8s_operator.Resources.Hpa.{build_hpa}

suffix_ne : (name s t : String) → s ≢ t → name <> s ≢ name <> t
suffix_ne name s t differ e = differ (append_cancel_left name s t e)

ne_suffix : (name s : String) → ◌≢◌ {A = String} "" s → name ≢ name <> s
ne_suffix name s differ e = differ (append_cancel_left name "" s (append-nil name ∙ e))

module _ {K : Platform} (inst : TlnDb K) (hash addr : String) (n retention : ℤ) where
  -- The autoscaler targets the standalone StatefulSet by its name. Neither set of replicated mode
  -- has that name.
  pub build_hpa-target :
      ((build_hpa inst).spec.scale_target_ref.name ≡ (build_stateful_set inst hash).meta.name)
      × ((build_hpa inst).spec.scale_target_ref.name
          ≢ (build_leader_stateful_set inst hash retention).meta.name)
      × ((build_hpa inst).spec.scale_target_ref.name
          ≢ (build_follower_stateful_set inst hash addr n retention).meta.name)
  unfolding build_hpa build_stateful_set_with build_stateful_set build_leader_stateful_set
      build_follower_stateful_set
  build_hpa-target = (
    refl,
    ne_suffix inst.meta.name "-leader" (ground (arith, eq_iff "" "-leader")),
    ne_suffix inst.meta.name "-follower" (ground (arith, eq_iff "" "-follower")),
  )

  -- In replicated mode no two Services share a name, nor do the two StatefulSets.
  pub names_distinct :
      ((build_write_service inst).meta.name ≢ (build_read_service inst).meta.name)
      × ((build_write_service inst).meta.name ≢ (build_headless_service inst).meta.name)
      × ((build_read_service inst).meta.name ≢ (build_headless_service inst).meta.name)
      × ((build_leader_stateful_set inst hash retention).meta.name
          ≢ (build_follower_stateful_set inst hash addr n retention).meta.name)
  unfolding service_with build_write_service build_read_service build_headless_service
      build_stateful_set_with build_leader_stateful_set build_follower_stateful_set
  names_distinct = (
    ne_suffix inst.meta.name "-read" (ground (arith, eq_iff "" "-read")),
    ne_suffix inst.meta.name "-headless" (ground (arith, eq_iff "" "-headless")),
    suffix_ne inst.meta.name "-read" "-headless" (ground (arith, eq_iff "-read" "-headless")),
    suffix_ne inst.meta.name "-leader" "-follower" (ground (arith, eq_iff "-leader" "-follower")),
  )
