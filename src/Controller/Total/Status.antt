-- ===== src/Controller/Total/Status.antt =====
-- internal/controller/tlndb_controller.go: on a healthy server the writes of the status succeed.
use talon_db_k8s_operator.Base.{String, ◌≡◌, refl, Bool}
use talon_db_k8s_operator.Kube.{Platform, StatefulSet}
use talon_db_k8s_operator.Api.{TlnDb}
use talon_db_k8s_operator.Controller.Exec.{ok}
use talon_db_k8s_operator.Controller.Environment.{Runtime, Session}
use talon_db_k8s_operator.Controller.Calls.{steps}
use talon_db_k8s_operator.Controller.Status.{
  patch_status, set_phase, set_condition, with_condition, observed_status,
}
use talon_db_k8s_operator.Controller.Total.{Succeeds, Yields-then}
use talon_db_k8s_operator.Controller.Total.Steps.{
  Succeeds-gets, Succeeds-ignore_conflict, Succeeds-ignore_error,
}
use talon_db_k8s_operator.Controller.Total.Healthy.{Healthy, SameAs, same_trans, status_only}

module _ {K : Platform} {R : Runtime K} (healthy : Healthy R) {inst : TlnDb K} where
  -- The change of a status patch, as the instance in memory has it afterwards.
  pub patch_status-ok :
      (change : TlnDb K → TlnDb K) (s : Session R)
      → ((i : TlnDb K) → SameAs i (change i))
      → SameAs inst s.instance_in_memory
      → ((patch_status R change s).0 ≡ ok tt)
        × SameAs inst (patch_status R change s).1.instance_in_memory
        × ((patch_status R change s).1.instance_in_memory.status
            ≡ (change s.instance_in_memory).status)
  unfolding steps
  patch_status-ok change s harmless h =
      let base = s.instance_in_memory in
      let (answer, e, same, status) = (healthy.patch_status base (change base)).at s.world in
      rw e (refl, same_trans h (same_trans (harmless base) same), status)

  pub patch_status-Succeeds :
      (change : TlnDb K → TlnDb K)
      → ((i : TlnDb K) → SameAs i (change i))
      → Succeeds R inst (patch_status R change)
  patch_status-Succeeds change harmless = record {
    at = λ s h. let (e, same, _) = patch_status-ok change s harmless h in (tt, e, tt, same);
  }

  pub set_phase-Succeeds : (phase : String) → Succeeds R inst (set_phase R phase)
  unfolding set_phase
  set_phase-Succeeds phase =
      Yields-then (Succeeds-gets _)
        λ now. Succeeds-ignore_conflict (patch_status-Succeeds _ λ i. status_only i _)

  pub set_condition-Succeeds :
      (condition_type : String) (status : Bool) (reason message : String)
      → Succeeds R inst (set_condition R condition_type status reason message)
  unfolding set_condition with_condition
  set_condition-Succeeds condition_type status reason message =
      Succeeds-ignore_error (patch_status-Succeeds _ λ i. status_only i _)

pub observed_same :
    {K : Platform} (R : Runtime K) (sts : StatefulSet K) (i : TlnDb K)
    → SameAs i (observed_status R sts i)
unfolding observed_status with_condition
observed_same R sts i = status_only i _
