-- ===== src/Controller/Total/Resources.antt =====
-- internal/controller/tlndb_controller.go: on a healthy server `reconcileResources` succeeds, and
-- what it writes to the status.
use talon_db_k8s_operator.Base.{String, ◌≡◌, refl, ap, sym, ◌∙◌, ◌==◌, List}
use talon_db_k8s_operator.Kube.{Platform}
use talon_db_k8s_operator.Api.{TlnDbStatus, TlnDb}
use talon_db_k8s_operator.Resources.Common.{image_ref}
use talon_db_k8s_operator.Resources.Hash.{sort_strings}
use talon_db_k8s_operator.Controller.Exec.{ok, ignore_conflict}
use talon_db_k8s_operator.Controller.Environment.{Runtime, Session}
use talon_db_k8s_operator.Controller.Status.{patch_status}
use talon_db_k8s_operator.Controller.Provision.{
  reconcile_workload, persist_managed, reconcile_resources,
}
use talon_db_k8s_operator.Controller.Managed.{workload_names, managed_names}
use talon_db_k8s_operator.Controller.Total.{
  Yields, Succeeds, Reaches, Yields-with_instance, Yields-if, Reaches-bind,
}
use talon_db_k8s_operator.Controller.Total.Steps.{Succeeds-gets}
use talon_db_k8s_operator.Controller.Total.Healthy.{Healthy, SameAs, status_only}
use talon_db_k8s_operator.Controller.Total.Status.{patch_status-ok}
use talon_db_k8s_operator.Controller.Total.Blocks.{
  reconcile_rbac-Yields, reconcile_headless-Yields, reconcile_ingress-Yields,
  reconcile_network_policy-Yields, reconcile_service_monitor-Yields, reconcile_pdb-Yields,
  reconcile_hpa-Yields,
}
use talon_db_k8s_operator.Controller.Total.Workload.{
  ExternalConfigFound, reconcile_config-Yields, reconcile_replicated-Yields,
  reconcile_standalone-Yields,
}

-- The status lists `names`, sorted, with the image and the generation that they are for.
pub record Records {K : Platform} (inst : TlnDb K) (names : List String) (status : TlnDbStatus)
    : Type 0 where
  pub managed : status.managed_resources ≡ sort_strings names
  pub image : status.current_image ≡ image_ref inst.spec.image
  pub generation : status.observed_generation ≡ inst.meta.generation

module _ {K : Platform} {R : Runtime K} (healthy : Healthy R) {inst : TlnDb K} where
  reconcile_workload-Yields :
      (hash : String) → Yields R inst (λ got. got ≡ workload_names inst) (reconcile_workload R hash)
  unfolding reconcile_workload
  reconcile_workload-Yields hash = Yields-with_instance λ inst' same.
      let mode = ap (λ spec. spec.mode == "replicated") same.spec in
      Yields-if _ (λ many. rw (sym mode ∙ many) (reconcile_replicated-Yields healthy hash))
        (λ alone. reconcile_standalone-Yields healthy hash (sym mode ∙ alone))

  pub Reaches-patch :
      (P : TlnDbStatus → Type 0) (change : TlnDb K → TlnDb K)
      → ((i : TlnDb K) → SameAs i (change i))
      → ((i : TlnDb K) → SameAs inst i → P (change i).status)
      → Reaches R inst
          (λ _ s. P s.instance_in_memory.status)
          (ignore_conflict (patch_status R change))
  unfolding ignore_conflict
  Reaches-patch P change harmless p = record {
    at = λ s h.
        let (e, same, status) = patch_status-ok healthy {inst = inst} change s harmless h in
        (tt, rw e refl, rw status (p s.instance_in_memory h), same);
  }

  persist_managed-Reaches :
      (names : List String)
      → Reaches R inst
          (λ _ s. Records inst names s.instance_in_memory.status)
          (persist_managed R names)
  unfolding persist_managed
  persist_managed-Reaches names = Reaches-bind (Succeeds-gets _) λ now _.
      Reaches-patch (Records inst names) _ (λ i. status_only i _)
        λ i same. record {
          managed = refl;
          image = ap (λ spec. image_ref spec.image) same.spec;
          generation = same.generation;
        }

  -- All blocks, and the names in the status
  pub reconcile_resources-Reaches :
      ExternalConfigFound R inst
      → Reaches R inst
          (λ _ s. Records inst (managed_names R inst) s.instance_in_memory.status)
          (reconcile_resources R)
  unfolding reconcile_resources managed_names
  reconcile_resources-Reaches found = Reaches-bind (reconcile_rbac-Yields healthy) λ rbac e₁.
      Reaches-bind (reconcile_config-Yields healthy found) λ (hash, config) e₂.
        Reaches-bind (reconcile_headless-Yields healthy) λ headless e₃.
          Reaches-bind (reconcile_workload-Yields hash) λ workload e₄.
            Reaches-bind (reconcile_ingress-Yields healthy) λ ingress e₅.
              Reaches-bind (reconcile_network_policy-Yields healthy) λ policy e₆.
                Reaches-bind (reconcile_service_monitor-Yields healthy) λ monitor e₇.
                  Reaches-bind (reconcile_pdb-Yields healthy) λ pdb e₈.
                    Reaches-bind (reconcile_hpa-Yields healthy)
                      λ hpa e₉. rw (e₁, e₂, e₃, e₄, e₅, e₆, e₇, e₈, e₉) (persist_managed-Reaches _)

  pub reconcile_resources-Succeeds :
      ExternalConfigFound R inst → Succeeds R inst (reconcile_resources R)
  reconcile_resources-Succeeds found = record {
    at = λ s h. let (u, e, _, h') = (reconcile_resources-Reaches found).at s h in (u, e, tt, h');
  }

  -- On a healthy server, and where an external ConfigMap that the instance refers to can be read,
  -- the provisioning succeeds, and the status then lists exactly the objects that the instance
  -- asks for, sorted, with the image and the generation that they were made for.
  pub reconcile_resources-manages :
      (s : Session R)
      → SameAs inst s.instance_in_memory
      → ExternalConfigFound R inst
      → ((reconcile_resources R s).0 ≡ ok tt)
        × Records inst (managed_names R inst) (reconcile_resources R s).1.instance_in_memory.status
  reconcile_resources-manages s same found =
      let (u, e, records, _) = (reconcile_resources-Reaches found).at s same in (e, records)
