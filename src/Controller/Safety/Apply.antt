-- ===== src/Controller/Safety/Apply.antt =====
-- The create-or-update helpers make safe calls only.
use talon_db_k8s_operator.Base.{◌≡◌, refl, inl, inr, arith}
use talon_db_k8s_operator.Kube.{
  Platform, ObjectMeta, StatefulSet, Service, Ingress, NetworkPolicy, ConfigMap, ServiceAccount,
  Role, RoleBinding, PodDisruptionBudget, HorizontalPodAutoscaler, Value,
}
use talon_db_k8s_operator.Api.{TlnDb}
use talon_db_k8s_operator.Resources.Common.{follower_stateful_set_name}
use talon_db_k8s_operator.Controller.Exec.{
  Result, ok, err, pure, lift, ◌>>=◌, ignore_not_found, when_found, continue,
}
use talon_db_k8s_operator.Controller.Environment.{Key, Runtime, Session}
use talon_db_k8s_operator.Controller.Calls.{Reconcile, the_instance, steps, call, found}
use talon_db_k8s_operator.Controller.Converge.Quiet.{Result-cases}
use talon_db_k8s_operator.Controller.Keeps.{Leaves, Keeps, keeps_rules}
use talon_db_k8s_operator.Controller.Safety.Calls.{SafeCalls, IsOwned}
use talon_db_k8s_operator.Controller.Apply.{
  create_or_update_config_map, create_or_update_service_account, create_or_update_role,
  create_or_update_role_binding, create_or_update_stateful_set, create_or_update_service,
  create_or_update_ingress, create_or_update_network_policy, delete_stateful_set_if_exists,
  create_or_update_service_monitor, create_or_update_pdb, create_or_update_hpa,
}

module _ {K : Platform} {R : Runtime K} {P : R.World → Type 0} (safe : SafeCalls R P) where
  -- The helpers start with the owner of what they may create.
  owned-Keeps :
      {A : Type 0} (bare : ObjectMeta K) {f : ObjectMeta K → Reconcile R A}
      → ((meta : ObjectMeta K) → IsOwned R meta → Keeps R P (f meta))
      → Keeps R P ((do inst ← the_instance R; lift (R.set_controller_reference inst bare)) >>= f)
  unfolding steps
  owned-Keeps bare {f} kf = record {
    at = λ s h.
        let inst = s.instance_in_memory in
        elim (Result-cases (R.set_controller_reference inst bare)) [
          | inl (meta, own) ↦ rw own ((kf meta (inst, bare, own)).at s h)
          | inr (e, failed) ↦ rw failed h
        ];
  }

  pub create_or_update_config_map-Keeps :
      (desired : ConfigMap K) → Keeps R P (create_or_update_config_map R desired)
  unfolding create_or_update_config_map
  create_or_update_config_map-Keeps desired =
      let kind = safe.config_maps in
      owned-Keeps desired.meta
        λ meta own. search (keeps_rules, kind.get, kind.create, kind.update) depth 9

  pub create_or_update_service_account-Keeps :
      (desired : ServiceAccount K) → Keeps R P (create_or_update_service_account R desired)
  unfolding create_or_update_service_account
  create_or_update_service_account-Keeps desired =
      let kind = safe.service_accounts in
      owned-Keeps desired.meta
        λ meta own. search (keeps_rules, kind.get, kind.create, kind.update) depth 9

  pub create_or_update_role-Keeps : (desired : Role K) → Keeps R P (create_or_update_role R desired)
  unfolding create_or_update_role
  create_or_update_role-Keeps desired =
      let kind = safe.roles in
      owned-Keeps desired.meta
        λ meta own. search (keeps_rules, kind.get, kind.create, kind.update) depth 9

  pub create_or_update_role_binding-Keeps :
      (desired : RoleBinding K) → Keeps R P (create_or_update_role_binding R desired)
  unfolding create_or_update_role_binding
  create_or_update_role_binding-Keeps desired =
      let kind = safe.role_bindings in
      owned-Keeps desired.meta
        λ meta own. search (keeps_rules, kind.get, kind.create, kind.update) depth 9

  pub create_or_update_stateful_set-Keeps :
      (desired : StatefulSet K) → Keeps R P (create_or_update_stateful_set R desired)
  unfolding create_or_update_stateful_set
  create_or_update_stateful_set-Keeps desired =
      let kind = safe.stateful_sets in
      owned-Keeps desired.meta
        λ meta own. search (keeps_rules, kind.get, kind.create, kind.update) depth 9

  pub create_or_update_service-Keeps :
      (desired : Service K) → Keeps R P (create_or_update_service R desired)
  unfolding create_or_update_service
  create_or_update_service-Keeps desired =
      let kind = safe.services in
      owned-Keeps desired.meta
        λ meta own. search (keeps_rules, kind.get, kind.create, kind.update) depth 9

  pub create_or_update_ingress-Keeps :
      (desired : Ingress K) → Keeps R P (create_or_update_ingress R desired)
  unfolding create_or_update_ingress
  create_or_update_ingress-Keeps desired =
      let kind = safe.ingresses in
      owned-Keeps desired.meta
        λ meta own. search (keeps_rules, kind.get, kind.create, kind.update) depth 9

  pub create_or_update_network_policy-Keeps :
      (desired : NetworkPolicy K) → Keeps R P (create_or_update_network_policy R desired)
  unfolding create_or_update_network_policy
  create_or_update_network_policy-Keeps desired =
      let kind = safe.network_policies in
      owned-Keeps desired.meta
        λ meta own. search (keeps_rules, kind.get, kind.create, kind.update) depth 9

  pub create_or_update_service_monitor-Keeps :
      (desired : Value) → Keeps R P (create_or_update_service_monitor R desired)
  unfolding create_or_update_service_monitor
  create_or_update_service_monitor-Keeps desired =
      let kind = safe.service_monitors in
      search (keeps_rules, kind.get, kind.create, kind.update) depth 9

  pub create_or_update_pdb-Keeps :
      (desired : PodDisruptionBudget K) → Keeps R P (create_or_update_pdb R desired)
  unfolding create_or_update_pdb
  create_or_update_pdb-Keeps desired =
      let kind = safe.pod_disruption_budgets in
      owned-Keeps desired.meta
        λ meta own. search (keeps_rules, kind.get, kind.create, kind.update) depth 9

  pub create_or_update_hpa-Keeps :
      (desired : HorizontalPodAutoscaler K) → Keeps R P (create_or_update_hpa R desired)
  unfolding create_or_update_hpa
  create_or_update_hpa-Keeps desired =
      let kind = safe.autoscalers in
      owned-Keeps desired.meta
        λ meta own. search (keeps_rules, kind.get, kind.create, kind.update) depth 9

  delete_found-Keeps :
      (inst : TlnDb K) (answer : Result (StatefulSet K)) (s : Session R)
      → ((sts : StatefulSet K) → answer ≡ ok sts → Leaves P (R.stateful_sets.delete sts))
      → P s.world
      → P
          (continue
            (found R answer)
            (λ existing.
              when_found existing
                (pure tt)
                (λ old. ignore_not_found (call R (R.stateful_sets.delete old))))
            s).1.world
  unfolding steps
  delete_found-Keeps inst (ok sts) s leaves h = (leaves sts refl).at s.world h
  delete_found-Keeps inst (err e) s leaves h = ground arith

  -- The only deletion.
  pub delete_stateful_set_if_exists-Keeps :
      (inst : TlnDb K)
      → Keeps R P
          (delete_stateful_set_if_exists R inst.meta.namespace (follower_stateful_set_name inst))
  unfolding delete_stateful_set_if_exists steps
  delete_stateful_set_if_exists-Keeps inst = record {
    at = λ s h.
        let key : Key = record {
          namespace = inst.meta.namespace;
          name = follower_stateful_set_name inst;
        } in
        let (answer, w) = R.stateful_sets.get key s.world in
        delete_found-Keeps inst answer (record s { world = w })
          (λ sts e. safe.delete_follower inst sts s.world e)
          ((safe.stateful_sets.get key).at s.world h);
  }
