-- ===== src/Manager/Started.antt =====
-- cmd/main.go: when the process ends without an error.
use talon_db_k8s_operator.Base.{String, ◌≡◌, refl, ap, sym, ◌∙◌, ◌↔◌, arith}
use talon_db_k8s_operator.Controller.Exec.{Exec, Result, ok, err, ok_ne_err, ◌>>=◌}
use talon_db_k8s_operator.Controller.Success.{bind-inverse}
use talon_db_k8s_operator.Controller.Watches.{controller_watches, setup_with_manager}
use talon_db_k8s_operator.Manager.{
  ManagerRuntime, Process, logged, or_exit, log_info, main, exit_status,
}
use talon_db_k8s_operator.Manager.Options.{Flags, manager_options}

module _ (M : ManagerRuntime) where
  logged-inverse :
      {A : Type 0} (message : String) (r : Result A) (p p' : Process M) (a : A)
      → logged M message r p ≡ (ok a, p')
      → (r ≡ ok a) × (p ≡ p')
  logged-inverse message (ok b) p p' a h = (ap (λ q. q.0) h, ap (λ q. q.1) h)
  logged-inverse message (err e) p p' a h = absurd (ok_ne_err (sym (ap (λ q. q.0) h)))

  or_exit-inverse :
      {A : Type 0} (message : String) (m : Exec M.World A) (p p' : Process M) (a : A)
      → or_exit M message m p ≡ (ok a, p')
      → (m p.world ≡ (ok a, p'.world)) × (p.log ≡ p'.log)
  unfolding or_exit
  or_exit-inverse message m p p' a h =
      let (r, w) = m p.world in
      let (succeeded, same) = logged-inverse message r (record p { world = w }) p' a h in
      ((λ i. (succeeded i, (same i).world)), ap (λ q. q.log) same)

  -- The calls of a start-up that goes well, one after the other: the manager, the controller with
  -- its watches, both checks, and the run of the manager until it is told to stop.
  pub record Started (flags : Flags) (namespace_given : String) (first last : M.World)
      : Type 0 where
    pub mgr : M.Handle
    pub made : M.World
    pub controlled : M.World
    pub healthy : M.World
    pub ready : M.World
    pub new_manager : M.new_manager (manager_options flags namespace_given) first ≡ (ok mgr, made)
    pub complete : M.complete mgr controller_watches made ≡ (ok tt, controlled)
    pub add_healthz_check : M.add_healthz_check mgr "healthz" controlled ≡ (ok tt, healthy)
    pub add_readyz_check : M.add_readyz_check mgr "readyz" healthy ≡ (ok tt, ready)
    pub start : M.start mgr ready ≡ (ok tt, last)

  main-inverse :
      (flags : Flags) (namespace_given : String) (p p' : Process M)
      → main M flags namespace_given p ≡ (ok tt, p')
      → Started flags namespace_given p.world p'.world
  unfolding main setup_with_manager log_info
  main-inverse flags namespace_given p p' h =
      let (mgr, p₁, made, h₁) = bind-inverse _ _ p p' tt h in
      let (u₁, p₂, controlled, h₂) = bind-inverse _ _ p₁ p' tt h₁ in
      let (u₂, p₃, healthy, h₃) = bind-inverse _ _ p₂ p' tt h₂ in
      let (u₃, p₄, ready, h₄) = bind-inverse _ _ p₃ p' tt h₃ in
      let (u₄, p₅, told, h₅) = bind-inverse _ _ p₄ p' tt h₄ in
      record {
        mgr = mgr;
        made = p₁.world;
        controlled = p₂.world;
        healthy = p₃.world;
        ready = p₄.world;
        new_manager = (or_exit-inverse _ _ p p₁ mgr made).0;
        complete = (or_exit-inverse _ _ p₁ p₂ u₁ controlled).0;
        add_healthz_check = (or_exit-inverse _ _ p₂ p₃ u₂ healthy).0;
        add_readyz_check = (or_exit-inverse _ _ p₃ p₄ u₃ ready).0;
        start = ap (λ q. M.start mgr q.1.world) told ∙ (or_exit-inverse _ _ p₅ p' tt h₅).0;
      }

  main-forward :
      (flags : Flags) (namespace_given : String) (p : Process M) (last : M.World)
      → Started flags namespace_given p.world last
      → (main M flags namespace_given p).0 ≡ ok tt
  unfolding main setup_with_manager log_info or_exit ◌>>=◌
  main-forward flags namespace_given p last s =
      rw (s.new_manager, s.complete, s.add_healthz_check, s.add_readyz_check, s.start) refl

  zero_status : (r : Result Unit) → (exit_status M r ≡ 0) ↔ (r ≡ ok tt)
  zero_status (ok u) = (λ _. refl, λ _. refl)
  zero_status (err e) = (λ h. absurd (omega arith), λ h. absurd (ok_ne_err (sym h)))

  -- The process ends with status 0 exactly if the manager is made with the options that the flags
  -- and the environment give, then the controller is completed with its watches, then both checks
  -- are added, and then the manager runs and stops without an error.
  pub main-Started :
      (flags : Flags) (namespace_given : String) (p : Process M)
      → (exit_status M (main M flags namespace_given p).0 ≡ 0)
        ↔ Started flags namespace_given p.world (main M flags namespace_given p).1.world
  main-Started flags namespace_given p =
      let (r, p') = main M flags namespace_given p in
      (
        λ h. main-inverse flags namespace_given p p' (ap (λ r. (r, p')) ((zero_status r).0 h)),
        λ started. (zero_status r).1 (main-forward flags namespace_given p p'.world started),
      )
