-- ===== src/Manager.antt =====
-- cmd/main.go: `main`. The manager of controller-runtime is a parameter.
pub mod Options
pub mod Scheme
pub mod Tls
pub mod Started
use talon_db_k8s_operator.Base.{ℕ, String, List, ◌∷◌}
use talon_db_k8s_operator.Controller.Exec.{Exec, Error, Result, ok, err, ◌>>=◌, ◌>>◌}
use talon_db_k8s_operator.Controller.Watches.{ControllerWatches, setup_with_manager}
use Options.{Flags, ManagerOptions, manager_options}

-- What `main` calls: each call may change the outside world, and may fail.
pub record ManagerRuntime : Type 1 where
  pub World : Type 0
  pub Handle : Type 0
  -- `NewManager`, with the cluster's address and credentials that `GetConfigOrDie` has found
  pub new_manager : ManagerOptions → Exec World Handle
  -- the builder's `Complete`, for a manager
  pub complete : Handle → ControllerWatches → Exec World Unit
  pub add_healthz_check : Handle → String → Exec World Unit
  pub add_readyz_check : Handle → String → Exec World Unit
  -- returns when the process is told to stop
  pub start : Handle → Exec World Unit

-- The outside world, and what was logged, latest first.
pub record Process (M : ManagerRuntime) : Type 0 where
  pub world : M.World
  pub log : List String

module _ (M : ManagerRuntime) where
  abbrev pub logged : {A : Type 0} → String → Result A → Process M → Result A × Process M
  logged message (ok a) p = (ok a, p)
  logged message (err e) p = (err e, record p { log = message ∷ p.log })

  -- `if err := m(); err != nil { setupLog.Error(err, message); os.Exit(1) }`
  unfoldable pub or_exit : {A : Type 0} → String → Exec M.World A → Exec (Process M) A
  or_exit message m p = let (r, w) = m p.world in logged message r (record p { world = w })

  unfoldable pub log_info : String → Exec (Process M) Unit
  log_info message p = (ok tt, record p { log = message ∷ p.log })

  unfoldable pub main : Flags → String → Exec (Process M) Unit
  unfolding setup_with_manager
  main flags namespace_given = do
    mgr ← or_exit "unable to start manager" (M.new_manager (manager_options flags namespace_given))
    or_exit "unable to create controller" (setup_with_manager (M.complete mgr))
    or_exit "unable to set up health check" (M.add_healthz_check mgr "healthz")
    or_exit "unable to set up ready check" (M.add_readyz_check mgr "readyz")
    log_info "starting manager"
    or_exit "problem running manager" (M.start mgr)

  -- The status that the process ends with.
  abbrev pub exit_status : Result Unit → ℕ
  exit_status (ok _) = 0
  exit_status (err _) = 1
