-- ===== src/Examples/Manager.antt =====
-- A manager that answers every call and remembers them.
use talon_db_k8s_operator.Base.{String, ◌≡◌, ◌↔◌, false, true, List, [], ◌∷◌}
use talon_db_k8s_operator.Controller.Exec.{ok}
use talon_db_k8s_operator.Manager.{ManagerRuntime, Process, main, exit_status}
use talon_db_k8s_operator.Manager.Options.{TlsConfig, default_flags, manager_options}
use talon_db_k8s_operator.Manager.Tls.{configured, Obeys, manager_options-Obeys}
use talon_db_k8s_operator.Manager.Started.{Started, main-Started}

abbrev remembering : ManagerRuntime
remembering = record {
  World = List String;
  Handle = Unit;
  new_manager = λ options calls. (ok tt, "new" ∷ calls);
  complete = λ mgr watches calls. (ok tt, "complete" ∷ calls);
  add_healthz_check = λ mgr name calls. (ok tt, name ∷ calls);
  add_readyz_check = λ mgr name calls. (ok tt, name ∷ calls);
  start = λ mgr calls. (ok tt, "start" ∷ calls);
}

abbrev launched : Process remembering
launched = record { world = []; log = [] }

main-Started_example :
    (exit_status remembering (main remembering default_flags "" launched).0 ≡ 0)
    ↔ Started remembering default_flags "" [] (main remembering default_flags "" launched).1.world
main-Started_example = main-Started remembering default_flags "" launched

-- A configuration that would offer HTTP/2.
abbrev with_http2 : TlsConfig
with_http2 = record { next_protos = "h2" ∷ "http/1.1" ∷ []; min_version = 0 }

manager_options-Obeys_example :
    Obeys false with_http2
      (configured (manager_options default_flags "").metrics_tls_opts with_http2)
    × Obeys false with_http2
        (configured (manager_options default_flags "").webhook_tls_opts with_http2)
    × ((manager_options default_flags "").metrics_secure_serving ≡ true)
manager_options-Obeys_example = manager_options-Obeys default_flags "" with_http2
