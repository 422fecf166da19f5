-- ===== src/Examples/Deletion.antt =====
-- The deletion of an instance in memory.
use talon_db_k8s_operator.Base.{
  String, ◌≡◌, refl, inl, inr, true, false, some, List, [], ◌∷◌, ◌==◌, Bool-cases, string_dec,
}
use talon_db_k8s_operator.Api.{TlnDb}
use talon_db_k8s_operator.Resources.Common.{finalizer_name}
use talon_db_k8s_operator.Controller.Exec.{ok}
use talon_db_k8s_operator.Controller.Status.{done}
use talon_db_k8s_operator.Controller.Apply.{key_of}
use talon_db_k8s_operator.Controller.{reconcile}
use talon_db_k8s_operator.Controller.Total.Deletion.{Releases, IsFinished, reconcile-finishes}
use talon_db_k8s_operator.Examples.Fixture.{platform, standalone}
use talon_db_k8s_operator.Examples.Cluster.{Cluster, in_memory, has_string, drop_string}
use talon_db_k8s_operator.Examples.Healthy.{in_memory_answers}

has_string-drop_string :
    (strings : List String) (s : String) → has_string (drop_string strings s) s ≡ false
has_string-drop_string [] s = refl
has_string-drop_string (t ∷ ts) s = elim (Bool-cases (t == s)) [
  | inl same ↦ rw same (has_string-drop_string ts s)
  | inr differ ↦ rw (differ, differ) (has_string-drop_string ts s)
]

in_memory-Releases : Releases in_memory
in_memory-Releases = record {
  removed = λ finalizers. has_string-drop_string finalizers finalizer_name;
  update = λ inst w. (inst, refl, inr (inst, refl, refl, refl));
}

abbrev leaving : TlnDb platform
leaving = record standalone {
  meta = record standalone.meta { finalizers = finalizer_name ∷ []; deletion_timestamp = some 7 };
}

abbrev last_days : Cluster
last_days = record { instance_stored = leaving; sets = []; services = [] }

leaving_is_ours : in_memory.contains_finalizer leaving.meta.finalizers finalizer_name ≡ true
unfolding string_dec
leaving_is_ours = refl

reconcile-finishes_example :
    ((reconcile in_memory (key_of leaving.meta) last_days).result ≡ ok done)
    × IsFinished in_memory
        (key_of leaving.meta)
        (reconcile in_memory (key_of leaving.meta) last_days).world
reconcile-finishes_example =
    reconcile-finishes in_memory in_memory_answers in_memory-Releases last_days last_days leaving
      refl refl leaving_is_ours
