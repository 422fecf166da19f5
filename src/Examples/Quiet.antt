-- ===== src/Examples/Quiet.antt =====
-- The cluster in memory is quiet: nothing but the reconciliation writes to it.
use talon_db_k8s_operator.Base.{
  ◌≡◌, refl, ap, ◌∙◌, sym, inl, inr, Option, none, some, true, List, [], ◌∷◌, arith, Bool-cases,
  ==_iff,
}
use talon_db_k8s_operator.Base.Int.{ℤ, pos, negsuc}
use talon_db_k8s_operator.Kube.{StatefulSet, ObjectMeta}
use talon_db_k8s_operator.Resources.StatefulSet.{build_stateful_set, build_stateful_set_with}
use talon_db_k8s_operator.Controller.Exec.{ok}
use talon_db_k8s_operator.Controller.Environment.{Key, Session}
use talon_db_k8s_operator.Controller.Apply.{
  stateful_set_needs_update, key_of, create_or_update_stateful_set,
}
use talon_db_k8s_operator.Controller.Calls.{steps}
use talon_db_k8s_operator.Controller.Converge.Quiet.{QuietSets, ReadBack}
use talon_db_k8s_operator.Controller.Converge.Ignored.{stateful_set_needs_update-ignores}
use talon_db_k8s_operator.Controller.Converge.{create_or_update_stateful_set-settles}
use talon_db_k8s_operator.Examples.Fixture.{platform, standalone}
use talon_db_k8s_operator.Examples.Cluster.{in_memory, is_at, find_set, equal_counts}

equal_counts_refl : (n : Option ℤ) → equal_counts n n ≡ true
equal_counts_refl none = refl
equal_counts_refl (some (pos n)) = ground arith
equal_counts_refl (some (negsuc n)) = ground arith

pub is_at_refl : (meta : ObjectMeta platform) → is_at (key_of meta) meta ≡ true
is_at_refl meta =
    rw ((==_iff meta.namespace meta.namespace).1 refl, (==_iff meta.name meta.name).1 refl) refl

pub key_of-is_at :
    (key : Key) (meta : ObjectMeta platform) → is_at key meta ≡ true → key_of meta ≡ key
key_of-is_at key meta h =
    ground (arith, ==_iff meta.namespace key.namespace, ==_iff meta.name key.name)

key_of-found :
    (key : Key) (sets : List (StatefulSet platform)) (found : StatefulSet platform)
    → find_set key sets ≡ ok found
    → key_of found.meta ≡ key
key_of-found key [] found h = ground arith
key_of-found key (set ∷ sets) found h = elim (Bool-cases (is_at key set.meta)) [
  | inl here ↦
      let same : set ≡ found = ground (arith, h, here) in
      ap (λ set. key_of set.meta) (sym same) ∙ key_of-is_at key set.meta here
  | inr later ↦ key_of-found key sets found (ground (arith, h, later))
]

found_first :
    (set : StatefulSet platform) (sets : List (StatefulSet platform))
    → find_set (key_of set.meta) (set ∷ sets) ≡ ok set
found_first set sets = rw (is_at_refl set.meta) refl

same_set : (set : StatefulSet platform) → ReadBack set set
same_set set = record { replicas = refl; annotations = refl; images_same = refl }

pub quiet_in_memory : QuietSets in_memory
quiet_in_memory = record {
  equal_replicas_refl = equal_counts_refl;
  read_key = λ key set w h. key_of-found key w.sets set h;
  read_again = λ key w. refl;
  after_create = λ set w h. (set, found_first set w.sets, same_set set);
  after_update = λ set w h. (set, found_first set w.sets, same_set set);
}

abbrev empty_session : Session in_memory
empty_session = record {
  world = record { instance_stored = standalone; sets = []; services = [] };
  instance_in_memory = standalone;
  events = [];
}

abbrev desired_set : StatefulSet platform
desired_set = build_stateful_set standalone "h"

abbrev owned_meta : ObjectMeta platform
owned_meta = record desired_set.meta { owner_references = "orders" ∷ [] }

first_run_succeeds : (create_or_update_stateful_set in_memory desired_set empty_session).0 ≡ ok tt
unfolding create_or_update_stateful_set steps
first_run_succeeds = refl

create_or_update_stateful_set-settles_example :
    create_or_update_stateful_set in_memory desired_set
      (create_or_update_stateful_set in_memory desired_set empty_session).1
    ≡ (
      ok tt,
      record (create_or_update_stateful_set in_memory desired_set empty_session).1 {
        world =
            (in_memory.stateful_sets.get
              (key_of owned_meta)
              (create_or_update_stateful_set in_memory desired_set empty_session).1.world).1;
      },
    )
create_or_update_stateful_set-settles_example =
    create_or_update_stateful_set-settles in_memory quiet_in_memory desired_set empty_session
      owned_meta refl first_run_succeeds

-- The desired set of an instance whose pods shall have one more environment variable.
abbrev with_env : StatefulSet platform
with_env =
    build_stateful_set
      (record standalone {
        spec = record standalone.spec {
          env = record { name = "TLNDB_DEBUG"; value = "1"; value_from = none } ∷ [];
        };
      })
      "h"

differ_in_env : ReadBack with_env desired_set
unfolding build_stateful_set build_stateful_set_with
differ_in_env = record { replicas = refl; annotations = refl; images_same = refl }

stateful_set_needs_update-ignores_example :
    stateful_set_needs_update in_memory desired_set with_env
    ≡ stateful_set_needs_update in_memory desired_set desired_set
stateful_set_needs_update-ignores_example =
    stateful_set_needs_update-ignores in_memory desired_set with_env desired_set differ_in_env
