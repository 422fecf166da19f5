-- ===== src/Resources/Hash/Sorted.antt =====
-- internal/resources/common.go, internal/controller/tlndb_controller.go: what `sort.Strings` gives.
use Prim.Native.Nat.{Ordering}
use Prim.Native.String.{compare}
use text.Mathlib.TextEquality.{path_by_compare}
use mathlib.Core.List.Perm
use mathlib.Core.List.{Perm}
use talon_db_k8s_operator.Base.{String, ◌≡◌, ◌≢◌, List, [], ◌∷◌, arith}
use talon_db_k8s_operator.Base.Each.{EachIs, EachIs-map}
use talon_db_k8s_operator.Base.Order.{compare_flip, compare_trans}
use talon_db_k8s_operator.Resources.Hash.{insert_sorted, sort_strings}

-- The first text does not come after the second in the order of their bytes.
abbrev pub InOrder : String → String → Type 0
InOrder s t = compare s t ≢ Ordering.gt

-- No text comes before an earlier one.
abbrev pub IsSorted : List String → Type 0
IsSorted [] = Unit
IsSorted (s ∷ ss) = EachIs (InOrder s) ss × IsSorted ss

InOrder-trans : (s t u : String) → InOrder s t → InOrder t u → InOrder s u
InOrder-trans s t u h k e = ground (
  arith,
  compare_trans s t u,
  compare_flip s u,
  compare_flip s t,
  compare_flip t u,
  path_by_compare s t,
  path_by_compare t u,
)

pub EachIs-insert :
    (P : String → Type 0) (x : String) (xs : List String)
    → P x
    → EachIs P xs
    → EachIs P (insert_sorted x xs)
unfolding insert_sorted
EachIs-insert P x [] h hs = (h, tt)
EachIs-insert P x (y ∷ ys) h (hy, hs) = ground (arith, h, hy, hs, EachIs-insert P x ys h hs)

pub EachIs-sort :
    (P : String → Type 0) (xs : List String) → EachIs P xs → EachIs P (sort_strings xs)
unfolding sort_strings
EachIs-sort P [] h = tt
EachIs-sort P (x ∷ xs) (h, hs) = EachIs-insert P x (sort_strings xs) h (EachIs-sort P xs hs)

after_head :
    (s t : String) (ts : List String)
    → InOrder s t
    → EachIs (InOrder t) ts
    → EachIs (InOrder s) (t ∷ ts)
after_head s t ts h hs =
    (h, EachIs-map (InOrder t) (InOrder s) ts (λ u k. InOrder-trans s t u h k) hs)

flipped : (s t : String) → compare s t ≡ Ordering.gt → InOrder t s
flipped s t h e = ground (arith, compare_flip s t)

insert_sorted-IsSorted :
    (s : String) (ss : List String) → IsSorted ss → IsSorted (insert_sorted s ss)
unfolding insert_sorted
insert_sorted-IsSorted s [] h = (tt, tt)
insert_sorted-IsSorted s (t ∷ ts) (h, hs) = ground (
  arith,
  h,
  hs,
  flipped s t,
  after_head s t ts,
  EachIs-insert (InOrder t) s ts,
  insert_sorted-IsSorted s ts hs,
)

insert_sorted-perm : (s : String) (ss : List String) → Perm (insert_sorted s ss) (s ∷ ss)
unfolding insert_sorted
insert_sorted-perm s [] = Perm.rfl
insert_sorted-perm s (t ∷ ts) =
    elim (compare s t)
      as (λ o.
        Perm (elim o [ Ordering.gt ↦ t ∷ insert_sorted s ts | _ ↦ s ∷ t ∷ ts ]) (s ∷ t ∷ ts)) [
          | Ordering.gt ↦ Perm.trans (Perm.cons t (insert_sorted-perm s ts)) (Perm.swap s t ts)
          | _ ↦ Perm.rfl
        ]

sort_strings-IsSorted : (ss : List String) → IsSorted (sort_strings ss)
unfolding sort_strings
sort_strings-IsSorted [] = tt
sort_strings-IsSorted (s ∷ ss) =
    insert_sorted-IsSorted s (sort_strings ss) (sort_strings-IsSorted ss)

sort_strings-perm : (ss : List String) → Perm (sort_strings ss) ss
unfolding sort_strings
sort_strings-perm [] = Perm.rfl
sort_strings-perm (s ∷ ss) =
    Perm.trans (insert_sorted-perm s (sort_strings ss)) (Perm.cons s (sort_strings-perm ss))

-- Sorting puts the same texts, each as often as before, into the order of their bytes.
pub sort_strings-sorts : (ss : List String) → IsSorted (sort_strings ss) × Perm (sort_strings ss) ss
sort_strings-sorts ss = (sort_strings-IsSorted ss, sort_strings-perm ss)
