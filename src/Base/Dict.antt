-- ===== src/Base/Dict.antt =====
-- Go's `map[string]V` as a list of entries. A write to a key that is present replaces its value in
-- place, so a map has each key once. Go iterates over a map in no fixed order: `NodupKeys` and
-- `lookup` are what the theorems about iteration speak of.
use Prim.Native.String.{String}
use mathlib.Core.Path.{◌≡◌, refl, sym, ap, ◌∙◌}
use mathlib.Core.Option.{Option, none, some}
use mathlib.Core.List.{List, [], ◌∷◌, ◌++◌, append_assoc, append-nil}
use native.Mathlib.Omega.{arith}
use talon_db_k8s_operator.Base.Tests.{◌==◌, if◌then◌else◌}

abbrev pub Dict {ℓ} : Type ℓ → Type ℓ
Dict V = List (String × V)

module _ {ℓ} {V : Type ℓ} where
  unfoldable pub lookup : String → Dict V → Option V
  lookup k [] = none
  lookup k ((j, v) ∷ m) = if k == j then some v else lookup k m

  -- `m[k] = v`
  unfoldable pub insert : String → V → Dict V → Dict V
  insert k v [] = (k, v) ∷ []
  insert k v ((j, w) ∷ m) = if k == j then (k, v) ∷ m else (j, w) ∷ insert k v m

  -- `for k, v := range src { dst[k] = v }`
  unfoldable pub insert_all : Dict V → Dict V → Dict V
  insert_all [] dst = dst
  insert_all ((k, v) ∷ src) dst = insert_all src (insert k v dst)

  abbrev pub NodupKeys : Dict V → Type ℓ
  NodupKeys [] = Unit
  NodupKeys ((k, _) ∷ m) = (lookup k m ≡ none) × NodupKeys m

  pub lookup-insert :
      (j k : String) (v : V) (m : Dict V)
      → lookup j (insert k v m) ≡ (if j == k then some v else lookup j m)
  unfolding lookup insert
  lookup-insert j k v [] = refl
  lookup-insert j k v (_ ∷ m) = ground (arith, lookup-insert j k v m)

  pub insert-NodupKeys : (k : String) (v : V) (m : Dict V) → NodupKeys m → NodupKeys (insert k v m)
  unfolding lookup insert
  insert-NodupKeys k v [] _ = (refl, tt)
  insert-NodupKeys k v ((j, _) ∷ m) (fresh, u) =
      ground (arith, insert-NodupKeys k v m u, lookup-insert j k v m)

  -- What a copy loop writes: the source's value where it has the key, else the old one.
  abbrev pub or_lookup : Option V → Option V → Option V
  or_lookup none old = old
  or_lookup (some v) _ = some v

  pub lookup-insert_all :
      (j : String) (src dst : Dict V)
      → NodupKeys src
      → lookup j (insert_all src dst) ≡ or_lookup (lookup j src) (lookup j dst)
  unfolding insert_all lookup
  lookup-insert_all j [] dst _ = refl
  lookup-insert_all j ((k, v) ∷ src) dst (fresh, u) =
      ground (arith, lookup-insert_all j src (insert k v dst) u, lookup-insert j k v dst)

  pub insert_all-NodupKeys : (src dst : Dict V) → NodupKeys dst → NodupKeys (insert_all src dst)
  unfolding insert_all
  insert_all-NodupKeys [] dst u = u
  insert_all-NodupKeys ((k, v) ∷ src) dst u =
      insert_all-NodupKeys src (insert k v dst) (insert-NodupKeys k v dst u)

  insert-absent :
      (k : String) (v : V) (dst : Dict V)
      → lookup k dst ≡ none
      → insert k v dst ≡ dst ++ ((k, v) ∷ [])
  unfolding insert lookup
  insert-absent k v [] h = refl
  insert-absent k v ((j, w) ∷ dst) h = ground (arith, insert-absent k v dst)

  abbrev Absent : Dict V → Dict V → Type ℓ
  Absent [] dst = Unit
  Absent ((k, _) ∷ src) dst = (lookup k dst ≡ none) × Absent src dst

  insert-Absent :
      (k : String) (v : V) (src dst : Dict V)
      → lookup k src ≡ none
      → Absent src dst
      → Absent src (insert k v dst)
  unfolding lookup
  insert-Absent k v [] dst _ _ = tt
  insert-Absent k v ((j, w) ∷ src) dst h (out, outs) =
      (ground (arith, lookup-insert j k v dst), insert-Absent k v src dst (ground arith) outs)

  insert_all-append :
      (src dst : Dict V) → NodupKeys src → Absent src dst → insert_all src dst ≡ dst ++ src
  unfolding insert_all
  insert_all-append [] dst _ _ = sym (append-nil dst)
  insert_all-append ((k, v) ∷ src) dst (fresh, u) (out, outs) =
      insert_all-append src (insert k v dst) u (insert-Absent k v src dst fresh outs)
      ∙ ap (λ m. m ++ src) (insert-absent k v dst out)
      ∙ append_assoc dst ((k, v) ∷ []) src

  Absent-[] : (src : Dict V) → Absent src []
  unfolding lookup
  Absent-[] [] = tt
  Absent-[] (_ ∷ src) = (refl, Absent-[] src)

  -- The copy loop into a new map writes the same entries.
  pub insert_all-[] : (src : Dict V) → NodupKeys src → insert_all src [] ≡ src
  insert_all-[] src u = insert_all-append src [] u (Absent-[] src)
