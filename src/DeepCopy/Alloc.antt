-- ===== src/DeepCopy/Alloc.antt =====
-- What the generated copies of api/v1alpha1 work on: Go values with the addresses of the cells that
-- they point to, and the loops that copy a pointer, a slice and a map.
use talon_db_k8s_operator.Base.{ℕ, suc, String, Option, none, some, List, [], ◌∷◌}
use talon_db_k8s_operator.Base.Dict.{Dict, NodupKeys, insert_all, insert_all-NodupKeys}

-- A cell of the memory: its address, and what lies there.
pub record Ref (A : Type 0) : Type 0 where
  pub address : ℕ
  pub target : A

-- `none` is nil.
abbrev pub Pointer : Type 0 → Type 0
Pointer A = Option (Ref A)

-- A slice shows its backing array; one of no elements that is not nil differs from nil.
abbrev pub Slice : Type 0 → Type 0
Slice A = Option (Ref (List A))

-- The entries of a Go map: each key once.
pub record Entries : Type 0 where
  pub entries : Dict String
  pub nodup : NodupKeys entries

abbrev pub GoMap : Type 0
GoMap = Option (Ref Entries)

-- The state is the first address that is not in use yet: those from it on are free.
abbrev pub Alloc : Type 0 → Type 0
Alloc A = ℕ → A × ℕ

module _ {A : Type 0} where
  unfoldable pub pure : A → Alloc A
  pure a n = (a, n)

  infixl 5 ◌>>=◌
  unfoldable pub ◌>>=◌ : {B : Type 0} → Alloc A → (A → Alloc B) → Alloc B
  ◌>>=◌ m f n = let (a, n') = m n in f a n'

-- The cell that `new` or `make` gives: nothing else points to it.
unfoldable pub new : Alloc ℕ
new n = (n, suc n)

-- `for i := range in { in[i].DeepCopyInto(&out[i]) }`
unfoldable pub copy_items : {A : Type 0} → (A → Alloc A) → List A → Alloc (List A)
copy_items copy [] = pure []
copy_items copy (x ∷ xs) = do y ← copy x; ys ← copy_items copy xs; pure (y ∷ ys)

-- `if in != nil { *out = new(T); in.DeepCopyInto(*out) }`, and with `pure` for `**out = **in`
unfoldable pub copy_pointer : {A : Type 0} → (A → Alloc A) → Pointer A → Alloc (Pointer A)
copy_pointer copy none = pure none
copy_pointer copy (some r) = do
  address ← new
  target ← copy r.target
  pure (some (record { address = address; target = target }))

-- `if in != nil { *out = (*in).DeepCopy() }`
unfoldable pub copy_present : {A : Type 0} → (A → Alloc A) → Option A → Alloc (Option A)
copy_present copy none = pure none
copy_present copy (some x) = do y ← copy x; pure (some y)

-- `if in != nil { *out = make([]T, len(in)); … }`; with `pure` for `copy(*out, *in)`. An empty slice
-- that is not nil gets a new address here too, where Go may share one among all that are empty.
unfoldable pub copy_slice : {A : Type 0} → (A → Alloc A) → Slice A → Alloc (Slice A)
copy_slice copy none = pure none
copy_slice copy (some r) = do
  address ← new
  target ← copy_items copy r.target
  pure (some (record { address = address; target = target }))

abbrev insert_entries : Entries → Entries
insert_entries m = record {
  entries = insert_all m.entries [];
  nodup = insert_all-NodupKeys m.entries [] tt;
}

-- `*out = make(map[string]string, len(in)); for key, val := range in { (*out)[key] = val }`
unfoldable pub copy_map : GoMap → Alloc GoMap
copy_map none = pure none
copy_map (some r) = do
  address ← new
  pure (some (record { address = address; target = insert_entries r.target }))
