-- ===== src/DeepCopy/Copyable.antt =====
-- A Go type with its deep copy: what its values mean to the rest of the model, the addresses of the
-- cells that they own, and what a right copy is.
use mathlib.Core.Option
use talon_db_k8s_operator.Base.{
  ℕ, String, Bool, true, false, ◌≡◌, Option, none, some, List, [], ◌∷◌, ◌++◌, map,
}
use talon_db_k8s_operator.Base.Dict.{Dict}
use talon_db_k8s_operator.DeepCopy.Alloc.{
  Ref, Pointer, Slice, GoMap, Alloc, pure, copy_items, copy_pointer, copy_present, copy_slice,
  copy_map,
}
use talon_db_k8s_operator.DeepCopy.Fresh.{Fresh}

pub record Copyable (V : Type 0) : Type 1 where
  pub Carrier : Type 0
  pub value : Carrier → V
  pub addresses : Carrier → List ℕ
  -- which pointers, slices and maps are nil, in their order
  pub nils : Carrier → List Bool
  pub copy : Carrier → Alloc Carrier

-- What comes out of a copy of `x` that started at `n`: the same value, nil where it was nil, in
-- cells that were all free.
pub record Copied {V : Type 0} (c : Copyable V) (x : c.Carrier) (n : ℕ) (r : c.Carrier × ℕ)
    : Type 0 where
  pub same : c.value r.0 ≡ c.value x
  pub alike : c.nils r.0 ≡ c.nils x
  pub fresh : Fresh n r.1 (c.addresses r.0)

pub record Lawful {V : Type 0} (c : Copyable V) : Type 0 where
  pub at : (x : c.Carrier) (n : ℕ) → Copied c x n (c.copy x n)

abbrev pub concat : {A : Type 0} → List (List A) → List A
concat [] = []
concat (xs ∷ xss) = xs ++ concat xss

abbrev value_of : {A B : Type 0} → B → (A → B) → Option (Ref A) → B
value_of absent f none = absent
value_of absent f (some r) = f r.target

abbrev owned_by : {A : Type 0} → (A → List ℕ) → Option (Ref A) → List ℕ
owned_by f none = []
owned_by f (some r) = r.address ∷ f r.target

abbrev owned_if : {A : Type 0} → (A → List ℕ) → Option A → List ℕ
owned_if f none = []
owned_if f (some x) = f x

abbrev nils_in : {A : Type 0} → (A → List Bool) → Option (Ref A) → List Bool
nils_in f none = true ∷ []
nils_in f (some r) = false ∷ f r.target

abbrev nils_if : {A : Type 0} → (A → List Bool) → Option A → List Bool
nils_if f none = true ∷ []
nils_if f (some x) = false ∷ f x

-- A type with no pointer in it: an assignment copies it.
abbrev pub plain : (A : Type 0) → Copyable A
plain A = record { Carrier = A; value = λ x. x; addresses = λ _. []; nils = λ _. []; copy = pure }

module _ {V : Type 0} (c : Copyable V) where
  abbrev pub pointer_to : Copyable (Option V)
  pointer_to = record {
    Carrier = Pointer c.Carrier;
    value = value_of none (λ x. some (c.value x));
    addresses = owned_by c.addresses;
    nils = nils_in c.nils;
    copy = copy_pointer c.copy;
  }

  -- a pointer whose own copy is not looked into
  abbrev pub present : Copyable (Option V)
  present = record {
    Carrier = Option c.Carrier;
    value = Option.map c.value;
    addresses = owned_if c.addresses;
    nils = nils_if c.nils;
    copy = copy_present c.copy;
  }

  abbrev pub items_of : Copyable (List V)
  items_of = record {
    Carrier = List c.Carrier;
    value = map c.value;
    addresses = λ xs. concat (map c.addresses xs);
    nils = λ xs. concat (map c.nils xs);
    copy = copy_items c.copy;
  }

  -- The rest of the model has one empty list for nil and for a slice of no elements.
  abbrev pub slice_of : Copyable (List V)
  slice_of = record {
    Carrier = Slice c.Carrier;
    value = value_of [] (map c.value);
    addresses = owned_by (λ xs. concat (map c.addresses xs));
    nils = nils_in (λ xs. concat (map c.nils xs));
    copy = copy_slice c.copy;
  }

abbrev pub string_map : Copyable (Dict String)
string_map = record {
  Carrier = GoMap;
  value = value_of [] (λ m. m.entries);
  addresses = owned_by (λ _. []);
  nils = nils_in (λ _. []);
  copy = copy_map;
}
