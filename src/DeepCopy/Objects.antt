-- ===== src/DeepCopy/Objects.antt =====
-- api/v1alpha1/zz_generated.deepcopy.go: `DeepCopyObject`, by which the API machinery copies what it
-- knows only as a `runtime.Object`.
use talon_db_k8s_operator.Base.{ℕ, ◌≡◌, refl, Bool, true, false, Option, none, some, List}
use talon_db_k8s_operator.Kube.{Platform}
use talon_db_k8s_operator.Api.{TlnDb, RootType, tln_db_type, tln_db_list_type}
use talon_db_k8s_operator.DeepCopy.Alloc.{Pointer, Alloc, pure, ◌>>=◌, copy_pointer, new}
use talon_db_k8s_operator.DeepCopy.Copyable.{pointer_to}
use talon_db_k8s_operator.DeepCopy.Foreign.{Foreign, LawfulForeign}
use talon_db_k8s_operator.DeepCopy.Fresh.{Fresh}
use talon_db_k8s_operator.DeepCopy.Laws.{Lawful-pointer_to}
use talon_db_k8s_operator.DeepCopy.Resource.{
  TypeMeta, TlnDbStruct, TlnDbListStruct, TlnDbList, tln_db, tln_db_list, deep_copy_tln_db,
  deep_copy_tln_db_list,
}
use talon_db_k8s_operator.DeepCopy.Structs.Resource.{Lawful-tln_db, Lawful-tln_db_list}

module _ {K : Platform} (F : Foreign K) where
  -- A `runtime.Object` that is not nil: a pointer with its type. The pointer itself may be nil.
  pub data Object : Type 0 where
    tln_db_object : Pointer (TlnDbStruct F) → Object
    tln_db_list_object : Pointer (TlnDbListStruct F) → Object

  -- `if c != nil { return c }; return nil`
  abbrev as_object : {A : Type 0} → (Pointer A → Object) → Pointer A → Option Object
  as_object wrap none = none
  as_object wrap (some r) = some (wrap (some r))

  unfoldable pub deep_copy_object_tln_db : Pointer (TlnDbStruct F) → Alloc (Option Object)
  deep_copy_object_tln_db source = do
    c ← deep_copy_tln_db F source
    pure (as_object tln_db_object c)

  unfoldable pub deep_copy_object_tln_db_list : Pointer (TlnDbListStruct F) → Alloc (Option Object)
  deep_copy_object_tln_db_list source = do
    c ← deep_copy_tln_db_list F source
    pure (as_object tln_db_list_object c)

  -- The method of the interface: the type of the object says which one runs.
  unfoldable pub deep_copy_object : Object → Alloc (Option Object)
  deep_copy_object (tln_db_object p) = deep_copy_object_tln_db p
  deep_copy_object (tln_db_list_object p) = deep_copy_object_tln_db_list p

  abbrev pub type_of : Object → RootType
  type_of (tln_db_object _) = tln_db_type
  type_of (tln_db_list_object _) = tln_db_list_type

  -- What the objects of a type mean.
  abbrev pub RootValue : RootType → Type 0
  RootValue tln_db_type = TypeMeta × TlnDb K
  RootValue tln_db_list_type = TlnDbList F

  abbrev pub content : Object → (t : RootType) × Option (RootValue t)
  content (tln_db_object p) = (tln_db_type, (pointer_to (tln_db F)).value p)
  content (tln_db_list_object p) = (tln_db_list_type, (pointer_to (tln_db_list F)).value p)

  abbrev pub root_addresses : Object → List ℕ
  root_addresses (tln_db_object p) = (pointer_to (tln_db F)).addresses p
  root_addresses (tln_db_list_object p) = (pointer_to (tln_db_list F)).addresses p

  abbrev pub root_nils : Object → List Bool
  root_nils (tln_db_object p) = (pointer_to (tln_db F)).nils p
  root_nils (tln_db_list_object p) = (pointer_to (tln_db_list F)).nils p

  abbrev pub holds_nil : Object → Bool
  holds_nil (tln_db_object none) = true
  holds_nil (tln_db_list_object none) = true
  holds_nil _ = false

  -- What a copy of `o` that starts at `n` has to answer.
  abbrev pub Answers : Object → ℕ → Option Object × ℕ → Type 0
  Answers o n (none, n') = (holds_nil o ≡ true) × (n' ≡ n)
  Answers o n (some c, n') =
      (holds_nil o ≡ false)
      × (holds_nil c ≡ false)
      × (type_of c ≡ type_of o)
      × (content c ≡ content o)
      × (root_nils c ≡ root_nils o)
      × Fresh n n' (root_addresses c)

module _ {K : Platform} {F : Foreign K} (L : LawfulForeign F) where
  -- Given that the copies of the Kubernetes types are right: `DeepCopyObject` answers a nil
  -- interface exactly if the object holds a nil pointer, and then takes no memory; else it answers
  -- an object of the same type, with a pointer that is not nil, the same value with nil in the same
  -- places, and cells that were all free.
  pub deep_copy_object-Answers : (o : Object F) (n : ℕ) → Answers F o n (deep_copy_object F o n)
  unfolding deep_copy_object deep_copy_object_tln_db deep_copy_object_tln_db_list deep_copy_tln_db
      deep_copy_tln_db_list copy_pointer pure ◌>>=◌ new
  deep_copy_object-Answers (tln_db_object none) n = (refl, refl)
  deep_copy_object-Answers (tln_db_object (some r)) n =
      let copied = (Lawful-pointer_to (Lawful-tln_db L)).at (some r) n in
      (refl, refl, refl, (λ i. (tln_db_type, copied.same i)), copied.alike, copied.fresh)
  deep_copy_object-Answers (tln_db_list_object none) n = (refl, refl)
  deep_copy_object-Answers (tln_db_list_object (some r)) n =
      let copied = (Lawful-pointer_to (Lawful-tln_db_list L)).at (some r) n in
      (refl, refl, refl, (λ i. (tln_db_list_type, copied.same i)), copied.alike, copied.fresh)
