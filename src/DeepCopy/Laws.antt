-- ===== src/DeepCopy/Laws.antt =====
-- Copies of pointers, slices and maps are right, and a struct that is copied field by field is.
use mathlib.Core.List.{append_assoc, append-nil}
use talon_db_k8s_operator.Base.{ℕ, suc, ◌≡◌, refl, sym, false, none, some, List, [], ◌∷◌, ◌++◌}
use talon_db_k8s_operator.Base.Dict.{insert_all-[]}
use talon_db_k8s_operator.DeepCopy.Alloc.{
  GoMap, Alloc, pure, ◌>>=◌, new, copy_items, copy_pointer, copy_present, copy_slice, copy_map,
}
use talon_db_k8s_operator.DeepCopy.Fresh.{Fresh, Fresh-[], Fresh-append, Fresh-cons}
use talon_db_k8s_operator.DeepCopy.Copyable.{
  Copyable, Copied, Lawful, concat, plain, pointer_to, present, items_of, slice_of, string_map,
}

-- A step that makes the rest of a struct, after fields with these addresses.
pub record Built {V : Type 0} (c : Copyable V) (z : c.Carrier) (done : List (List ℕ))
    (m : Alloc c.Carrier) : Type 0 where
  pub at : (first n : ℕ) → Fresh first n (concat done) → Copied c z first (m n)

concat-snoc : (done : List (List ℕ)) (xs : List ℕ) → concat (done ++ (xs ∷ [])) ≡ concat done ++ xs
concat-snoc [] xs = append-nil xs
concat-snoc (ys ∷ done) xs = rw (concat-snoc done xs) (sym (append_assoc ys (concat done) xs))

Fresh-snoc :
    {first n n' : ℕ} {xs : List ℕ} (done : List (List ℕ))
    → Fresh first n (concat done)
    → Fresh n n' xs
    → Fresh first n' (concat (done ++ (xs ∷ [])))
Fresh-snoc {xs} done f g = rw (concat-snoc done xs) (Fresh-append f g)

module _ {V : Type 0} {c : Copyable V} where
  pub Lawful-Built : ((x : c.Carrier) → Built c x [] (c.copy x)) → Lawful c
  Lawful-Built b = record { at = λ x n. (b x).at n n (Fresh-[] n) }

  pub Built-pure :
      {z : c.Carrier} {done : List (List ℕ)} (x : c.Carrier)
      → c.value x ≡ c.value z
      → c.nils x ≡ c.nils z
      → c.addresses x ≡ concat done
      → Built c z done (pure x)
  unfolding pure
  Built-pure x same alike owned = record {
    at = λ first n f. record { same = same; alike = alike; fresh = rw owned f };
  }

  -- The copy of one field, and the rest of the struct after it.
  pub Built-bind :
      {W : Type 0} {d : Copyable W} {z : c.Carrier} {done : List (List ℕ)}
      {f : d.Carrier → Alloc c.Carrier} (x : d.Carrier)
      → Lawful d
      → ((y : d.Carrier)
          → d.value y ≡ d.value x
          → d.nils y ≡ d.nils x
          → Built c z (done ++ (d.addresses y ∷ [])) (f y))
      → Built c z done (d.copy x >>= f)
  unfolding ◌>>=◌
  Built-bind {d} {done} x law rest = record {
    at = λ first n f.
        let copied = law.at x n in
        (rest (d.copy x n).0 copied.same copied.alike).at first (d.copy x n).1
          (Fresh-snoc done f copied.fresh);
  }

pub Lawful-plain : (A : Type 0) → Lawful (plain A)
unfolding pure
Lawful-plain A = record { at = λ x n. record { same = refl; alike = refl; fresh = Fresh-[] n } }

module _ {V : Type 0} {c : Copyable V} (law : Lawful c) where
  Copied-items : (xs : List c.Carrier) (n : ℕ) → Copied (items_of c) xs n (copy_items c.copy xs n)
  unfolding copy_items pure ◌>>=◌
  Copied-items [] n = record { same = refl; alike = refl; fresh = Fresh-[] n }
  Copied-items (x ∷ xs) n =
      let here = law.at x n in
      let later = Copied-items xs (c.copy x n).1 in
      record {
        same = λ i. here.same i ∷ later.same i;
        alike = λ i. here.alike i ++ later.alike i;
        fresh = Fresh-append here.fresh later.fresh;
      }

  pub Lawful-items_of : Lawful (items_of c)
  Lawful-items_of = record { at = Copied-items }

  Copied-pointer :
      (x : (pointer_to c).Carrier) (n : ℕ) → Copied (pointer_to c) x n (copy_pointer c.copy x n)
  unfolding copy_pointer pure ◌>>=◌ new
  Copied-pointer none n = record { same = refl; alike = refl; fresh = Fresh-[] n }
  Copied-pointer (some r) n =
      let copied = law.at r.target (suc n) in
      record {
        same = λ i. some (copied.same i);
        alike = λ i. false ∷ copied.alike i;
        fresh = Fresh-cons copied.fresh;
      }

  pub Lawful-pointer_to : Lawful (pointer_to c)
  Lawful-pointer_to = record { at = Copied-pointer }

  Copied-present :
      (x : (present c).Carrier) (n : ℕ) → Copied (present c) x n (copy_present c.copy x n)
  unfolding copy_present pure ◌>>=◌
  Copied-present none n = record { same = refl; alike = refl; fresh = Fresh-[] n }
  Copied-present (some x) n =
      let copied = law.at x n in
      record {
        same = λ i. some (copied.same i);
        alike = λ i. false ∷ copied.alike i;
        fresh = copied.fresh;
      }

  pub Lawful-present : Lawful (present c)
  Lawful-present = record { at = Copied-present }

  Copied-slice :
      (x : (slice_of c).Carrier) (n : ℕ) → Copied (slice_of c) x n (copy_slice c.copy x n)
  unfolding copy_slice pure ◌>>=◌ new
  Copied-slice none n = record { same = refl; alike = refl; fresh = Fresh-[] n }
  Copied-slice (some r) n =
      let copied = Copied-items r.target (suc n) in
      record {
        same = copied.same;
        alike = λ i. false ∷ copied.alike i;
        fresh = Fresh-cons copied.fresh;
      }

  pub Lawful-slice_of : Lawful (slice_of c)
  Lawful-slice_of = record { at = Copied-slice }

Copied-map : (x : GoMap) (n : ℕ) → Copied string_map x n (copy_map x n)
unfolding copy_map pure ◌>>=◌ new
Copied-map none n = record { same = refl; alike = refl; fresh = Fresh-[] n }
Copied-map (some r) n = record {
  same = insert_all-[] r.target.entries r.target.nodup;
  alike = refl;
  fresh = Fresh-cons (Fresh-[] (suc n));
}

pub Lawful-string_map : Lawful string_map
Lawful-string_map = record { at = Copied-map }
