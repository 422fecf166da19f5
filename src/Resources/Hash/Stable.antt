-- ===== src/Resources/Hash/Stable.antt =====
-- internal/resources/common.go: `HashSecretData` does not depend on the order in which Go iterates
-- over the map.
use Prim.Native.Nat.{Ordering}
use Prim.Native.String.{compare}
use text.Mathlib.TextEquality.{path_by_compare}
use text.Mathlib.TextLemmas.{append_assoc}
use text.Mathlib.TextPositions.{compare_refl}
use mathlib.Core.Logic.{∥∥₁_elim}
use mathlib.Core.HLevel.{hedberg}
use mathlib.Core.List.{Perm, Permᴰ}
use talon_db_k8s_operator.Base.{
  String, ◌<>◌, ◌≡◌, refl, ap, sym, ◌∙◌, none, List, [], ◌∷◌, arith, false, string_dec, ◌==◌,
  ==_iff,
}
use talon_db_k8s_operator.Base.Dict.{Dict, lookup, NodupKeys}
use talon_db_k8s_operator.Base.Order.{compare_flip, compare_unflip, compare_trans}
use talon_db_k8s_operator.Kube.{Platform}
use talon_db_k8s_operator.Resources.Hash.{
  insert_sorted, sort_strings, keys, hash_input, hash_text, hash_string_data,
}

insert_sorted_comm :
    (a b : String) (ks : List String)
    → insert_sorted a (insert_sorted b ks) ≡ insert_sorted b (insert_sorted a ks)
unfolding insert_sorted
insert_sorted_comm a b [] = ground (
  arith,
  compare_flip a b,
  compare_flip b a,
  compare_unflip a b,
  compare_unflip b a,
  path_by_compare a b,
  path_by_compare b a,
)
insert_sorted_comm a b (j ∷ ks) = ground (
  arith,
  insert_sorted_comm a b ks,
  compare_flip a b,
  compare_flip b a,
  compare_unflip a b,
  compare_unflip b a,
  path_by_compare a b,
  compare_flip a j,
  compare_flip b j,
  compare_trans a j b,
  compare_trans b j a,
  path_by_compare a j,
  path_by_compare b j,
)

-- Each key has one entry in `n`, and every key reads the same in both.
abbrev SameMap : Dict String → Dict String → Type 0
SameMap m n = NodupKeys n × ((k : String) → lookup k m ≡ lookup k n)

same_after_cons :
    (k j : String) (v w : String) (m n : Dict String)
    → k ≡ j
    → v ≡ w
    → lookup k m ≡ none
    → SameMap m n
    → SameMap ((k, v) ∷ m) ((j, w) ∷ n)
unfolding lookup
same_after_cons k j v w m n same_key same_value fresh (unique, same) = (
  (sym (same j) ∙ ap (λ i. lookup i m) (sym same_key) ∙ fresh, unique),
  λ i. ground (arith, same i),
)

same_after_swap :
    (k j : String) (v w : String) (m : Dict String)
    → NodupKeys ((k, v) ∷ (j, w) ∷ m)
    → SameMap ((k, v) ∷ (j, w) ∷ m) ((j, w) ∷ (k, v) ∷ m)
unfolding lookup
same_after_swap k j v w m (fresh, (later, unique)) =
    ((ground arith, (ground arith, unique)), λ i. ground arith)

same_of_perm : (m n : Dict String) → Permᴰ m n → NodupKeys m → SameMap m n
same_of_perm [] [] Permᴰ.nil u = (tt, λ k. refl)
same_of_perm ((k, v) ∷ m) ((j, w) ∷ n) (Permᴰ.cons e d) (fresh, u) =
    same_after_cons k j v w m n (ap (λ p. p.0) e) (ap (λ p. p.1) e) fresh (same_of_perm m n d u)
same_of_perm m n (Permᴰ.swap {a = a} {b = b} {l = l} e₁ e₂) u =
    rw (sym e₂, sym e₁) (same_after_swap a.0 b.0 a.1 b.1 l u)
same_of_perm m n (Permᴰ.trans {l₂ = mid} d₁ d₂) u =
    let (u', first) = same_of_perm m mid d₁ u in
    let (u'', second) = same_of_perm mid n d₂ u' in (u'', λ k. first k ∙ second k)

sort_keys_of_perm : (m n : Dict String) → Permᴰ m n → sort_strings (keys m) ≡ sort_strings (keys n)
unfolding sort_strings
sort_keys_of_perm m n Permᴰ.nil = refl
sort_keys_of_perm m n (Permᴰ.cons {a = a} {b = b} {l₁ = l₁} {l₂ = l₂} e d) =
    rw (e, sort_keys_of_perm l₁ l₂ d) refl
sort_keys_of_perm m n (Permᴰ.swap {a = a} {b = b} {l = l} e₁ e₂) =
    rw (sym e₂, sym e₁) (insert_sorted_comm a.0 b.0 (sort_strings (keys l)))
sort_keys_of_perm m n (Permᴰ.trans {l₂ = mid} d₁ d₂) =
    sort_keys_of_perm m mid d₁ ∙ sort_keys_of_perm mid n d₂

hash_input_same :
    (ks : List String) (m n : Dict String)
    → ((k : String) → lookup k m ≡ lookup k n)
    → hash_input ks m ≡ hash_input ks n
unfolding hash_input
hash_input_same [] m n same = refl
hash_input_same (k ∷ ks) m n same = rw (same k, hash_input_same ks m n same) refl

hash_text_of_perm : (m n : Dict String) → Permᴰ m n → NodupKeys m → hash_text m ≡ hash_text n
unfolding hash_text
hash_text_of_perm m n d u =
    ap (λ ks. hash_input ks m) (sort_keys_of_perm m n d)
    ∙ hash_input_same (sort_strings (keys n)) m n (same_of_perm m n d u).1

-- Two lists of the same entries, each key once, have the same digest: it does not depend on the
-- order in which Go iterates over the map.
pub hash_string_data_perm :
    (K : Platform) (m n : Dict String)
    → Perm m n
    → NodupKeys m
    → hash_string_data K m ≡ hash_string_data K n
unfolding hash_string_data
hash_string_data_perm K m n same unique =
    ∥∥₁_elim same (hedberg string_dec _ _) λ d. ap K.sha256_hex (hash_text_of_perm m n d unique)

other_key : (k j : String) → compare k j ≡ Ordering.lt → (j == k) ≡ false
other_key k j less = ground (arith, ==_iff j k, compare_refl k, less)

sorted_pair : (k j : String) → compare k j ≡ Ordering.lt → sort_strings (k ∷ j ∷ []) ≡ k ∷ j ∷ []
unfolding sort_strings insert_sorted
sorted_pair k j less = ground (arith, less)

line_pair :
    (k j v w : String)
    → compare k j ≡ Ordering.lt
    → hash_input (k ∷ []) ((k, v <> ("\n" <> (j <> ("=" <> w)))) ∷ [])
      ≡ hash_input (k ∷ j ∷ []) ((k, v) ∷ (j, w) ∷ [])
unfolding hash_input lookup
line_pair k j v w less =
    rw ((==_iff k k).1 refl, (==_iff j j).1 refl, other_key k j less) (simp append_assoc)

-- What is hashed does not mark where a value ends: a value that holds a line break and another
-- entry's line has the digest of the two entries.
pub hash_string_data_ambiguous :
    (K : Platform) (k j v w : String)
    → compare k j ≡ Ordering.lt
    → hash_string_data K ((k, v <> ("\n" <> (j <> ("=" <> w)))) ∷ [])
      ≡ hash_string_data K ((k, v) ∷ (j, w) ∷ [])
unfolding hash_string_data hash_text sort_strings insert_sorted
hash_string_data_ambiguous K k j v w less = ap K.sha256_hex (
    line_pair k j v w less
    ∙ sym (ap (λ ks. hash_input ks ((k, v) ∷ (j, w) ∷ [])) (sorted_pair k j less)))
