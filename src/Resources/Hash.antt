-- ===== src/Resources/Hash.antt =====
-- internal/resources/common.go: `HashSecretData` and `HashStringData`. Values are texts: the only
-- caller converts its strings to bytes, and the digest reads them back as the same bytes.
pub mod Stable
pub mod Sorted
use Prim.Native.Nat.{Ordering}
use Prim.Native.String.{compare}
use talon_db_k8s_operator.Base.{String, ◌<>◌, Option, none, some, List, [], ◌∷◌, map}
use talon_db_k8s_operator.Base.Dict.{Dict, lookup}
use talon_db_k8s_operator.Kube.{Platform}

-- `sort.Strings`, by insertion: the order of Go strings is that of their bytes.
unfoldable pub insert_sorted : String → List String → List String
insert_sorted k [] = k ∷ []
insert_sorted k (j ∷ ks) = elim (compare k j) [
  | Ordering.gt ↦ j ∷ insert_sorted k ks
  | _ ↦ k ∷ j ∷ ks
]

unfoldable pub sort_strings : List String → List String
unfolding insert_sorted
sort_strings [] = []
sort_strings (k ∷ ks) = insert_sorted k (sort_strings ks)

abbrev pub or_empty : Option String → String
or_empty none = ""
or_empty (some v) = v

-- What the loop over the sorted keys writes to the hash.
unfoldable pub hash_input : List String → Dict String → String
unfolding lookup
hash_input [] entries = ""
hash_input (k ∷ ks) entries =
    k <> "=" <> or_empty (lookup k entries) <> "\n" <> hash_input ks entries

abbrev pub keys : Dict String → List String
keys = map (λ (k, _). k)

unfoldable pub hash_text : Dict String → String
unfolding sort_strings hash_input
hash_text entries = hash_input (sort_strings (keys entries)) entries

unfoldable pub hash_string_data : Platform → Dict String → String
unfolding hash_text
hash_string_data K entries = K.sha256_hex (hash_text entries)
