-- ===== src/Schema/Registry/TypeMap.antt =====
-- The map from type names to schemas of pkg/schema/registry.go, and the changes to it that the
-- methods and the recovery share.
use indexed_watch.Prelude.{
  ℕ, ◌≡◌, refl, Option, none, some, List, [], ◌∷◌, ◌++◌, arith, if◌then◌else◌,
}
use indexed_watch.Bytes.{bytes_equal, bytes_equal_iff}
use indexed_watch.Schema.{Schema, has_path}

abbrev pub Types : Type 0
Types = List (List ℕ × Schema)

-- r.types[k], where `none` is the nil of a missing key, and r.types[k] = s
unfoldable pub get : Types → List ℕ → Option Schema
get [] k = none
get ((j, s) ∷ m) k = if bytes_equal j k then some s else get m k

unfoldable pub put : Types → List ℕ → Schema → Types
put [] k s = (k, s) ∷ []
put ((j, t) ∷ m) k s = if bytes_equal j k then (k, s) ∷ m else (j, t) ∷ put m k s

unfoldable pub without : List ℕ → List (List ℕ) → List (List ℕ)
without path [] = []
without path (idx ∷ rest) =
    let kept = without path rest in if bytes_equal idx path then kept else idx ∷ kept

unfoldable pub apply_register : Schema → Types → Types
apply_register s types =
    put types s.type (record {
      type = s.type;
      primary_key = s.primary_key;
      secondary_indexes = s.secondary_indexes;
    })

-- The schema under the key is changed in place, so the map's other entries stay.
unfoldable pub apply_add_index : List ℕ → List ℕ → Types → Types
apply_add_index type_name path types = elim (get types type_name) [
  | none ↦ types
  | some s ↦
      if has_path s.secondary_indexes path
      then types
      else put types type_name (record s { secondary_indexes = s.secondary_indexes ++ path ∷ [] })
]

unfoldable pub apply_remove_index : List ℕ → List ℕ → Types → Types
apply_remove_index type_name path types = elim (get types type_name) [
  | none ↦ types
  | some s ↦ put types type_name (record s { secondary_indexes = without path s.secondary_indexes })
]

-- `ListTypes`; Go visits the map in an order of its own.
unfoldable pub list_types : Types → List (List ℕ)
list_types [] = []
list_types ((k, s) ∷ m) = k ∷ list_types m

pub get-put :
    (m : Types) (k j : List ℕ) (s : Schema)
    → get (put m k s) j ≡ (if bytes_equal k j then some s else get m j)
unfolding get put
get-put [] k j s = refl
get-put ((i, t) ∷ m) k j s =
    ground (arith, get-put m k j s, bytes_equal_iff i k, bytes_equal_iff i j, bytes_equal_iff k j)
