-- ===== src/Schema.antt =====
-- pkg/schema/schema.go and pkg/schema/errors.go: a schema definition, its conversion to and from
-- the protobuf message, and its validation. A Go string is the list of its bytes.
pub mod Valid
pub mod Registry
pub mod Tests
use indexed_watch.Prelude.{
  ℕ, Bool, true, false, ◌&&◌, not, Option, none, some, List, [], ◌∷◌, if◌then◌else◌,
}
use indexed_watch.Bytes.{bytes_equal, has_suffix, contains}

pub record Schema : Type 0 where
  pub type : List ℕ
  pub primary_key : List ℕ
  pub secondary_indexes : List (List ℕ)

-- The generated message SchemaDefinition has the same three fields; nil is `none`.
pub record SchemaDefinition : Type 0 where
  pub type : List ℕ
  pub primary_key : List ℕ
  pub secondary_indexes : List (List ℕ)

unfoldable pub from_proto : Option SchemaDefinition → Option Schema
from_proto none = none
from_proto (some sd) = some (record {
  type = sd.type;
  primary_key = sd.primary_key;
  secondary_indexes = sd.secondary_indexes;
})

unfoldable pub to_proto : Option Schema → Option SchemaDefinition
to_proto none = none
to_proto (some s) =
    some (record {
      type = s.type;
      primary_key = s.primary_key;
      secondary_indexes = s.secondary_indexes;
    })

-- ".*"
abbrev pub wildcard : List ℕ
wildcard = b'.' ∷ b'*' ∷ []

-- The messages of `Validate`, all of which wrap ErrInvalidSchema.
pub data Problem : Type 0 where
  type_required primary_key_required primary_key_wildcard : Problem
  index_empty index_duplicates_key wildcard_inside index_duplicate : Problem

-- The loop of `HasIndex`; the set `seen` of `Validate` is asked the same question.
unfoldable pub has_path : List (List ℕ) → List ℕ → Bool
has_path [] path = false
has_path (idx ∷ rest) path = if bytes_equal idx path then true else has_path rest path

abbrev pub has_index : Schema → List ℕ → Bool
has_index s path = has_path s.secondary_indexes path

unfoldable pub validate_indexes : List ℕ → List (List ℕ) → List (List ℕ) → Option Problem
validate_indexes primary_key seen [] = none
validate_indexes primary_key seen (idx ∷ rest) =
    if bytes_equal idx []
    then some index_empty
    else if bytes_equal idx primary_key
    then some index_duplicates_key
    else if contains idx wildcard && not (has_suffix idx wildcard)
    then some wildcard_inside
    else if has_path seen idx
    then some index_duplicate
    else validate_indexes primary_key (idx ∷ seen) rest

unfoldable pub validate : Schema → Option Problem
validate s =
    if bytes_equal s.type []
    then some type_required
    else if bytes_equal s.primary_key []
    then some primary_key_required
    else if has_suffix s.primary_key wildcard
    then some primary_key_wildcard
    else validate_indexes s.primary_key [] s.secondary_indexes
