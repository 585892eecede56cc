-- ===== src/Schema/Tests.antt =====
-- Runs of the registry of pkg/schema over the segments of pkg/wal, with a codec that puts the length of
-- each string before it.
use indexed_watch.Prelude.{
  ℕ, zero, suc, ◌≡◌, ◌≢◌, refl, ap, ◌∙◌, true, false, Option, none, some, List, [], ◌∷◌, ◌++◌,
  length, take, drop, arith, ◌↔◌,
}
use indexed_watch.Bytes.{contains, has_suffix, bytes_equal}
use indexed_watch.Schema.{
  has_index, Schema, SchemaDefinition, validate, validate_indexes, wildcard, has_path,
}
use indexed_watch.Schema.Valid.{IsWellFormed, validate_iff}
use indexed_watch.Schema.Registry.{
  Operation, SchemaWalEntry, EntryCodec, Log, LogLaws, add_index_entry, ok, Registry, add_index,
}
use indexed_watch.Wal.Frame.{encode}
use indexed_watch.Wal.Segment.{append, append_record, rotate_if_full}
use indexed_watch.Wal.Tests.{small_codec, sum_bytes, small_IsCompact, created_wal}
use indexed_watch.Schema.Registry.WalLog.{wal_log, wal_laws}
use indexed_watch.Schema.Registry.TypeMap.{get}
use indexed_watch.Schema.Registry.Recovery.{register_call, add_index_call, serve}
use indexed_watch.Schema.Registry.Invariant.{IsSound, serve-IsSound}
use indexed_watch.Schema.Registry.Wildcard.{add_index-wildcard}

abbrev put_text : List ℕ → List ℕ → List ℕ
put_text s rest = length s ∷ (s ++ rest)

abbrev get_text : List ℕ → List ℕ × List ℕ
get_text [] = ([], [])
get_text (n ∷ l) = (take n l, drop n l)

take_front : (s rest : List ℕ) → take (length s) (s ++ rest) ≡ s
take_front [] rest = refl
take_front (x ∷ s) rest = ap (λ l. x ∷ l) (take_front s rest)

drop_front : (s rest : List ℕ) → drop (length s) (s ++ rest) ≡ rest
drop_front [] rest = refl
drop_front (x ∷ s) rest = drop_front s rest

get_text-put_text : (s rest : List ℕ) → get_text (put_text s rest) ≡ (s, rest)
get_text-put_text s rest = rw (take_front s rest, drop_front s rest) refl

abbrev put_texts : List (List ℕ) → List ℕ
put_texts [] = []
put_texts (s ∷ l) = put_text s (put_texts l)

abbrev get_texts : ℕ → List ℕ → List (List ℕ)
get_texts zero l = []
get_texts (suc n) l = (get_text l).0 ∷ get_texts n (get_text l).1

get_texts-put_texts : (l : List (List ℕ)) → get_texts (length l) (put_texts l) ≡ l
get_texts-put_texts [] = refl
get_texts-put_texts (s ∷ l) =
    rw (take_front s (put_texts l), drop_front s (put_texts l))
      (ap (λ r. s ∷ r) (get_texts-put_texts l))

abbrev operation_number : Operation → ℕ
operation_number Operation.register_op = 0
operation_number Operation.add_index_op = 1
operation_number Operation.remove_index_op = 2
operation_number (Operation.other n) = suc (suc (suc n))

abbrev number_operation : ℕ → Operation
number_operation zero = Operation.register_op
number_operation (suc zero) = Operation.add_index_op
number_operation (suc (suc zero)) = Operation.remove_index_op
number_operation (suc (suc (suc n))) = Operation.other n

number-operation : (o : Operation) → number_operation (operation_number o) ≡ o
number-operation Operation.register_op = refl
number-operation Operation.add_index_op = refl
number-operation Operation.remove_index_op = refl
number-operation (Operation.other n) = refl

abbrev put_schema : Option SchemaDefinition → List ℕ
put_schema none = []
put_schema (some d) =
    put_text d.type
      (put_text d.primary_key (length d.secondary_indexes ∷ put_texts d.secondary_indexes))

abbrev get_indexes : List ℕ → List (List ℕ)
get_indexes [] = []
get_indexes (n ∷ l) = get_texts n l

abbrev get_schema_of : List ℕ → Option SchemaDefinition
get_schema_of [] = none
get_schema_of (n ∷ l) = some (record {
  type = take n l;
  primary_key = (get_text (drop n l)).0;
  secondary_indexes = get_indexes (get_text (drop n l)).1;
})

get-put_schema : (o : Option SchemaDefinition) → get_schema_of (put_schema o) ≡ o
get-put_schema none = refl
get-put_schema (some d) =
    rw
      (
        take_front d.type _,
        drop_front d.type _,
        take_front d.primary_key _,
        drop_front d.primary_key _,
        get_texts-put_texts d.secondary_indexes,
      )
      refl

abbrev put_entry : SchemaWalEntry → List ℕ
put_entry e =
    operation_number e.operation ∷ put_text e.type (put_text e.index_path (put_schema e.schema))

abbrev get_entry : List ℕ → Option SchemaWalEntry
get_entry [] = none
get_entry (n ∷ l) = some (record {
  operation = number_operation n;
  type = (get_text l).0;
  index_path = (get_text (get_text l).1).0;
  schema = get_schema_of (get_text (get_text l).1).1;
})

get-put_entry : (e : SchemaWalEntry) → get_entry (put_entry e) ≡ some e
get-put_entry e =
    rw
      (
        number-operation e.operation,
        take_front e.type _,
        drop_front e.type _,
        take_front e.index_path _,
        drop_front e.index_path _,
        get-put_schema e.schema,
      )
      refl

abbrev entry_marshal : SchemaWalEntry → Option (List ℕ)
entry_marshal e = some (put_entry e)

same : (a d : List ℕ) → some a ≡ some d → d ≡ a
same a d h = ground arith

entry_round : (e : SchemaWalEntry) (d : List ℕ) → entry_marshal e ≡ some d → get_entry d ≡ some e
entry_round e d h = ap get_entry (same (put_entry e) d h) ∙ get-put_entry e

abbrev text_codec : EntryCodec
text_codec = record {
  marshal = entry_marshal;
  unmarshal = get_entry;
  unmarshal_marshal = entry_round;
}

-- The WAL of pkg/wal with short segments, so that the second call rotates it.
abbrev test_log : Log
test_log = wal_log small_codec sum_bytes

abbrev test_laws : LogLaws test_log
test_laws = wal_laws small_codec sum_bytes small_IsCompact

abbrev users : Schema
users = record { type = b'u' ∷ []; primary_key = b'i' ∷ b'd' ∷ []; secondary_indexes = [] }

validate_iff_example : (validate users ≡ none) ↔ IsWellFormed users
validate_iff_example = validate_iff users

abbrev empty_registry : Registry text_codec test_log
empty_registry = record { types = []; w = created_wal; closed = false }

abbrev one_call : Registry text_codec test_log
one_call = (serve text_codec test_log (register_call users) empty_registry).1

abbrev two_calls : Registry text_codec test_log
two_calls = (serve text_codec test_log (add_index_call (b'u' ∷ []) (b'a' ∷ [])) one_call).1

nothing_stored : (k : List ℕ) (s : Schema) → get [] k ≡ some s → ⊥
unfolding get
nothing_stored k s h = cc

empty-IsSound : IsSound empty_registry.types
empty-IsSound = record { at = λ k s h. absurd (nothing_stored k s h) }

serve-IsSound_example : IsSound one_call.types
serve-IsSound_example =
    serve-IsSound text_codec test_log (register_call users) empty_registry empty-IsSound

abbrev dotted : List ℕ
dotted = b'.' ∷ b'*' ∷ b'x' ∷ []

dotted_inside : contains dotted wildcard ≡ true
unfolding contains
dotted_inside = refl

dotted_suffix : has_suffix dotted wildcard ≡ false
unfolding has_suffix
dotted_suffix = refl

abbrev users_registry : Registry text_codec test_log
users_registry = record { types = (b'u' ∷ [], users) ∷ []; w = created_wal; closed = false }

abbrev dotted_users : Schema
dotted_users = record users { secondary_indexes = dotted ∷ [] }

users_found : get users_registry.types (b'u' ∷ []) ≡ some users
unfolding get bytes_equal
users_found = refl

not_indexed : has_index users dotted ≡ false
unfolding has_path
not_indexed = refl

dotted_appended :
    (test_log.append (put_entry (add_index_entry (b'u' ∷ []) dotted)) created_wal).0 ≡ true
unfolding append rotate_if_full append_record encode add_index_entry
dotted_appended = refl

add_index-wildcard_example :
    ((add_index text_codec test_log (b'u' ∷ []) dotted users_registry).0 ≡ ok tt)
    × (t : Schema) × (get
          (add_index text_codec test_log (b'u' ∷ []) dotted users_registry).1.types
          (b'u' ∷ [])
        ≡ some t)
    × (validate t ≢ none)
add_index-wildcard_example =
    add_index-wildcard text_codec test_log (b'u' ∷ []) dotted
      (put_entry (add_index_entry (b'u' ∷ []) dotted)) users_registry users users_found refl
      not_indexed (λ e. cc) dotted_inside dotted_suffix (unfold add_index_entry in refl)
      dotted_appended refl

-- The path a.*.b.* has a wildcard inside, and one at its end.
abbrev two_wildcards : List ℕ
two_wildcards = b'a' ∷ b'.' ∷ b'*' ∷ b'.' ∷ b'b' ∷ b'.' ∷ b'*' ∷ []

two_wildcards_valid : validate (record users { secondary_indexes = two_wildcards ∷ [] }) ≡ none
unfolding validate validate_indexes bytes_equal has_suffix has_path contains
two_wildcards_valid = refl
