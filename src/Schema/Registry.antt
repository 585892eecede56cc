-- ===== src/Schema/Registry.antt =====
-- pkg/schema/registry.go and pkg/schema/walentry.go: the registry of schemas over a write-ahead
-- log. The log is taken through the interface `Log`, and the protobuf library through `EntryCodec`.
-- The map of types is an association list; the mutex is not modelled, since each method holds it
-- from its test of `closed` to its return.
pub mod TypeMap
pub mod Recovery
pub mod Invariant
pub mod Wildcard
pub mod WalLog
use indexed_watch.Prelude.{
  ℕ, ◌≡◌, Bool, true, false, Option, none, some, List, [], ◌∷◌, ◌++◌, if◌then◌else◌,
}
use indexed_watch.Bytes.{bytes_equal}
use indexed_watch.Schema.{
  Schema, SchemaDefinition, from_proto, to_proto, Problem, has_index, validate,
}
use TypeMap.{Types, get, apply_register, apply_add_index, apply_remove_index}

-- The operations of the generated enum SchemaOperation; `other` is any further number.
pub data Operation : Type 0 where
  register_op add_index_op remove_index_op : Operation
  other : ℕ → Operation

-- The message SchemaWALEntry. An unset string is empty, an unset message is `none`.
pub record SchemaWalEntry : Type 0 where
  pub operation : Operation
  pub schema : Option SchemaDefinition
  pub type : List ℕ
  pub index_path : List ℕ

-- proto.Marshal and proto.Unmarshal on these messages. What was marshalled is read back.
pub record EntryCodec : Type 0 where
  pub marshal : SchemaWalEntry → Option (List ℕ)
  pub unmarshal : List ℕ → Option SchemaWalEntry
  pub unmarshal_marshal :
      (e : SchemaWalEntry) (d : List ℕ) → marshal e ≡ some d → unmarshal d ≡ some e

-- The operations of pkg/wal that the registry calls. The Boolean tells success from failure, `none`
-- is an error of ReadAll. Schema/Registry/WalLog is this interface on the segments of Wal/Segment.
pub record Log : Type 1 where
  pub State : Type 0
  pub append : List ℕ → State → Bool × State
  pub sync : State → Bool × State
  pub read_all : State → Option (List (List ℕ))

-- What a successful append and a successful sync mean to a later ReadAll, for entries that fit: the
-- new entry is the last one. Nothing is said of the log after a failed call.
pub record LogLaws (log : Log) : Type 1 where
  pub Holds : log.State → List (List ℕ) → Type 0
  pub Fits : List ℕ → Type 0
  pub read_all-Holds : (w : log.State) (l : List (List ℕ)) → Holds w l → log.read_all w ≡ some l
  pub append-Holds :
      (d : List ℕ) (w : log.State) (l : List (List ℕ))
      → Holds w l
      → Fits d
      → (log.append d w).0 ≡ true
      → Holds (log.append d w).1 (l ++ d ∷ [])
  pub sync-Holds :
      (w : log.State) (l : List (List ℕ))
      → Holds w l
      → (log.sync w).0 ≡ true
      → Holds (log.sync w).1 l

pub data Error : Type 0 where
  invalid_schema : Problem → Error
  empty_index_path index_is_primary_key : Error
  registry_closed type_exists type_not_found index_exists index_not_found : Error
  marshal_failed append_failed sync_failed : Error
  read_failed unmarshal_failed nil_schema unknown_operation : Error

pub data Result {ℓ} (A : Type ℓ) : Type ℓ where
  ok : A → Result A
  err : Error → Result A

-- pkg/schema/walentry.go
unfoldable pub register_entry : Schema → SchemaWalEntry
unfolding to_proto
register_entry s = record {
  operation = Operation.register_op;
  schema = to_proto (some s);
  type = [];
  index_path = [];
}

unfoldable pub add_index_entry : List ℕ → List ℕ → SchemaWalEntry
add_index_entry type_name path = record {
  operation = Operation.add_index_op;
  schema = none;
  type = type_name;
  index_path = path;
}

unfoldable pub remove_index_entry : List ℕ → List ℕ → SchemaWalEntry
remove_index_entry type_name path = record {
  operation = Operation.remove_index_op;
  schema = none;
  type = type_name;
  index_path = path;
}

-- One round of the loop of `recover`.
unfoldable pub replay_entry : SchemaWalEntry → Types → Result Types
unfolding from_proto
replay_entry e types = elim (e.operation) [
  | Operation.register_op ↦ elim (from_proto e.schema) [
    | none ↦ err nil_schema
    | some s ↦ ok (apply_register s types)
  ]
  | Operation.add_index_op ↦ ok (apply_add_index e.type e.index_path types)
  | Operation.remove_index_op ↦ ok (apply_remove_index e.type e.index_path types)
  | Operation.other n ↦ err unknown_operation
]

module _ (codec : EntryCodec) where
  unfoldable pub replay : List (List ℕ) → Types → Result Types
  replay [] types = ok types
  replay (d ∷ rest) types = elim (codec.unmarshal d) [
    | none ↦ err unmarshal_failed
    | some e ↦ elim (replay_entry e types) [ ok types' ↦ replay rest types' | err x ↦ err x ]
  ]

  module _ (log : Log) where
    pub record Registry : Type 0 where
      pub types : Types
      pub w : log.State
      pub closed : Bool

    -- `Open` after `wal.Open` has returned: recovery from an empty map.
    unfoldable pub open_registry : log.State → Result Registry
    open_registry w = elim (log.read_all w) [
      | none ↦ err read_failed
      | some entries ↦ elim (replay entries []) [
        | ok types ↦ ok (record { types = types; w = w; closed = false })
        | err x ↦ err x
      ]
    ]

    -- The end of the three methods that write: marshal, append, sync, then the change in memory.
    unfoldable pub commit :
        SchemaWalEntry → (Types → Types) → Registry → Result (Unit {0}) × Registry
    commit e change r = elim (codec.marshal e) [
      | none ↦ (err marshal_failed, r)
      | some d ↦
          let (appended, w') = log.append d r.w in
          let (synced, w'') = log.sync w' in
          if appended
          then (if synced
              then (ok tt, record r { types = change r.types; w = w'' })
              else (err sync_failed, record r { w = w'' }))
          else (err append_failed, record r { w = w' })
    ]

    unfoldable pub register : Schema → Registry → Result (Unit {0}) × Registry
    register s r = elim (validate s) [
      | some p ↦ (err (invalid_schema p), r)
      | none ↦ if r.closed then (err registry_closed, r) else elim (get r.types s.type) [
        | some _ ↦ (err type_exists, r)
        | none ↦ commit (register_entry s) (apply_register s) r
      ]
    ]

    unfoldable pub add_index : List ℕ → List ℕ → Registry → Result (Unit {0}) × Registry
    add_index type_name path r =
        if bytes_equal path []
        then (err empty_index_path, r)
        else if r.closed
        then (err registry_closed, r)
        else elim (get r.types type_name) [
          | none ↦ (err type_not_found, r)
          | some s ↦
              if has_index s path
              then (err index_exists, r)
              else if bytes_equal path s.primary_key
              then (err index_is_primary_key, r)
              else commit (add_index_entry type_name path) (apply_add_index type_name path) r
        ]

    unfoldable pub remove_index : List ℕ → List ℕ → Registry → Result (Unit {0}) × Registry
    remove_index type_name path r =
        if r.closed then (err registry_closed, r) else elim (get r.types type_name) [
          | none ↦ (err type_not_found, r)
          | some s ↦
              if has_index s path
              then commit (remove_index_entry type_name path) (apply_remove_index type_name path) r
              else (err index_not_found, r)
        ]

    unfoldable pub get_schema : List ℕ → Registry → Result Schema
    get_schema type_name r =
        if r.closed
        then err registry_closed
        else elim (get r.types type_name) [ none ↦ err type_not_found | some s ↦ ok s ]
