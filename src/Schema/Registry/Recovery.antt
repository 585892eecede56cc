-- ===== src/Schema/Registry/Recovery.antt =====
-- Recovery in pkg/schema/registry.go: the map of types and the replay of the log.
use indexed_watch.Prelude.{ℕ, ◌≡◌, ◌≢◌, refl, some, List, [], inl, inr, ◌⊎◌}
use indexed_watch.Schema.{Schema}
use indexed_watch.Schema.Registry.TypeMap.{
  Types, apply_register, apply_add_index, apply_remove_index,
}
use indexed_watch.Schema.Registry.{
  SchemaWalEntry, EntryCodec, Log, LogLaws, Error, Result, ok, err, append_failed, sync_failed,
  register_entry, add_index_entry, remove_index_entry, replay, Registry, register, add_index,
  remove_index,
}

pub Result-cases {ℓ} :
    {A : Type ℓ} (r : Result A) → ((a : A) × (r ≡ ok a)) ⊎ ((e : Error) × (r ≡ err e))
Result-cases (ok a) = inl (a, refl)
Result-cases (err e) = inr (e, refl)

module _ (codec : EntryCodec) where
  module _ (log : Log) where
    -- A call of one of the methods that write.
    pub data Call : Type 0 where
      register_call : Schema → Call
      add_index_call : List ℕ → List ℕ → Call
      remove_index_call : List ℕ → List ℕ → Call

    unfoldable pub serve : Call → Registry codec log → Result (Unit {0}) × Registry codec log
    serve (register_call s) r = register codec log s r
    serve (add_index_call k path) r = add_index codec log k path r
    serve (remove_index_call k path) r = remove_index codec log k path r

    -- The entry that a call logs, if it writes one.
    abbrev pub entry_of : Call → SchemaWalEntry
    entry_of (register_call s) = register_entry s
    entry_of (add_index_call k path) = add_index_entry k path
    entry_of (remove_index_call k path) = remove_index_entry k path

    abbrev change_of : Call → Types → Types
    change_of (register_call s) = apply_register s
    change_of (add_index_call k path) = apply_add_index k path
    change_of (remove_index_call k path) = apply_remove_index k path

    module _ (laws : LogLaws log) where
      -- The entries of the log replay to the types in memory.
      pub record IsDurable (r : Registry codec log) : Type 0 where
        pub entries : List (List ℕ)
        pub stored : laws.Holds r.w entries
        pub replayed : replay codec entries [] ≡ ok r.types

      -- The entry that a call would log fits the log.
      abbrev pub IsFitting : SchemaWalEntry → Type 0
      IsFitting e = (d : List ℕ) → codec.marshal e ≡ some d → laws.Fits d

      -- Calls in order, as long as none fails in the append or in the sync, with entries that fit.
      pub data Runs (r : Registry codec log) : Registry codec log → Type 0 where
        start : Runs r r
        call :
            {q : Registry codec log} (c : Call)
            → Runs r q
            → IsFitting (entry_of c)
            → (serve c q).0 ≢ err append_failed
            → (serve c q).0 ≢ err sync_failed
            → Runs r (serve c q).1

      -- A call that fails in neither keeps the log and the memory together.
      abbrev Durable : Result (Unit {0}) × Registry codec log → Type 0
      Durable p = p.0 ≢ err append_failed → p.0 ≢ err sync_failed → IsDurable p.1
