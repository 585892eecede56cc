-- ===== src/Schema/Registry/Wildcard.antt =====
-- `AddIndex` of pkg/schema/registry.go with a wildcard that is not at the end of the path.
use indexed_watch.Prelude.{
  ℕ, ◌≡◌, ◌≢◌, subst, true, false, none, some, List, [], ◌∷◌, ◌++◌, arith, All, Bool-cases, inl,
  inr,
}
use indexed_watch.Bytes.{bytes_equal, bytes_equal_iff, contains, has_suffix}
use indexed_watch.Schema.{Schema, wildcard, has_index, validate}
use indexed_watch.Schema.Valid.{IsIndexPath, validate_iff}
use indexed_watch.Schema.Registry.TypeMap.{get, put, get-put, apply_add_index}
use indexed_watch.Schema.Registry.{
  EntryCodec, Log, Registry, ok, add_index_entry, commit, add_index,
}

All-last : (P : List ℕ → Type 0) (xs : List (List ℕ)) (p : List ℕ) → All P (xs ++ p ∷ []) → P p
All-last P [] p h = h.0
All-last P (x ∷ xs) p h = All-last P xs p h.1

nowhere : contains [] wildcard ≡ true → ⊥
unfolding contains
nowhere h = cc

module _ (codec : EntryCodec) (log : Log) where
  add_index_ok :
      (k path : List ℕ) (r : Registry codec log) (s : Schema)
      → get r.types k ≡ some s
      → (add_index codec log k path r).0 ≡ ok tt
      → (add_index codec log k path r).1.types
        ≡ put r.types k (record s { secondary_indexes = s.secondary_indexes ++ path ∷ [] })
  unfolding add_index commit apply_add_index
  add_index_ok k path r s g e = ground arith

  -- What AddIndex does once its tests have passed and the entry is marshalled, appended and synced.
  add_index_accepts :
      (k path d : List ℕ) (r : Registry codec log) (s : Schema)
      → get r.types k ≡ some s
      → r.closed ≡ false
      → bytes_equal path [] ≡ false
      → has_index s path ≡ false
      → bytes_equal path s.primary_key ≡ false
      → codec.marshal (add_index_entry k path) ≡ some d
      → (log.append d r.w).0 ≡ true
      → (log.sync (log.append d r.w).1).0 ≡ true
      → (add_index codec log k path r).0 ≡ ok tt
  unfolding add_index commit
  add_index_accepts k path d r s g o n i p m a y = ground arith

  -- `AddIndex` does not ask where a wildcard stands. On an open registry, a new path that is neither
  -- an index of the type nor its primary key, that contains ".*" and does not end with it, is
  -- accepted when its entry is marshalled, appended and synced; the schema that is stored then is
  -- one that `Validate` refuses.
  pub add_index-wildcard :
      (k path d : List ℕ) (r : Registry codec log) (s : Schema)
      → get r.types k ≡ some s
      → r.closed ≡ false
      → has_index s path ≡ false
      → path ≢ s.primary_key
      → contains path wildcard ≡ true
      → has_suffix path wildcard ≡ false
      → codec.marshal (add_index_entry k path) ≡ some d
      → (log.append d r.w).0 ≡ true
      → (log.sync (log.append d r.w).1).0 ≡ true
      → ((add_index codec log k path r).0 ≡ ok tt)
        × (t : Schema) × (get (add_index codec log k path r).1.types k ≡ some t)
        × (validate t ≢ none)
  add_index-wildcard k path d r s g o i p c f m a y = (accepted, t, found, refused)
    where
      t : Schema
      t = record s { secondary_indexes = s.secondary_indexes ++ path ∷ [] }

      empty : bytes_equal path [] ≡ false
      empty = elim (Bool-cases (bytes_equal path [])) [
        | inl e ↦
            absurd
              (nowhere (subst (λ q. contains q wildcard ≡ true) ((bytes_equal_iff path []).0 e) c))
        | inr e ↦ e
      ]

      key : bytes_equal path s.primary_key ≡ false
      key = elim (Bool-cases (bytes_equal path s.primary_key)) [
        | inl e ↦ absurd (p ((bytes_equal_iff path s.primary_key).0 e))
        | inr e ↦ e
      ]

      accepted : (add_index codec log k path r).0 ≡ ok tt
      accepted = add_index_accepts k path d r s g o empty i key m a y

      found : get (add_index codec log k path r).1.types k ≡ some t
      found =
          rw (add_index_ok k path r s g accepted)
            (ground (arith, get-put r.types k k t, bytes_equal_iff k k))

      refused : validate t ≢ none
      refused h = cc (
        f,
        (All-last (IsIndexPath s.primary_key) s.secondary_indexes path
              ((validate_iff t).0 h).paths).suffix_only
            c,
      )
