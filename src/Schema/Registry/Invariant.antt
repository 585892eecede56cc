-- ===== src/Schema/Registry/Invariant.antt =====
-- The invariant of the map of types in pkg/schema/registry.go.
use indexed_watch.Prelude.{
  ℕ, ◌≡◌, ◌≢◌, refl, sym, subst, false, none, some, List, [], ◌∷◌, ◌++◌, arith, All, All-append,
  Bool-cases, Option-cases, inl, inr, ◌⊎◌,
}
use indexed_watch.Bytes.{bytes_equal, bytes_equal_iff}
use indexed_watch.Schema.{Schema, validate, has_path}
use indexed_watch.Schema.Valid.{Distinct, validate_iff, All-imp}
use indexed_watch.Schema.Registry.TypeMap.{
  Types, get, put, get-put, without, apply_register, apply_add_index, apply_remove_index,
}
use indexed_watch.Schema.Registry.{
  EntryCodec, Log, Registry, commit, register, add_index, remove_index,
}
use indexed_watch.Schema.Registry.Recovery.{
  Call, register_call, add_index_call, remove_index_call, serve,
}

-- A stored schema: it stands under its own name, and its index paths are pairwise different,
-- not empty and not the primary key.
pub record IsStored (k : List ℕ) (s : Schema) : Type 0 where
  pub named : s.type ≡ k
  pub nonempty : All (λ i. i ≢ []) s.secondary_indexes
  pub not_key : All (λ i. i ≢ s.primary_key) s.secondary_indexes
  pub distinct : Distinct s.secondary_indexes

pub record IsSound (m : Types) : Type 0 where
  pub at : (k : List ℕ) (s : Schema) → get m k ≡ some s → IsStored k s

put-IsSound : (m : Types) (k : List ℕ) (s : Schema) → IsSound m → IsStored k s → IsSound (put m k s)
put-IsSound m k s v h = record {
  at = λ j t e. elim (Bool-cases (bytes_equal k j)) [
    | inl x ↦ moved j t ((bytes_equal_iff k j).0 x) (ground (arith, get-put m k j s))
    | inr x ↦ v.at j t (ground (arith, get-put m k j s))
  ];
}
  where
    moved : (j : List ℕ) (t : Schema) → k ≡ j → s ≡ t → IsStored j t
    moved j t p q = subst (λ i. IsStored i t) p (subst (IsStored k) q h)

has_path-false : (xs : List (List ℕ)) (p : List ℕ) → has_path xs p ≡ false → All (λ y. y ≢ p) xs
unfolding has_path
has_path-false [] p h = tt
has_path-false (x ∷ xs) p h = elim (Bool-cases (bytes_equal x p)) [
  | inl e ↦ absurd (ground arith)
  | inr e ↦ (λ q. cc (e, (bytes_equal_iff x p).1 q), has_path-false xs p (ground arith))
]

Distinct-append_one :
    (xs : List (List ℕ)) (p : List ℕ) → Distinct xs → All (λ y. y ≢ p) xs → Distinct (xs ++ p ∷ [])
Distinct-append_one [] p d a = (tt, tt)
Distinct-append_one (x ∷ xs) p d a =
    (All-append _ xs (p ∷ []) d.0 ((λ e. a.0 (sym e)), tt), Distinct-append_one xs p d.1 a.1)

All-without :
    (P : List ℕ → Type 0) (xs : List (List ℕ)) (p : List ℕ) → All P xs → All P (without p xs)
unfolding without
All-without P [] p h = h
All-without P (x ∷ xs) p h = elim (Bool-cases (bytes_equal x p)) [
  | inl e ↦ rw e (All-without P xs p h.1)
  | inr e ↦ rw e (h.0, All-without P xs p h.1)
]

Distinct-without : (xs : List (List ℕ)) (p : List ℕ) → Distinct xs → Distinct (without p xs)
unfolding without
Distinct-without [] p h = h
Distinct-without (x ∷ xs) p h = elim (Bool-cases (bytes_equal x p)) [
  | inl e ↦ rw e (Distinct-without xs p h.1)
  | inr e ↦ rw e (All-without _ xs p h.0, Distinct-without xs p h.1)
]

module _ (codec : EntryCodec) (log : Log) where
  register_types :
      (s : Schema) (r : Registry codec log)
      → ((register codec log s r).1.types ≡ r.types)
        ⊎ ((validate s ≡ none) × ((register codec log s r).1.types ≡ apply_register s r.types))
  unfolding register commit
  register_types s r = ground arith

  add_index_types :
      (k path : List ℕ) (r : Registry codec log) (s : Schema)
      → get r.types k ≡ some s
      → ((add_index codec log k path r).1.types ≡ r.types)
        ⊎ ((bytes_equal path [] ≡ false)
            × (has_path s.secondary_indexes path ≡ false)
            × (bytes_equal path s.primary_key ≡ false)
            × ((add_index codec log k path r).1.types
                ≡ put r.types k
                    (record s { secondary_indexes = s.secondary_indexes ++ path ∷ [] })))
  unfolding add_index commit apply_add_index
  add_index_types k path r s g = ground arith

  add_index_missing :
      (k path : List ℕ) (r : Registry codec log)
      → get r.types k ≡ none
      → (add_index codec log k path r).1.types ≡ r.types
  unfolding add_index
  add_index_missing k path r g = ground arith

  remove_index_types :
      (k path : List ℕ) (r : Registry codec log) (s : Schema)
      → get r.types k ≡ some s
      → ((remove_index codec log k path r).1.types ≡ r.types)
        ⊎ ((remove_index codec log k path r).1.types
            ≡ put r.types k (record s { secondary_indexes = without path s.secondary_indexes }))
  unfolding remove_index commit apply_remove_index
  remove_index_types k path r s g = ground arith

  remove_index_missing :
      (k path : List ℕ) (r : Registry codec log)
      → get r.types k ≡ none
      → (remove_index codec log k path r).1.types ≡ r.types
  unfolding remove_index
  remove_index_missing k path r g = ground arith

  IsStored-of_valid : (s : Schema) → validate s ≡ none → IsStored s.type s
  IsStored-of_valid s h =
      let v = (validate_iff s).0 h in
      record {
        named = refl;
        nonempty = All-imp _ _ s.secondary_indexes (λ i p. p.nonempty) v.paths;
        not_key = All-imp _ _ s.secondary_indexes (λ i p. p.not_key) v.paths;
        distinct = v.distinct;
      }

  apply_register-IsSound :
      (s : Schema) (m : Types) → validate s ≡ none → IsSound m → IsSound (apply_register s m)
  unfolding apply_register
  apply_register-IsSound s m h v = put-IsSound m s.type s v (IsStored-of_valid s h)

  Sound_same : (m n : Types) → IsSound n → m ≡ n → IsSound m
  Sound_same m n v e = subst IsSound (sym e) v

  -- Whatever a call returns, and whatever the log does, every stored schema stays under its own
  -- name, with index paths that are pairwise different, not empty and not the primary key.
  pub serve-IsSound :
      (c : Call codec log) (r : Registry codec log)
      → IsSound r.types
      → IsSound (serve codec log c r).1.types
  unfolding serve
  serve-IsSound (register_call s) r v = elim (register_types s r) [
    | inl e ↦ Sound_same _ _ v e
    | inr (h, e) ↦ Sound_same _ _ (apply_register-IsSound s r.types h v) e
  ]
  serve-IsSound (add_index_call k path) r v = elim (Option-cases (get r.types k)) [
    | inl g ↦ Sound_same _ _ v (add_index_missing k path r g)
    | inr (s, g) ↦ elim (add_index_types k path r s g) [
      | inl e ↦ Sound_same _ _ v e
      | inr (h, f, n, e) ↦
          let t = v.at k s g in
          Sound_same _ _
            (put-IsSound r.types k _ v (record {
              named = t.named;
              nonempty =
                  All-append _ s.secondary_indexes (path ∷ []) t.nonempty
                    (λ p. cc (h, (bytes_equal_iff path []).1 p), tt);
              not_key =
                  All-append _ s.secondary_indexes (path ∷ []) t.not_key
                    (λ p. cc (n, (bytes_equal_iff path s.primary_key).1 p), tt);
              distinct =
                  Distinct-append_one s.secondary_indexes path t.distinct
                    (has_path-false s.secondary_indexes path f);
            }))
            e
    ]
  ]
  serve-IsSound (remove_index_call k path) r v = elim (Option-cases (get r.types k)) [
    | inl g ↦ Sound_same _ _ v (remove_index_missing k path r g)
    | inr (s, g) ↦ elim (remove_index_types k path r s g) [
      | inl e ↦ Sound_same _ _ v e
      | inr e ↦
          let t = v.at k s g in
          Sound_same _ _
            (put-IsSound r.types k _ v (record {
              named = t.named;
              nonempty = All-without _ s.secondary_indexes path t.nonempty;
              not_key = All-without _ s.secondary_indexes path t.not_key;
              distinct = Distinct-without s.secondary_indexes path t.distinct;
            }))
            e
    ]
  ]
