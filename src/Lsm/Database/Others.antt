-- ===== src/Lsm/Database/Others.antt =====
-- Reads of pkg/lsm/lsm.go that a write of another key, or a later sequence number, leaves as they are.
use indexed_watch.Prelude.{
  ℕ, ◌+◌, ◌^◌, ◌≤◌, ◌<◌, ◌≡◌, ◌≢◌, refl, ap, ap₂, ◌∙◌, sym, false, Option, none, some, List, [],
  ◌∷◌, ◌++◌, All, All-zip, Bool-cases, inl, inr, arith,
}
use indexed_watch.Bytes.{compare_bytes, is_neg, is_zero}
use indexed_watch.Bytes.Order.{compare_bytes_eq, compare_bytes_self}
use indexed_watch.Lsm.InternalKey.{kind_set, make_internal_key, user_key, user_key-make, parse-make}
use indexed_watch.Lsm.InternalKey.Plain.{
  IsText, IsPlain, make-IsPlain, seq_of, older-is_neg, compare-other,
}
use indexed_watch.Lsm.SortedMap.{Entries, seek_ge, insert_entry}
use indexed_watch.Lsm.Memtable.Versions.{IsWritten, get_from_memtable-insert_other}
use indexed_watch.Lsm.Read.{
  or_else, hit, get_from, get_from_memtable, get_from_sealed, get_from_version,
}
use indexed_watch.Lsm.Database.{Db, entries_of, get}
use indexed_watch.Lsm.Database.Writes.{IsValid, Appended, nil-IsWritten}

seek_ge_same :
    (es : Entries) (a b : List ℕ)
    → All (λ e. is_neg (compare_bytes e.0 a) ≡ is_neg (compare_bytes e.0 b)) es
    → seek_ge es a ≡ seek_ge es b
unfolding seek_ge
seek_ge_same [] a b h = refl
seek_ge_same (e ∷ es) a b h = rw (h.0, seek_ge_same es a b h.1) refl

module _ (key : List ℕ) (n r : ℕ) (t : IsText key) (h : n ≤ r) (b : r < 2 ^ 48) where
  target_IsPlain : (m : ℕ) → m ≤ r → IsPlain (make_internal_key key m kind_set)
  target_IsPlain m l = make-IsPlain key m kind_set t (omega arith) (omega arith)

  same_side :
      (m : ℕ) (e : List ℕ)
      → m ≤ r
      → IsPlain e
      → seq_of e ≤ m
      → user_key e ≡ key
      → is_neg (compare_bytes e (make_internal_key key m kind_set)) ≡ false
  same_side m e l p s u =
      let parts = parse-make key m kind_set (omega arith) (omega arith) in
      older-is_neg e (make_internal_key key m kind_set) p (target_IsPlain m l)
        (u ∙ sym (user_key-make key m kind_set)) (omega (arith, ap (λ x. x.1) parts))
        (omega (arith, p.kind_small, ap (λ x. x.2) parts))

  later_entry :
      (e : List ℕ × List ℕ)
      → IsPlain e.0
      → seq_of e.0 ≤ n
      → is_neg (compare_bytes e.0 (make_internal_key key r kind_set))
        ≡ is_neg (compare_bytes e.0 (make_internal_key key n kind_set))
  later_entry e p s = elim (Bool-cases (is_zero (compare_bytes (user_key e.0) key))) [
    | inl z ↦
        let u : user_key e.0 ≡ key = compare_bytes_eq (user_key e.0) key (ground arith) in
        same_side r e.0 (omega arith) p (omega arith) u ∙ sym (same_side n e.0 h p s u)
    | inr z ↦ ap is_neg (
        compare-other e.0 (make_internal_key key r kind_set) p (target_IsPlain r (omega arith))
          (make_internal_key key n kind_set) (target_IsPlain n h)
          (λ u. other (u ∙ user_key-make key r kind_set) z)
          (user_key-make key r kind_set ∙ sym (user_key-make key n kind_set)))
  ]
    where
      other : user_key e.0 ≡ key → is_zero (compare_bytes (user_key e.0) key) ≡ false → ⊥
      other u z = ground (arith, compare_bytes_self key, ap (λ w. compare_bytes w key) u)

  -- A later sequence number sees no more, if there is no more.
  get_from_memtable-later :
      (es : Entries) → IsWritten n es → get_from_memtable es key r ≡ get_from_memtable es key n
  unfolding get_from_memtable
  get_from_memtable-later es w =
      ap (hit key) (seek_ge_same es _ _ (All-zip (λ e p s. later_entry e p s) es w.plain w.bounded))

  get_from_sealed-later :
      (imm : List Entries)
      → All (IsWritten n) imm
      → get_from_sealed imm key r ≡ get_from_sealed imm key n
  unfolding get_from_sealed
  get_from_sealed-later [] w = refl
  get_from_sealed-later (m ∷ imm) w =
      ap₂ or_else (get_from_sealed-later imm w.1) (get_from_memtable-later m w.0)

or_else_assoc : (a b c : Option (List ℕ × ℕ)) → or_else (or_else a b) c ≡ or_else a (or_else b c)
or_else_assoc none b c = refl
or_else_assoc (some x) b c = refl

-- The last sealed memtable is read first.
get_from_sealed-append :
    (imm : List Entries) (m : Entries) (key : List ℕ) (seq : ℕ)
    → get_from_sealed (imm ++ m ∷ []) key seq
      ≡ or_else (get_from_memtable m key seq) (get_from_sealed imm key seq)
unfolding get_from_sealed
get_from_sealed-append [] m key seq = or_none (get_from_memtable m key seq)
  where
    or_none : (o : Option (List ℕ × ℕ)) → o ≡ or_else o none
    or_none none = refl
    or_none (some x) = refl
get_from_sealed-append (x ∷ imm) m key seq =
    ap (λ o. or_else o (get_from_memtable x key seq)) (get_from_sealed-append imm m key seq)
    ∙ or_else_assoc (get_from_memtable m key seq) (get_from_sealed imm key seq)
        (get_from_memtable x key seq)

module _ (u value : List ℕ) (kind : ℕ) (t : IsText u) (k : kind < 2) (db db' : Db) (v : IsValid db)
    (room : db.seq_num + 1 < 2 ^ 48)
    (a : Appended (make_internal_key u (db.seq_num + 1) kind, value) db db') (key : List ℕ)
    (x : IsText key) (n : u ≢ key) where
  abbrev memtables : Entries → List Entries → ℕ → Option (List ℕ × ℕ)
  memtables mem imm seq = or_else (get_from_memtable mem key seq) (get_from_sealed imm key seq)

  memtables_later :
      memtables db.mem.entries (entries_of db.imm) (db.seq_num + 1)
      ≡ memtables db.mem.entries (entries_of db.imm) db.seq_num
  memtables_later =
      ap₂ or_else
        (get_from_memtable-later key db.seq_num (db.seq_num + 1) x (omega arith) room db.mem.entries
          v.written)
        (get_from_sealed-later key db.seq_num (db.seq_num + 1) x (omega arith) room
          (entries_of db.imm) v.sealed)

  base_read :
      (es : Entries)
      → IsWritten db.seq_num es
      → get_from_memtable
          (insert_entry (make_internal_key u (db.seq_num + 1) kind, value) es)
          key
          (db.seq_num + 1)
        ≡ get_from_memtable es key (db.seq_num + 1)
  base_read es w =
      get_from_memtable-insert_other u (db.seq_num + 1) kind t room k es key value (db.seq_num + 1)
        x room n w.plain

  memtables_kept :
      memtables db'.mem.entries (entries_of db'.imm) (db.seq_num + 1)
      ≡ memtables db.mem.entries (entries_of db.imm) (db.seq_num + 1)
  memtables_kept = elim a.origin [
    | inl h ↦
        ap₂ (λ es l. memtables es l (db.seq_num + 1)) (a.entries ∙ ap (insert_entry _) h.0) h.1
        ∙ ap (λ o. or_else o (get_from_sealed (entries_of db.imm) key (db.seq_num + 1)))
            (base_read db.mem.entries v.written)
    | inr h ↦
        ap₂ (λ es l. memtables es l (db.seq_num + 1)) (a.entries ∙ ap (insert_entry _) h.0) h.1
        ∙ ap
            (λ o.
              or_else o
                (get_from_sealed (entries_of db.imm ++ db.mem.entries ∷ []) key (db.seq_num + 1)))
            (base_read [] (nil-IsWritten db.seq_num))
        ∙ unfold get_from_memtable hit seek_ge in
          get_from_sealed-append (entries_of db.imm) db.mem.entries key (db.seq_num + 1)
  ]

  -- A write leaves the reads of the other keys as they were, if the tables show no more at the new
  -- sequence number.
  pub Appended-get_other :
      get_from_version db.tables db.version key (db.seq_num + 1)
        ≡ get_from_version db.tables db.version key db.seq_num
      → get db' key ≡ get db key
  unfolding get get_from
  Appended-get_other s =
      rw (a.opened, v.opened, get)
        (rw (a.number, a.same_tables, a.same_version, memtables_kept, memtables_later, s) refl)
