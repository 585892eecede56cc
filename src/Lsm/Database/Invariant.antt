-- ===== src/Lsm/Database/Invariant.antt =====
-- What the writes of pkg/lsm/lsm.go keep, whatever they return.
use indexed_watch.Prelude.{
  ℕ, ◌+◌, ◌^◌, ◌<◌, ◌≡◌, ◌≢◌, ◌⊎◌, refl, ap, ◌∙◌, sym, subst, Option, none, some, List, [], ◌∷◌,
  ◌++◌, All, All-zip, All-append, inl, inr, arith,
}
use indexed_watch.Lsm.InternalKey.{kind_set, kind_delete}
use indexed_watch.Lsm.InternalKey.Plain.{IsText, IsPlain}
use indexed_watch.Lsm.Memtable.{Memtable, Added, added, record_exists, full, new_memtable}
use indexed_watch.Lsm.Memtable
use indexed_watch.Lsm.Memtable.Versions.{IsWritten, insert_entry-IsWritten, get_from_memtable-older}
use indexed_watch.Lsm.Read.{Tables, get_from, get_from_memtable}
use indexed_watch.Lsm.Database.{
  Db, Snapshot, settle, retry, entries_of, rotate_memtable, signal_flush, set, delete, write,
  snapshot_get, new_snapshot, get,
}
use indexed_watch.Lsm.Database.Writes.{
  IsValid, Writes, set-Writes, delete-Writes, write_open, new_memtable_entries, entries_of-append,
  nil-IsWritten, IsWritten-later,
}

Added-cases : (r : Added) → (r ≡ added) ⊎ (r ≢ added)
Added-cases added = inl refl
Added-cases record_exists = inr (λ h. cc)
Added-cases full = inr (λ h. cc)

module _ (u value : List ℕ) (kind : ℕ) (op : ℕ → Memtable → Added × Memtable)
    (w : Writes u value kind op) (t : IsText u) (k : kind < 2) where
  op-IsWritten :
      (last seq : ℕ) (m : Memtable)
      → last < seq
      → seq < 2 ^ 48
      → IsWritten last m.entries
      → IsWritten seq (op seq m).1.entries
  op-IsWritten last seq m h b v = elim (Added-cases (op seq m).0) [
    | inl e ↦
        subst (IsWritten seq) (sym (w.adds seq m e))
          (insert_entry-IsWritten u seq kind t b k last m.entries v h value)
    | inr e ↦
        subst (IsWritten seq) (sym (w.keeps seq m e))
          (IsWritten-later last seq m.entries (omega arith) v)
  ]

  module _ (db : Db) (v : IsValid db) (room : db.seq_num + 1 < 2 ^ 48) where
    abbrev seq : ℕ
    seq = db.seq_num + 1

    abbrev tried : Db
    tried = record db { seq_num = seq; last_seq_num = seq; mem = (op seq db.mem).1 }

    tried-IsValid : IsValid tried
    tried-IsValid = record {
      opened = v.opened;
      written = op-IsWritten db.seq_num seq db.mem (omega arith) room v.written;
      sealed =
          All-zip (λ es a b. IsWritten-later db.seq_num seq es (omega arith) a) (entries_of db.imm)
            v.sealed v.sealed;
    }

    rotated-IsValid :
        (m : Memtable)
        → m.entries ≡ []
        → IsValid
            (signal_flush (record tried { mem = (op seq m).1; imm = tried.imm ++ tried.mem ∷ [] }))
    unfolding signal_flush
    rotated-IsValid m e = record {
      opened = v.opened;
      written =
          op-IsWritten db.seq_num seq m (omega arith) room
            (subst (IsWritten db.seq_num) (sym e) (nil-IsWritten db.seq_num));
      sealed = subst (All (IsWritten seq)) (sym (entries_of-append tried.imm tried.mem)) (
          All-append (IsWritten seq) (entries_of tried.imm) (tried.mem.entries ∷ [])
            tried-IsValid.sealed (tried-IsValid.written, tt));
    }

    retry-IsValid :
        (r : Option Memtable)
        → ((m : Memtable) → r ≡ some m → m.entries ≡ [])
        → IsValid
            (retry op seq tried (elim r [
              | none ↦ none
              | some m ↦ some (record tried { mem = m; imm = tried.imm ++ tried.mem ∷ [] })
            ])).1
    unfolding retry
    retry-IsValid none e = tried-IsValid
    retry-IsValid (some m) e = rotated-IsValid m (e m refl)

    settle-IsValid : (r : Added) → IsValid (settle op seq tried r).1
    unfolding settle rotate_memtable signal_flush
    settle-IsValid added = record {
      opened = tried-IsValid.opened;
      written = tried-IsValid.written;
      sealed = tried-IsValid.sealed;
    }
    settle-IsValid record_exists =
        retry-IsValid (new_memtable db.memtable_size) (new_memtable_entries db.memtable_size)
    settle-IsValid full =
        retry-IsValid (new_memtable db.memtable_size) (new_memtable_entries db.memtable_size)

    write-IsValid : IsValid (write op db).1
    write-IsValid =
        subst (λ r. IsValid r.1) (sym (write_open u value kind op w db v room))
          (settle-IsValid (op seq db.mem).0)

  op-older :
      (seq r : ℕ) (m : Memtable) (key : List ℕ)
      → seq < 2 ^ 48
      → r < seq
      → IsText key
      → All (λ d. IsPlain d.0) m.entries
      → get_from_memtable (op seq m).1.entries key r ≡ get_from_memtable m.entries key r
  op-older seq r m key b l x p = elim (Added-cases (op seq m).0) [
    | inl e ↦
        ap (λ es. get_from_memtable es key r) (w.adds seq m e)
        ∙ get_from_memtable-older u seq kind t b k m.entries key value r x l p
    | inr e ↦ ap (λ es. get_from_memtable es key r) (w.keeps seq m e)
  ]

  snapshot_get-op :
      (tables : Tables) (s : Snapshot) (seq : ℕ) (key : List ℕ)
      → s.seq_num < seq
      → seq < 2 ^ 48
      → IsText key
      → All (λ d. IsPlain d.0) s.mem.entries
      → snapshot_get tables (record s { mem = (op seq s.mem).1 }) key ≡ snapshot_get tables s key
  unfolding snapshot_get get_from
  snapshot_get-op tables s seq key l b x p =
      rw (op-older seq s.seq_num s.mem key b l x p, snapshot_get, get_from) refl

-- A `Set` of a text with a sequence number below 2 ^ 48 keeps the database valid, whatever it
-- returns.
pub set-IsValid :
    (u value : List ℕ) (db : Db)
    → IsText u
    → IsValid db
    → db.seq_num + 1 < 2 ^ 48
    → IsValid (set u value db).1
unfolding set
set-IsValid u value db t v room =
    write-IsValid u value kind_set _ (set-Writes u value) t (omega arith) db v room

-- A `Delete` of a text with a sequence number below 2 ^ 48 keeps the database valid, whatever it
-- returns.
pub delete-IsValid :
    (u : List ℕ) (db : Db)
    → IsText u
    → IsValid db
    → db.seq_num + 1 < 2 ^ 48
    → IsValid (delete u db).1
unfolding delete
delete-IsValid u db t v room =
    write-IsValid u [] kind_delete _ (delete-Writes u) t (omega arith) db v room

-- A snapshot shares the active memtable with a valid database. After a `Set` of a text with a later
-- sequence number below 2 ^ 48 went into that memtable it still reads, for a key that is a text, what
-- the database read when it was taken.
pub snapshot_get-set :
    (u value key : List ℕ) (db : Db) (seq : ℕ)
    → IsText u
    → IsText key
    → IsValid db
    → db.seq_num < seq
    → seq < 2 ^ 48
    → snapshot_get db.tables
        (record (new_snapshot db) { mem = (Memtable.set u value seq db.mem).1 })
        key
      ≡ get db key
unfolding new_snapshot
snapshot_get-set u value key db seq t x v l b =
    snapshot_get-op u value kind_set _ (set-Writes u value) t (omega arith) db.tables
      (new_snapshot db) seq key l b x v.written.plain
    ∙ unfold snapshot_get get in rw v.opened refl
