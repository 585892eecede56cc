-- ===== src/Lsm/Database/Writes.antt =====
-- Reads behind the writes of pkg/lsm/lsm.go.
use indexed_watch.Prelude.{
  ℕ, ◌+◌, ◌%◌, ◌^◌, ◌≤◌, ◌<◌, ◌≡◌, ◌≢◌, ◌⊎◌, refl, ap, ◌∙◌, sym, subst, false, Option, none, some,
  List, [], ◌∷◌, ◌++◌, All, All-zip, inl, inr, arith, u64_mod, if◌then◌else◌,
}
use indexed_watch.Lsm.InternalKey.{kind_set, kind_delete, make_internal_key}
use indexed_watch.Lsm.InternalKey.Plain.{IsText}
use indexed_watch.Lsm.SortedMap.{Entries, insert_entry}
use indexed_watch.Lsm.Memtable.{
  Memtable, Added, added, record_exists, full, add, new_node, new_memtable, update_seq_range,
}
use indexed_watch.Lsm.Memtable
use indexed_watch.Lsm.Memtable.Versions.{IsWritten, get_from_memtable-insert_entry}
use indexed_watch.Lsm.Read.{found, not_found, get_from, get_from_memtable, answer}
use indexed_watch.Lsm.Database.{
  Db, closed, panicked, done, settle, attempt, write, retry, entries_of, rotate_memtable,
  signal_flush, set, delete, get,
}

-- The database is open, and its entries have been written with the sequence numbers so far.
pub record IsValid (db : Db) : Type 0 where
  pub opened : db.closed ≡ false
  pub written : IsWritten db.seq_num db.mem.entries
  pub sealed : All (IsWritten db.seq_num) (entries_of db.imm)

-- An operation that writes one version of a key.
pub record Writes (u value : List ℕ) (kind : ℕ) (op : ℕ → Memtable → Added × Memtable)
    : Type 0 where
  pub adds :
      (seq : ℕ) (m : Memtable)
      → (op seq m).0 ≡ added
      → (op seq m).1.entries ≡ insert_entry (make_internal_key u seq kind, value) m.entries
  pub keeps : (seq : ℕ) (m : Memtable) → (op seq m).0 ≢ added → (op seq m).1.entries ≡ m.entries

add_entries :
    (key value : List ℕ) (m : Memtable)
    → (add key value m).0 ≡ added
    → (add key value m).1.entries ≡ insert_entry (key, value) m.entries
unfolding add
add_entries key value m h = ground arith

add_keeps :
    (key value : List ℕ) (m : Memtable)
    → (add key value m).0 ≢ added
    → (add key value m).1.entries ≡ m.entries
unfolding add
add_keeps key value m h = ground arith

pub new_memtable_entries : (n : ℕ) (m : Memtable) → new_memtable n ≡ some m → m.entries ≡ []
unfolding new_memtable
new_memtable_entries n m h = ground arith

-- A write put an entry into the active memtable, or into a new one with the old one sealed.
pub record Appended (x : List ℕ × List ℕ) (db db' : Db) : Type 0 where
  pub base : Entries
  pub entries : db'.mem.entries ≡ insert_entry x base
  pub origin :
      ((base ≡ db.mem.entries) × (entries_of db'.imm ≡ entries_of db.imm))
      ⊎ ((base ≡ []) × (entries_of db'.imm ≡ entries_of db.imm ++ db.mem.entries ∷ []))
  pub number : db'.seq_num ≡ db.seq_num + 1
  pub opened : db'.closed ≡ false
  pub same_size : db'.memtable_size ≡ db.memtable_size
  pub same_version : db'.version ≡ db.version
  pub same_tables : db'.tables ≡ db.tables

pub entries_of-append :
    (ms : List Memtable) (m : Memtable)
    → entries_of (ms ++ m ∷ []) ≡ entries_of ms ++ m.entries ∷ []
entries_of-append [] m = refl
entries_of-append (x ∷ ms) m = ap (λ l. x.entries ∷ l) (entries_of-append ms m)

module _ (u value : List ℕ) (kind : ℕ) (op : ℕ → Memtable → Added × Memtable)
    (w : Writes u value kind op) (db : Db) (v : IsValid db) (room : db.seq_num + 1 < 2 ^ 48) where
  abbrev seq : ℕ
  seq = db.seq_num + 1

  abbrev x : List ℕ × List ℕ
  x = (make_internal_key u seq kind, value)

  abbrev tried : Db
  tried = record db { seq_num = seq; last_seq_num = seq; mem = (op seq db.mem).1 }

  second :
      (m : Memtable)
      → m.entries ≡ []
      → (op seq db.mem).0 ≢ added
      → (op seq m).0 ≡ added
      → Appended x db (
          signal_flush
            (record tried { mem = (op seq m).1; imm = db.imm ++ (op seq db.mem).1 ∷ [] }))
  unfolding signal_flush
  second m e f h = record {
    base = [];
    entries = w.adds seq m h ∙ ap (insert_entry x) e;
    origin = inr (
      refl,
      entries_of-append db.imm (op seq db.mem).1
          ∙ ap (λ l. entries_of db.imm ++ l ∷ []) (w.keeps seq db.mem f),
    );
    number = refl;
    opened = v.opened;
    same_size = refl;
    same_version = refl;
    same_tables = refl;
  }

  retry-Appended :
      (op seq db.mem).0 ≢ added
      → (r : Option Memtable) → ((m : Memtable) → r ≡ some m → m.entries ≡ [])
      → (retry op seq tried (elim r [
        | none ↦ none
        | some m ↦ some (record tried { mem = m; imm = tried.imm ++ tried.mem ∷ [] })
      ])).0
        ≡ done added
      → Appended x db
          (retry op seq tried (elim r [
            | none ↦ none
            | some m ↦ some (record tried { mem = m; imm = tried.imm ++ tried.mem ∷ [] })
          ])).1
  unfolding retry
  retry-Appended f none e h = absurd (panic h)
    where
      panic : panicked ≡ done added → ⊥
      panic h = cc
  retry-Appended f (some m) e h = second m (e m refl) f (inner h)
    where
      inner : done (op seq m).0 ≡ done added → (op seq m).0 ≡ added
      inner h = cc

  record_exists_added : record_exists ≡ added → ⊥
  record_exists_added h = cc

  full_added : full ≡ added → ⊥
  full_added h = cc

  settle-Appended :
      (r : Added)
      → (op seq db.mem).0 ≡ r
      → (settle op seq tried r).0 ≡ done added
      → Appended x db (settle op seq tried r).1
  unfolding settle rotate_memtable signal_flush
  settle-Appended added e h = record {
    base = db.mem.entries;
    entries = w.adds seq db.mem e;
    origin = inl (refl, refl);
    number = refl;
    opened = v.opened;
    same_size = refl;
    same_version = refl;
    same_tables = refl;
  }
  settle-Appended record_exists e h =
      retry-Appended (λ a. record_exists_added (sym e ∙ a)) (new_memtable db.memtable_size)
        (new_memtable_entries db.memtable_size) h
  settle-Appended full e h =
      retry-Appended (λ a. full_added (sym e ∙ a)) (new_memtable db.memtable_size)
        (new_memtable_entries db.memtable_size) h

  pub write_open : write op db ≡ settle op seq tried (op seq db.mem).0
  unfolding write
  write_open =
      ap (λ c. if c then (closed, db) else attempt op ((db.seq_num + 1) % u64_mod) db) v.opened
      ∙ ap (λ n. attempt op n db) (omega (arith, room))

  -- A write that succeeds has put its version into the active memtable.
  pub write-Appended : (write op db).0 ≡ done added → Appended x db (write op db).1
  write-Appended =
      subst (λ r. r.0 ≡ done added → Appended x db r.1) (sym write_open) (settle-Appended _ refl)

pub set-Writes : (u value : List ℕ) → Writes u value kind_set (λ seq m. Memtable.set u value seq m)
unfolding Memtable.set update_seq_range
set-Writes u value = record {
  adds = λ seq m h. add_entries (make_internal_key u seq kind_set) value (update_seq_range seq m) h;
  keeps = λ seq m h. add_keeps (make_internal_key u seq kind_set) value (update_seq_range seq m) h;
}

pub delete-Writes : (u : List ℕ) → Writes u [] kind_delete (λ seq m. Memtable.delete u seq m)
unfolding Memtable.delete update_seq_range
delete-Writes u = record {
  adds = λ seq m h. add_entries (make_internal_key u seq kind_delete) [] (update_seq_range seq m) h;
  keeps = λ seq m h. add_keeps (make_internal_key u seq kind_delete) [] (update_seq_range seq m) h;
}

pub IsWritten-later : (m n : ℕ) (es : Entries) → m ≤ n → IsWritten m es → IsWritten n es
IsWritten-later m n es h w = record {
  sorted = w.sorted;
  plain = w.plain;
  bounded = All-zip (λ d a b. omega arith) es w.bounded w.bounded;
}

pub nil-IsWritten : (n : ℕ) → IsWritten n []
nil-IsWritten n = record { sorted = tt; plain = tt; bounded = tt }

module _ (u value : List ℕ) (kind : ℕ) (t : IsText u) (k : kind < 2) (db db' : Db) (v : IsValid db)
    (room : db.seq_num + 1 < 2 ^ 48)
    (a : Appended (make_internal_key u (db.seq_num + 1) kind, value) db db') where
  base-IsWritten : IsWritten db.seq_num a.base
  base-IsWritten = elim a.origin [
    | inl h ↦ subst (IsWritten db.seq_num) (sym h.0) v.written
    | inr h ↦ subst (IsWritten db.seq_num) (sym h.0) (nil-IsWritten db.seq_num)
  ]

  Appended-get_from_memtable : get_from_memtable db'.mem.entries u db'.seq_num ≡ some (value, kind)
  Appended-get_from_memtable =
      rw (a.entries, a.number)
        (get_from_memtable-insert_entry u (db.seq_num + 1) kind t room k db.seq_num a.base
          base-IsWritten (omega arith) value)

  Appended-get : get db' u ≡ answer (value, kind)
  unfolding get get_from
  Appended-get = rw (a.opened, get) (rw (Appended-get_from_memtable, get_from) refl)

pub set-Appended :
    (u value : List ℕ) (db : Db)
    → IsValid db
    → db.seq_num + 1 < 2 ^ 48
    → (set u value db).0 ≡ done added
    → Appended (make_internal_key u (db.seq_num + 1) kind_set, value) db (set u value db).1
unfolding set
set-Appended u value db v room h =
    write-Appended u value kind_set _ (set-Writes u value) db v room h

pub delete-Appended :
    (u : List ℕ) (db : Db)
    → IsValid db
    → db.seq_num + 1 < 2 ^ 48
    → (delete u db).0 ≡ done added
    → Appended (make_internal_key u (db.seq_num + 1) kind_delete, []) db (delete u db).1
unfolding delete
delete-Appended u db v room h = write-Appended u [] kind_delete _ (delete-Writes u) db v room h

-- A successful `Set` of a text in a valid database, with a sequence number below 2 ^ 48, is read
-- back.
pub get-set :
    (u value : List ℕ) (db : Db)
    → IsText u
    → IsValid db
    → db.seq_num + 1 < 2 ^ 48
    → (set u value db).0 ≡ done added
    → get (set u value db).1 u ≡ found value
unfolding answer
get-set u value db t v room h =
    Appended-get u value kind_set t (omega arith) db _ v room (set-Appended u value db v room h)

-- After a successful `Delete` of a text in a valid database, with a sequence number below 2 ^ 48, the
-- key is not found.
pub get-delete :
    (u : List ℕ) (db : Db)
    → IsText u
    → IsValid db
    → db.seq_num + 1 < 2 ^ 48
    → (delete u db).0 ≡ done added
    → get (delete u db).1 u ≡ not_found
unfolding answer
get-delete u db t v room h =
    Appended-get u [] kind_delete t (omega arith) db _ v room (delete-Appended u db v room h)
