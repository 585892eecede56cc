-- ===== src/Lsm/Database/Refinement.antt =====
-- The database of pkg/lsm/lsm.go as a map from keys to values.
use indexed_watch.Prelude.{ℕ, ◌+◌, ◌≤◌, ◌≡◌, List, [], ◌∷◌, if◌then◌else◌, length}
use indexed_watch.Bytes.{compare_bytes, is_zero}
use indexed_watch.Lsm.InternalKey.Plain.{IsText}
use indexed_watch.Lsm.Read.{Lookup, found, not_found, get_from_version}
use indexed_watch.Lsm.Database.{Db, set, delete, get}
use indexed_watch.Lsm.Database.Writes.{IsValid}

pub data Op : Type 0 where
  put : List ℕ → List ℕ → Op
  remove : List ℕ → Op

-- The database after some writes.
abbrev pub run : List Op → Db → Db
run [] db = db
run (put key value ∷ ops) db = run ops (set key value db).1
run (remove key ∷ ops) db = run ops (delete key db).1

abbrev pub Map : Type 0
Map = List ℕ → Lookup

abbrev pub update : List ℕ → Lookup → Map → Map
update key l m k = if is_zero (compare_bytes key k) then l else m k

-- The map after the same writes.
abbrev pub map_run : List Op → Map → Map
map_run [] m = m
map_run (put key value ∷ ops) m = map_run ops (update key (found value) m)
map_run (remove key ∷ ops) m = map_run ops (update key not_found m)

-- A write of a text, with a node that fits into an empty memtable of this size.
abbrev pub Fits : ℕ → Op → Type 0
Fits n (put key value) = IsText key × (207 + length key + length value ≤ n)
Fits n (remove key) = IsText key × (207 + length key ≤ n)

-- The database is valid and reads as the map, for the keys that are texts; its tables show the same
-- at all sequence numbers from now on.
pub record Reads (m : Map) (db : Db) : Type 0 where
  pub valid : IsValid db
  pub reads : (key : List ℕ) → IsText key → get db key ≡ m key
  pub tables_older :
      (key : List ℕ) (n : ℕ)
      → db.seq_num ≤ n
      → get_from_version db.tables db.version key n
        ≡ get_from_version db.tables db.version key db.seq_num
