-- ===== src/Lsm/Database.antt =====
-- pkg/lsm/lsm.go: the database, its writes and reads, and snapshots. A call holds the state from its
-- start to its end. The background flush and compaction are not steps of these calls: a write only
-- leaves the signal for the flush.
pub mod Writes
pub mod Invariant
pub mod Progress
pub mod Others
pub mod Refinement
pub mod Tests
use Prim.Native.Nat.{Ordering}
use indexed_watch.Prelude.{
  ℕ, ◌+◌, ◌*◌, ◌%◌, ◌≡◌, Bool, true, false, ◌||◌, Option, none, some, List, [], ◌∷◌, ◌++◌,
  if◌then◌else◌, u64_mod, length, leb, not, ◌==◌, ltb,
}
use indexed_watch.Lsm.SortedMap.{Entries}
use indexed_watch.Lsm.Version.{Levels}
use indexed_watch.Lsm.Manifest.{VersionSet}
use indexed_watch.Lsm.Memtable.{Memtable, Added, added, record_exists, full, new_memtable}
use indexed_watch.Lsm.Memtable
use indexed_watch.Lsm.Read.{Tables, Lookup, found, not_found, get_from}
use indexed_watch.Lsm.Read

abbrev pub default_memtable_size : ℕ
default_memtable_size = 64 * 1024 * 1024

pub record Db : Type 0 where
  pub closed : Bool
  pub memtable_size : ℕ
  pub seq_num : ℕ
  pub last_seq_num : ℕ
  pub mem : Memtable
  pub imm : List Memtable
  pub version : Levels
  pub tables : Tables
  pub flush_signal : Bool

-- `Open` behind the recovery of the version set; `none` is a panic of `memtable.New`. A size that is
-- not positive stands for the default.
unfoldable pub open_db : ℕ → VersionSet → Tables → Option Db
open_db memtable_size versions tables =
    let arena_size = if memtable_size == 0 then default_memtable_size else memtable_size in
    elim (new_memtable arena_size) [
      | none ↦ none
      | some m ↦ some (record {
        closed = false;
        memtable_size = arena_size;
        seq_num = versions.last_seq_num;
        last_seq_num = versions.last_seq_num;
        mem = m;
        imm = [];
        version = versions.current;
        tables = tables;
        flush_signal = false;
      })
    ]

pub record Snapshot : Type 0 where
  pub closed : Bool
  pub seq_num : ℕ
  pub v : Levels
  pub mem : Memtable
  pub imm : List Memtable

-- What a write returns: ErrClosed, what the memtable returned last, or the panic of `memtable.New`.
pub data Outcome : Type 0 where
  closed panicked : Outcome
  done : Added → Outcome

-- The sealed memtables, oldest first, with the active one behind them; `none` is a panic.
unfoldable pub rotate_memtable : Db → Option Db
rotate_memtable db = elim (new_memtable db.memtable_size) [
  | none ↦ none
  | some m ↦ some (record db { mem = m; imm = db.imm ++ db.mem ∷ [] })
]

-- The channel holds one signal. The goroutine that takes it, and flushes, is not a step of this model.
unfoldable pub signal_flush : Db → Db
signal_flush db = record db { flush_signal = ltb 0 (length db.imm) || db.flush_signal }

-- The second try of a write, on the database with the new memtable, if there is one.
unfoldable pub retry : (ℕ → Memtable → Added × Memtable) → ℕ → Db → Option Db → Outcome × Db
retry op seq db none = (panicked, db)
retry op seq db (some rotated) =
    let second = op seq rotated.mem in
    (done second.0, signal_flush (record rotated { mem = second.1 }))

-- What follows the first try: any error leads to a second one.
unfoldable pub settle : (ℕ → Memtable → Added × Memtable) → ℕ → Db → Added → Outcome × Db
settle op seq db added = (done added, signal_flush db)
settle op seq db record_exists = retry op seq db (rotate_memtable db)
settle op seq db full = retry op seq db (rotate_memtable db)

-- The first try, and what follows, with this sequence number.
abbrev pub attempt : (ℕ → Memtable → Added × Memtable) → ℕ → Db → Outcome × Db
attempt op seq db =
    let first = op seq db.mem in
    settle op seq (record db { seq_num = seq; last_seq_num = seq; mem = first.1 }) first.0

-- What `Set` and `Delete` share, around the memtable's own operation.
unfoldable pub write : (ℕ → Memtable → Added × Memtable) → Db → Outcome × Db
write op db = if db.closed then (closed, db) else attempt op ((db.seq_num + 1) % u64_mod) db

unfoldable pub set : List ℕ → List ℕ → Db → Outcome × Db
set key value db = write (λ seq m. Memtable.set key value seq m) db

unfoldable pub delete : List ℕ → Db → Outcome × Db
delete key db = write (λ seq m. Memtable.delete key seq m) db

abbrev pub entries_of : List Memtable → List Entries
entries_of [] = []
entries_of (m ∷ ms) = m.entries ∷ entries_of ms

unfoldable pub get : Db → List ℕ → Lookup
get db key =
    if db.closed
    then Read.closed
    else get_from db.tables db.mem.entries (entries_of db.imm) db.version key db.seq_num

unfoldable pub new_snapshot : Db → Snapshot
new_snapshot db = record {
  closed = false;
  seq_num = db.seq_num;
  v = db.version;
  mem = db.mem;
  imm = db.imm;
}

-- The tables are those of the database at the time of the call.
unfoldable pub snapshot_get : Tables → Snapshot → List ℕ → Lookup
snapshot_get tables s key =
    if s.closed
    then Read.closed
    else get_from tables s.mem.entries (entries_of s.imm) s.v key s.seq_num
