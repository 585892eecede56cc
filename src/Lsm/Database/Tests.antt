-- ===== src/Lsm/Database/Tests.antt =====
-- Runs of the database of pkg/lsm/lsm.go and of its memtables.
use indexed_watch.Prelude.{ℕ, ◌≡◌, refl, true, false, none, some, List, [], ◌∷◌, arith}
use indexed_watch.Bytes.{compare_bytes}
use indexed_watch.Bytes.Fixed.{be_bytes, be_read}
use indexed_watch.Lsm.Arena.{new, size, alloc}
use indexed_watch.Lsm.InternalKey.{
  make_internal_key, kind_set, user_key, parse_internal_key, trailer,
}
use indexed_watch.Lsm.InternalKey.Plain.{IsText, make-IsPlain}
use indexed_watch.Lsm.SortedMap.{Entries, has_key, seek_ge}
use indexed_watch.Lsm.Version.{new_version}
use indexed_watch.Lsm.Manifest.{new_version_set}
use indexed_watch.Lsm.Memtable.{
  new_memtable, Memtable, added, add, new_node, is_full, is_full-size, get_value,
}
use indexed_watch.Lsm.Memtable
use indexed_watch.Lsm.Memtable.Newest.{Newest, get_from_memtable-Newest}
use indexed_watch.Lsm.Read.{found, not_found, hit, get_from_memtable}
use indexed_watch.Lsm.Database.{
  Db, set, delete, get, done, open_db, new_snapshot, snapshot_get, write, settle,
}
use indexed_watch.Lsm.Database.Writes.{IsValid, get-set, get-delete}
use indexed_watch.Lsm.Database.Invariant.{set-IsValid, delete-IsValid, snapshot_get-set}
use indexed_watch.Lsm.Database.Progress.{set-fits, delete-fits}
use indexed_watch.Lsm.Database.Refinement.{Map}

abbrev empty_db : Db
empty_db = record {
  closed = false;
  memtable_size = 320;
  seq_num = 0;
  last_seq_num = 0;
  mem = record {
    entries = [];
    arena = record { n = 100; capacity = 320 };
    min_seq_num = 0;
    max_seq_num = 0;
  };
  imm = [];
  version = new_version;
  tables = λ n. none;
  flush_signal = false;
}

opens : open_db 320 (new_version_set []) (λ n. none) ≡ some empty_db
unfolding open_db new_version_set new_memtable new_node new alloc
opens = refl

empty_db-IsValid : IsValid empty_db
empty_db-IsValid = record {
  opened = refl;
  written = record { sorted = tt; plain = tt; bounded = tt };
  sealed = tt;
}

abbrev u : List ℕ
u = 97 ∷ []

u-IsText : IsText u
u-IsText = (omega arith, tt)

abbrev empty_memtable : Memtable
empty_memtable = record {
  entries = [];
  arena = record { n = 100; capacity = 320 };
  min_seq_num = 0;
  max_seq_num = 0;
}

set-fits_example : (set u (1 ∷ []) empty_db).0 ≡ done added
set-fits_example =
    set-fits u (1 ∷ []) empty_db empty_db-IsValid (omega arith) (omega arith) (omega arith)

delete-fits_example : (delete u empty_db).0 ≡ done added
delete-fits_example =
    delete-fits u empty_db empty_db-IsValid (omega arith) (omega arith) (omega arith)

set_ok : (set u (1 ∷ []) empty_db).0 ≡ done added
unfolding set Memtable.set Memtable.update_seq_range write settle add new_node alloc has_key
    make_internal_key be_bytes
set_ok = refl

delete_ok : (delete u empty_db).0 ≡ done added
unfolding delete Memtable.delete Memtable.update_seq_range write settle add new_node alloc has_key
    make_internal_key be_bytes
delete_ok = refl

get-set_example : get (set u (1 ∷ []) empty_db).1 u ≡ found (1 ∷ [])
get-set_example = get-set u (1 ∷ []) empty_db u-IsText empty_db-IsValid (omega arith) set_ok

get-delete_example : get (delete u empty_db).1 u ≡ not_found
get-delete_example = get-delete u empty_db u-IsText empty_db-IsValid (omega arith) delete_ok

set-IsValid_example : IsValid (set u (1 ∷ []) empty_db).1
set-IsValid_example = set-IsValid u (1 ∷ []) empty_db u-IsText empty_db-IsValid (omega arith)

delete-IsValid_example : IsValid (delete u empty_db).1
delete-IsValid_example = delete-IsValid u empty_db u-IsText empty_db-IsValid (omega arith)

snapshot_get-set_example :
    snapshot_get empty_db.tables
      (record (new_snapshot empty_db) { mem = (Memtable.set u (1 ∷ []) 1 empty_db.mem).1 })
      u
    ≡ get empty_db u
snapshot_get-set_example =
    snapshot_get-set u (1 ∷ []) u empty_db 1 u-IsText u-IsText empty_db-IsValid (omega arith)
      (omega arith)

abbrev nothing : Map
nothing key = not_found

abbrev one_entry : Entries
one_entry = (make_internal_key u 1 kind_set, 7 ∷ []) ∷ []

get_from_memtable-Newest_example : Newest one_entry u 5 (some (7 ∷ [], kind_set))
unfolding get_from_memtable seek_ge hit user_key make_internal_key compare_bytes parse_internal_key
    be_bytes trailer be_read
get_from_memtable-Newest_example =
    get_from_memtable-Newest one_entry u 5 u-IsText (omega arith) (tt, tt)
      (make-IsPlain u 1 kind_set u-IsText (omega arith) (omega arith), tt)

-- The default size of a memtable, with 43,000,000 bytes in use.
is_full-size_example :
    is_full (record empty_memtable { arena = record { n = 43000000; capacity = 67108864 } }) ≡ true
is_full-size_example =
    is_full-size (record empty_memtable { arena = record { n = 43000000; capacity = 67108864 } })
      (unfold size in omega arith)
