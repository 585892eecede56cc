-- ===== src/Lsm/Memtable.antt =====
-- pkg/lsm/memtable/memtable.go over pkg/lsm/skiplist: a sequence of entries in the order of their
-- internal keys, and an arena that bounds it. The skiplist is what its callers see of it, one call
-- after another: `newNode` takes the room of a node and the bytes of the key and the value from the
-- arena, whatever the height of its tower. Reference counts are left out.
pub mod Newest
pub mod Versions
use indexed_watch.Prelude.{
  ℕ, ◌+◌, ◌*◌, ◌/◌, ◌%◌, ◌^◌, ◌≤◌, ◌<◌, ◌≡◌, Bool, true, false, not, ◌&&◌, Option, none, some, List,
  [], ◌∷◌, length, ltb, leb, ◌==◌, if◌then◌else◌, u32_mod, arith,
}
use indexed_watch.Bytes.{compare_bytes, is_zero}
use indexed_watch.Lsm.Arena.{Arena, new, alloc, size}
use indexed_watch.Lsm.InternalKey.{make_internal_key, parse_internal_key, kind_set, kind_delete}
use indexed_watch.Lsm.SortedMap.{Entries, seek_ge, has_key, insert_entry}

abbrev pub max_height : ℕ
max_height = 20

-- unsafe.Sizeof(node{}): four uint32 and a tower of max_height uint32.
abbrev pub max_node_size : ℕ
max_node_size = 16 + 4 * max_height

abbrev pub node_alignment : ℕ
node_alignment = 4

-- The offset; `none` is ErrFull.
unfoldable pub new_node : List ℕ → List ℕ → Arena → Option ℕ × Arena
new_node key value a =
    alloc ((max_node_size + length key % u32_mod + length value % u32_mod) % u32_mod) node_alignment
      a

pub record Memtable : Type 0 where
  pub entries : Entries
  pub arena : Arena
  pub min_seq_num : ℕ
  pub max_seq_num : ℕ

-- `none` is the panic of `skiplist.New` when the head node has no room.
unfoldable pub new_memtable : ℕ → Option Memtable
new_memtable arena_size =
    let head = new_node [] [] (new arena_size) in
    elim head.0 [
      | none ↦ none
      | some offset ↦
          some (record { entries = []; arena = head.1; min_seq_num = 0; max_seq_num = 0 })
    ]

-- What `Add` returns: nil, ErrRecordExists, ErrFull.
pub data Added : Type 0 where
  added record_exists full : Added

-- `Skiplist.Add`.
unfoldable pub add : List ℕ → List ℕ → Memtable → Added × Memtable
add key value m =
    if has_key m.entries key
    then (record_exists, m)
    else let node = new_node key value m.arena in
      elim node.0 [
        | none ↦ (full, record m { arena = node.1 })
        | some offset ↦
            (added, record m { entries = insert_entry (key, value) m.entries; arena = node.1 })
      ]

unfoldable pub update_seq_range : ℕ → Memtable → Memtable
update_seq_range seq m = record m {
  min_seq_num = if not (m.min_seq_num == 0) && leb m.min_seq_num seq then m.min_seq_num else seq;
  max_seq_num = if leb seq m.max_seq_num then m.max_seq_num else seq;
}

unfoldable pub set : List ℕ → List ℕ → ℕ → Memtable → Added × Memtable
set key value seq m = add (make_internal_key key seq kind_set) value (update_seq_range seq m)

-- A tombstone has no value.
unfoldable pub delete : List ℕ → ℕ → Memtable → Added × Memtable
delete key seq m = add (make_internal_key key seq kind_delete) [] (update_seq_range seq m)

-- What `Memtable.Get` makes of the entry that it lands on; `bytesEqual` holds of the same strings as
-- a comparison that gives 0.
unfoldable pub value_at : List ℕ → Option (List ℕ × List ℕ) → Option (List ℕ)
value_at key none = none
value_at key (some e) =
    let parts = parse_internal_key e.0 in
    if is_zero (compare_bytes parts.0 key)
    then (if parts.2 == kind_delete then none else some e.1)
    else none

unfoldable pub get_value : Memtable → List ℕ → ℕ → Option (List ℕ)
get_value m key seq = value_at key (seek_ge m.entries (make_internal_key key seq kind_set))

-- The product is of uint32.
unfoldable pub is_full : Memtable → Bool
is_full m = ltb (m.arena.capacity * 95 % u32_mod / 100) (size m.arena)

-- Above 42,949,672 used bytes a memtable counts as full, however large its arena is.
pub is_full-size : (m : Memtable) → 2 ^ 32 / 100 < size m.arena → is_full m ≡ true
unfolding is_full
is_full-size m h = ground arith
