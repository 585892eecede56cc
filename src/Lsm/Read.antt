-- ===== src/Lsm/Read.antt =====
-- The read path of pkg/lsm/lsm.go over the memtables and the files of a version. A memtable and a
-- table are the sequence of their internal keys and values in order, which is what the skiplist and
-- the table iterator step through. Reference counts are left out.
pub mod Hidden
use Prim.Native.Nat.{Ordering}
use indexed_watch.Prelude.{
  ℕ, zero, suc, ◌+◌, ◌/◌, ◌≡◌, Bool, true, false, ◌||◌, Option, none, some, List, [], ◌∷◌, length,
  drop, leb, ltb, ◌==◌, if◌then◌else◌, get_or,
}
use indexed_watch.Bytes.{compare_bytes, is_neg, is_pos, is_zero}
use indexed_watch.Lsm.InternalKey.{
  make_internal_key, parse_internal_key, user_key, kind_set, kind_delete,
}
use indexed_watch.Lsm.SortedMap.{Entries, seek_ge}
use indexed_watch.Lsm.VersionEdit.{FileMeta}
use indexed_watch.Lsm.Version.{Levels, level_files}

-- sort.Search on 0, ..., n - 1; the fuel is n + 1, and the range shrinks in each round.
unfoldable pub search_loop : ℕ → (ℕ → Bool) → ℕ → ℕ → ℕ
search_loop zero f i j = i
search_loop (suc fuel) f i j =
    let h = (i + j) / 2 in
    let next : ℕ × ℕ = if f h then (i, h) else (h + 1, j) in
    let rest = search_loop fuel f next.0 next.1 in if ltb i j then rest else i

abbrev pub search : ℕ → (ℕ → Bool) → ℕ
search n f = search_loop (n + 1) f 0 n

-- What a read returns; `not_found` and `closed` are ErrNotFound and ErrClosed.
pub data Lookup : Type 0 where
  found : List ℕ → Lookup
  not_found closed failed : Lookup

-- What a read of a memtable makes of the entry that it lands on: the value and the kind; `none` is
-- not found.
unfoldable pub hit : List ℕ → Option (List ℕ × List ℕ) → Option (List ℕ × ℕ)
hit key none = none
hit key (some e) =
    if is_zero (compare_bytes (user_key e.0) key)
    then some (e.1, (parse_internal_key e.0).2)
    else none

unfoldable pub get_from_memtable : Entries → List ℕ → ℕ → Option (List ℕ × ℕ)
get_from_memtable m key seq = hit key (seek_ge m (make_internal_key key seq kind_set))

-- What a hit in a memtable means.
unfoldable pub answer : List ℕ × ℕ → Lookup
answer hit = if hit.1 == kind_delete then not_found else found hit.0

-- The tables that can be opened, by file number.
abbrev pub Tables : Type 0
Tables = ℕ → Option Entries

-- The value, nil as `none`, and the kind; `none` is an error, that of a table that cannot be opened.
-- An open table is read without errors; one inside SeekGE would be taken for a missing key.
unfoldable pub get_from_table : Tables → FileMeta → List ℕ → List ℕ → Option (Option (List ℕ) × ℕ)
get_from_table tables f seek_key key = elim (tables f.file_num) [
  | none ↦ none
  | some es ↦ elim (seek_ge es seek_key) [
    | none ↦ some (none, 0)
    | some e ↦
        if is_zero (compare_bytes (user_key e.0) key)
        then (if (parse_internal_key e.0).2 == kind_delete
            then some (none, kind_delete)
            else some (some e.1, kind_set))
        else some (none, 0)
  ]
]

-- What both loops do with the result of a table; `none` goes on.
unfoldable pub table_answer : Option (Option (List ℕ) × ℕ) → Option Lookup
table_answer none = some failed
table_answer (some (val, kind)) =
    if kind == kind_delete
    then some not_found
    else elim val [ none ↦ none | some v ↦ some (found v) ]

-- The loop over level 0, from the last file to the first.
unfoldable pub search_level_zero : Tables → List ℕ → List ℕ → List FileMeta → Option Lookup
search_level_zero tables seek_key key [] = none
search_level_zero tables seek_key key (f ∷ fs) = elim (search_level_zero tables seek_key key fs) [
  | some r ↦ some r
  | none ↦
      if is_neg (compare_bytes key (user_key f.smallest_key))
        || is_pos (compare_bytes key (user_key f.largest_key))
      then none
      else table_answer (get_from_table tables f seek_key key)
]

-- The test of the binary search: the file at this place ends at or behind the key.
unfoldable pub reaches : List ℕ → List FileMeta → ℕ → Bool
reaches key files i = elim (drop i files) [
  | [] ↦ false
  | f ∷ fs ↦ if is_neg (compare_bytes (user_key f.largest_key) key) then false else true
]

-- The loop over the deeper levels.
unfoldable pub search_deeper : Tables → List ℕ → List ℕ → Levels → Lookup
search_deeper tables seek_key key [] = not_found
search_deeper tables seek_key key (files ∷ levels) =
    let rest = search_deeper tables seek_key key levels in
    if length files == 0
    then rest
    else elim (drop (search (length files) (reaches key files)) files) [
      | [] ↦ rest
      | f ∷ fs ↦
          if is_neg (compare_bytes key (user_key f.smallest_key))
          then rest
          else elim (table_answer (get_from_table tables f seek_key key)) [
            | some r ↦ r
            | none ↦ rest
          ]
    ]

unfoldable pub get_from_version : Tables → Levels → List ℕ → ℕ → Lookup
get_from_version tables v key seq =
    let seek_key = make_internal_key key seq kind_set in
    elim (search_level_zero tables seek_key key (level_files v 0)) [
      | some r ↦ r
      | none ↦ search_deeper tables seek_key key (drop 1 v)
    ]

-- The first of two hits.
abbrev pub or_else : Option (List ℕ × ℕ) → Option (List ℕ × ℕ) → Option (List ℕ × ℕ)
or_else none rest = rest
or_else (some first) rest = some first

-- The sealed memtables, from the last to the first.
unfoldable pub get_from_sealed : List Entries → List ℕ → ℕ → Option (List ℕ × ℕ)
get_from_sealed [] key seq = none
get_from_sealed (m ∷ imms) key seq =
    or_else (get_from_sealed imms key seq) (get_from_memtable m key seq)

-- A hit answers; without one the search goes on.
abbrev pub answer_or : Option (List ℕ × ℕ) → Lookup → Lookup
answer_or none rest = rest
answer_or (some first) rest = answer first

-- What a read looks at: the active memtable, the sealed ones, oldest first, and a version.
unfoldable pub get_from : Tables → Entries → List Entries → Levels → List ℕ → ℕ → Lookup
get_from tables mem imm v key seq =
    answer_or (or_else (get_from_memtable mem key seq) (get_from_sealed imm key seq))
      (get_from_version tables v key seq)
