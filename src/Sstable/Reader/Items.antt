-- ===== src/Sstable/Reader/Items.antt =====
-- The loop of the program over a table, `for ok := it.First(); ok; ok = it.Next()`, of
-- pkg/lsm/sstable/reader.go: the entries that it reads and the iterator's error at its end.
use indexed_watch.Prelude.{ℕ, zero, suc, Bool, true, false, Option, none, some, List, [], ◌∷◌}
use indexed_watch.Sstable.Block.Runs.{Entry}
use indexed_watch.Sstable.Format.{Platform}
use indexed_watch.Sstable.Reader.{Reader, Failure, TableIterator, new_iterator, first, next}

-- One entry more in front.
unfoldable pub add_item :
    TableIterator → Option (List Entry × Option Failure) → Option (List Entry × Option Failure)
add_item it none = none
add_item it (some (es, e)) = elim it.data_iter [
  | none ↦ none
  | some block ↦ some ((block.key, block.val) ∷ es, e)
]

-- `none` is a panic or no fuel left.
unfoldable pub items :
    Platform → Reader → ℕ → Option (Bool × TableIterator) → Option (List Entry × Option Failure)
items p r zero s = none
items p r (suc fuel) none = none
items p r (suc fuel) (some (false, it)) = some ([], it.err)
items p r (suc fuel) (some (true, it)) = add_item it (items p r fuel (next p r it))

unfoldable pub read_table : Platform → Reader → ℕ → Option (List Entry × Option Failure)
read_table p r fuel = items p r fuel (first p r new_iterator)
