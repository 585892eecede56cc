-- ===== src/Sstable/Writer/Calls.antt =====
-- The calls of a program on the writer of pkg/lsm/sstable/writer.go: entries in a list, then Close.
use indexed_watch.Prelude.{Option, none, some, List, [], ◌∷◌}
use indexed_watch.Sstable.Block.Runs.{Entry}
use indexed_watch.Sstable.Format.{Platform}
use indexed_watch.Sstable.Writer.{WriterOptions, Writer, TableMeta, new_writer, add, close}

-- `none` is an error of one of the calls.
unfoldable pub add_entries : Platform → List Entry → Writer → Option Writer
add_entries p [] w = some w
add_entries p ((k, v) ∷ es) w = elim (add p k v w) [ none ↦ none | some w' ↦ add_entries p es w' ]

unfoldable pub write_table : Platform → WriterOptions → List Entry → Option (TableMeta × Writer)
write_table p o es = elim (add_entries p es (new_writer o)) [
  | none ↦ none
  | some w ↦ some (close p w)
]
