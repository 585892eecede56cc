-- ===== src/Sstable/Reader/Scan.antt =====
-- `First` and `Next` of the two-level iterator of pkg/lsm/sstable/reader.go, over blocks that stand in
-- the file.
use indexed_watch.Prelude.{
  ℕ, zero, suc, ◌+◌, ◌<◌, ◌≡◌, refl, ap, sym, ◌∙◌, none, some, List, [], ◌∷◌, ◌++◌, length,
  length-append, arith, append-nil, u32_mod, All,
}
use indexed_watch.Sstable.Block.{BlockIterator, new_block_writer, new_block_iterator, finish}
use indexed_watch.Sstable.Block
use indexed_watch.Sstable.Block.Runs.{Entry, Fits, Runs, Runs-finish, add_all_restarts}
use indexed_watch.Sstable.Format.{Platform, encode, decode_block_handle}
use indexed_watch.Sstable.Format.Handles.{decode-encode}
use indexed_watch.Sstable.Writer.Chunks.{Chunk, IsChunk, index_entries, entries_of, block_of}
use indexed_watch.Sstable.Reader.{
  Reader, ok, int_mod, read_data_block, load_data_block, enter, TableIterator, next_block,
  or_next_block, following_block, next, first, first_block,
}
use indexed_watch.Sstable.Reader.Blocks.{IsChecksum, read_raw_block-Placed}
use indexed_watch.Sstable.Reader.Opened.{Placed-InRange}
use indexed_watch.Sstable.Reader.Items.{add_item, items, read_table}

-- A chunk that can be read entry by entry.
abbrev pub Readable : Platform → ℕ → List ℕ → Chunk → Type 0
Readable p interval file c =
    IsChunk p interval file c × All Fits c.entries × (length c.entries < u32_mod)

pub chunk_runs :
    (p : Platform) (interval : ℕ) (file : List ℕ) (c : Chunk)
    → Readable p interval file c
    → Runs c.entries (Block.first (new_block_iterator (block_of interval c)))
chunk_runs p interval file c v =
    Runs-finish interval c.entries v.1
      (omega (arith, add_all_restarts c.entries (new_block_writer interval), v.2))

abbrev at_entry : BlockIterator → BlockIterator → TableIterator
at_entry index block = record { index_iter = some index; data_iter = some block; err = none }

module _ (p : Platform) (r : Reader) (interval : ℕ) (uint32 : IsChecksum p.crc32c)
    (short : length r.file < int_mod) where
  load_data_block-chunk :
      (c : Chunk) (index : BlockIterator)
      → Readable p interval r.file c
      → index.val ≡ encode c.handle
      → load_data_block p r index ≡ ok (new_block_iterator (block_of interval c))
  unfolding load_data_block read_data_block
  load_data_block-chunk c index v e =
      let (a, b) = Placed-InRange p r.file c.handle (block_of interval c) short v.0.placed in
      let handle : decode_block_handle index.val
          ≡ some (c.handle, some (length (encode c.handle))) =
        ap decode_block_handle (e ∙ sym (append-nil (encode c.handle)))
        ∙ decode-encode c.handle [] a b in
      rw handle (
        rw (read_raw_block-Placed p r.file c.handle (block_of interval c) uint32 short v.0.placed)
          refl)

  -- The first entry of a block, and what follows.
  enter-items :
      (es : List Entry) (fuel : ℕ) (cs : List Chunk) (it : TableIterator)
      (index block : BlockIterator)
      → it.index_iter ≡ some index
      → it.err ≡ none
      → 0 < length es
      → Runs es (Block.first block)
      → ((e : Entry) (es' : List Entry) (b : BlockIterator)
          → es ≡ e ∷ es'
          → Runs es' (Block.next b)
          → items p r fuel (next p r (at_entry index b)) ≡ some (es' ++ entries_of cs, none))
      → items p r (suc fuel) (enter it (ok block)) ≡ some (es ++ entries_of cs, none)
  unfolding enter items add_item
  enter-items [] fuel cs it index block ix clean h run later = absurd (omega arith)
  enter-items (e ∷ es) fuel cs it index block ix clean h (b, found, _, k, v, run) later =
      let here : record it { data_iter = some b } ≡ at_entry index b = cc in
      rw found (rw here (rw (later e es b refl run) (rw (k, v) refl)))

  items-chunks :
      (fuel : ℕ) (rest : List Entry) (cs : List Chunk) (index block : BlockIterator)
      → Runs rest (Block.next block)
      → Runs (index_entries cs) (Block.next index)
      → All (Readable p interval r.file) cs
      → length rest + length (entries_of cs) < fuel
      → items p r fuel (next p r (at_entry index block)) ≡ some (rest ++ entries_of cs, none)
  unfolding items add_item next next_block or_next_block following_block
  items-chunks zero rest cs index block run ixs v h = absurd (omega arith)
  items-chunks (suc fuel) (e ∷ rest) cs index block (b, found, _, k, x, run) ixs v h =
      rw found (rw (items-chunks fuel rest cs index b run ixs v (omega arith)) (rw (k, x) refl))
  items-chunks (suc fuel) [] [] index block (b, found, _) (i, none_left, _) v h =
      rw found (rw none_left refl)
  items-chunks (suc fuel) [] (c ∷ cs) index block (b, found, _) (i, more, _, _, val, ixs) v h =
      rw found (
        rw more (
          rw (load_data_block-chunk c i v.0 val) (
            enter-items c.entries fuel cs _ i (new_block_iterator (block_of interval c)) refl refl
              v.0.0.nonempty (chunk_runs p interval r.file c v.0)
              (λ e es b' eq run.
                items-chunks fuel es cs i b' run ixs v.1
                  (omega (arith, ap (length {0}) eq, length-append c.entries (entries_of cs)))))))

  pub read_table-chunks :
      (fuel : ℕ) (cs : List Chunk)
      → Runs (index_entries cs) (Block.first (new_block_iterator r.index_block))
      → All (Readable p interval r.file) cs
      → length (entries_of cs) < fuel
      → read_table p r fuel ≡ some (entries_of cs, none)
  unfolding read_table first first_block items
  read_table-chunks zero cs ixs v h = absurd (omega arith)
  read_table-chunks (suc fuel) [] (i, none_left, _) v h = rw none_left refl
  read_table-chunks (suc fuel) (c ∷ cs) (i, more, _, _, val, ixs) v h = rw more (
      rw (load_data_block-chunk c i v.0 val) (
        enter-items c.entries fuel cs _ i (new_block_iterator (block_of interval c)) refl refl
          v.0.0.nonempty (chunk_runs p interval r.file c v.0)
          (λ e es b' eq run.
            items-chunks fuel es cs i b' run ixs v.1
              (omega (arith, ap (length {0}) eq, length-append c.entries (entries_of cs))))))
