-- ===== src/Sstable/Reader/Get.antt =====
-- `Get` of pkg/lsm/sstable/reader.go on a table that pkg/lsm/sstable/writer.go wrote.
use indexed_watch.Prelude.{
  ℕ, ◌+◌, ◌*◌, ◌<◌, ◌≡◌, refl, ap, sym, subst, ◌∙◌, Bool, true, false, Bool-cases, inl, inr, some,
  List, [], ◌∷◌, ◌++◌, append-nil, arith, length, if◌then◌else◌, u32_mod, All, All-append-split,
}
use indexed_watch.Sstable.Block.{BlockIterator, new_block_writer, finish, new_block_iterator}
use indexed_watch.Sstable.Block
use indexed_watch.Sstable.Block.Runs.{Entry, add_all, Fits, Runs, add_all_restarts, length-finish}
use indexed_watch.Sstable.Block.Runs.Seek.{
  Ascending, Below, HeadReaches, Sought, seek_ge-finish, add_all_size,
}
use indexed_watch.Sstable.Block.Runs.Again.{Same, first-seek_ge, next-Same}
use indexed_watch.Sstable.Bloom.{may_contain, calc_n_lines}
use indexed_watch.Sstable.Format.{Platform, encode, decode_block_handle}
use indexed_watch.Sstable.Format.Handles.{decode-encode}
use indexed_watch.Sstable.Writer.{WriterOptions, with_defaults, Writer, TableMeta}
use indexed_watch.Sstable.Writer.Calls.{write_table}
use indexed_watch.Sstable.Writer.Chunks.{
  Chunk, Placed-bound, IsChunk, index_entries, entries_of, block_of,
}
use indexed_watch.Sstable.Writer.Order.{Parted, Ascending-append}
use indexed_watch.Sstable.Reader.{
  Reader, ok, failed, not_found, ◌>>=◌, new_reader, seek_last, find_data_block, read_data_block,
  get_from_block, search_blocks, get,
}
use indexed_watch.Sstable.Reader.Blocks.{IsChecksum, read_raw_block-Placed}
use indexed_watch.Sstable.Reader.Opened.{Placed-InRange}
use indexed_watch.Sstable.Reader.Scan.{Readable}
use indexed_watch.Sstable.Reader.RoundTrip.{
  Reopened, reopened, write_table-Closed, may_contain-Reopened,
}
use indexed_watch.Sstable.Reader.Find.{find, find-nothing, find-cases, get_from_block-finish}
use indexed_watch.Sstable.Reader.Lookup.{
  At, index-At, index_Ascending, find-passed, find-At, seek_last-Runs,
}

module _ (p : Platform) (r : Reader) (interval : ℕ) (uint32 : IsChecksum p.crc32c)
    (short : length r.file < u32_mod) where
  -- The block of a chunk is searched.
  read_chunk :
      (c : Chunk) (key : List ℕ)
      → Readable p interval r.file c
      → Ascending c.entries
      → (read_data_block p r c.handle >>= get_from_block key) ≡ find key c.entries
  unfolding read_data_block
  read_chunk c key v up =
      let block = block_of interval c in
      let w = add_all c.entries (new_block_writer interval) in
      rw (read_raw_block-Placed p r.file c.handle block uint32 (omega arith) v.0.placed) (
        get_from_block-finish interval c.entries key v.1 up
          (omega (arith, length-finish w, Placed-bound p r.file c.handle block v.0.placed))
          (omega (arith, add_all_restarts c.entries (new_block_writer interval), v.2)) v.0.nonempty)

  -- The chunk of an index entry is decoded, read and searched.
  found_chunk :
      (cs : List Chunk) (passed left : List Entry) (e : Entry) (key : List ℕ) (it : BlockIterator)
      → (a : At cs passed e)
      → Block.seek_ge key (new_block_iterator r.index_block) ≡ some (true, it)
      → it.val ≡ e.1
      → Readable p interval r.file a.chunk
      → Ascending a.chunk.entries
      → search_blocks p r key ≡ find key a.chunk.entries
  unfolding search_blocks find_data_block
  found_chunk cs passed left e key it a found val v up =
      let c = a.chunk in
      let (x, y) =
        Placed-InRange p r.file c.handle (block_of interval c) (omega arith) v.0.placed in
      let entry : it.val ≡ encode c.handle = val ∙ ap (λ (z : Entry). z.1) a.entry_is in
      let handle : decode_block_handle it.val ≡ some (c.handle, some (length (encode c.handle))) =
        ap decode_block_handle (entry ∙ sym (append-nil (encode c.handle)))
        ∙ decode-encode c.handle [] x y in
      rw found (rw handle (read_chunk c key v up))

  search_blocks-left :
      (cs : List Chunk) (passed left : List Entry) (key : List ℕ)
      → index_entries cs ≡ passed ++ left
      → All (Below key) passed
      → HeadReaches key left
      → Runs left (Block.seek_ge key (new_block_iterator r.index_block))
      → All (Readable p interval r.file) cs
      → All (λ (c : Chunk). Ascending c.entries) cs
      → Parted cs []
      → ((it : BlockIterator)
          → Block.seek_ge key (new_block_iterator r.index_block) ≡ some (false, it)
          → seek_last it ≡ failed not_found)
      → search_blocks p r key ≡ find key (entries_of cs)
  search_blocks-left cs passed [] key e low h (it, end, _) v up q again =
      let none_left : search_blocks p r key ≡ failed not_found =
        unfold search_blocks in unfold find_data_block in rw end (rw (again it end) refl) in
      let all_low : All (Below key) (index_entries cs) =
        subst (All (Below key)) (sym (e ∙ append-nil passed)) low in
      none_left
      ∙ sym (find-nothing key)
      ∙ sym (
          find-passed cs [] key (subst (λ (l : List Chunk). Parted l []) (sym (append-nil cs)) q)
            all_low)
      ∙ ap (λ (l : List Chunk). find key (entries_of l)) (append-nil cs)
  search_blocks-left cs passed (x ∷ left) key e low h (it, found, _, k, val, _) v up q again =
      let a = index-At cs passed x left e in
      let P = Readable p interval r.file in
      let A = λ (c : Chunk). Ascending c.entries in
      let here = (All-append-split P a.before (a.chunk ∷ a.after) (subst (All P) a.split v)).1 in
      let here_up =
        (All-append-split A a.before (a.chunk ∷ a.after) (subst (All A) a.split up)).1 in
      found_chunk cs passed left x key it a found val here.0 here_up.0
      ∙ sym (find-At cs passed x key a q low h)

all_Ascending :
    (cs : List Chunk) → Ascending (entries_of cs) → All (λ (c : Chunk). Ascending c.entries) cs
all_Ascending [] up = tt
all_Ascending (c ∷ cs) up =
    let (a, b) = Ascending-append c.entries (entries_of cs) up in (a, all_Ascending cs b)

all_IsChunk :
    (p : Platform) (interval : ℕ) (file : List ℕ) (cs : List Chunk)
    → All (Readable p interval file) cs
    → All (IsChunk p interval file) cs
all_IsChunk p interval file [] v = tt
all_IsChunk p interval file (c ∷ cs) v = (v.0.0, all_IsChunk p interval file cs v.1)

index_nonempty : (cs : List Chunk) → 0 < length (entries_of cs) → 0 < length (index_entries cs)
index_nonempty [] h = absurd (omega arith)
index_nonempty (c ∷ cs) h = omega arith

search_blocks-Reopened :
    (p : Platform) (o : WriterOptions) (es : List Entry) (file : List ℕ) (file_id : ℕ)
    (key : List ℕ)
    → IsChecksum p.crc32c
    → Ascending es
    → 0 < length es
    → length es < u32_mod
    → length file < u32_mod
    → (v : Reopened p o es file file_id 0) → search_blocks p v.reader key ≡ find key es
search_blocks-Reopened p o es file file_id key uint32 up some_entry few short v =
    let r = v.reader in
    let interval = (with_defaults o).restart_interval in
    let ix = index_entries v.chunks in
    let w = add_all ix (new_block_writer 1) in
    let q = v.parted up in
    let up_ix =
      index_Ascending p interval r.file v.chunks (all_IsChunk p interval r.file v.chunks v.readable)
        q in
    let size : length r.index_block ≡ length w.buf + length w.restarts * 4 + 4 =
      ap length v.index ∙ length-finish w in
    let small : length w.buf < u32_mod = omega (arith, v.index_small) in
    let few_ix : length w.restarts < u32_mod =
      omega (arith, add_all_restarts ix (new_block_writer 1), v.index_few) in
    let nonempty =
      index_nonempty v.chunks (subst (λ (l : List Entry). 0 < length l) v.entries some_entry) in
    let sought : Sought ix key (Block.seek_ge key (new_block_iterator r.index_block)) =
      subst (λ b. Sought ix key (Block.seek_ge key (new_block_iterator b))) (sym v.index)
        (seek_ge-finish 1 ix key v.index_fits up_ix small few_ix nonempty) in
    search_blocks-left p r interval uint32 (rw v.same_file short) v.chunks sought.passed sought.left
      key sought.split sought.below sought.reached sought.runs v.readable
      (all_Ascending v.chunks (subst Ascending v.entries up)) q
      (λ it e.
        let (runs, block) =
          first-seek_ge 1 ix key false it v.index_fits up_ix small few_ix nonempty
            (ap (λ b. Block.seek_ge key (new_block_iterator b)) (sym v.index) ∙ e) in
        seek_last-Runs ix it runs (λ it' f.
          let same : Same (record it { offset = 0; key = [] }) it' =
            unfold Block.first in next-Same (record it { offset = 0; key = [] }) true it' f in
          omega (arith, ap (length {0}) (same.block ∙ block), length-finish w, add_all_size 1 ix)))
    ∙ ap (find key) (sym v.entries)

-- The search of a reader that was opened on a table is the lookup in the table's entries.
get-Reopened :
    (p : Platform) (o : WriterOptions) (es : List Entry) (file : List ℕ) (file_id : ℕ)
    (key : List ℕ)
    → IsChecksum p.crc32c
    → Ascending es
    → 0 < length es
    → length es < u32_mod
    → calc_n_lines (length es) (with_defaults o).bloom_bits_per_key < u32_mod
    → length file < u32_mod
    → (v : Reopened p o es file file_id 0) → get p v.reader key ≡ find key es
unfolding get
get-Reopened p o es file file_id key uint32 up some_entry few lines short v =
    let search = search_blocks-Reopened p o es file file_id key uint32 up some_entry few short v in
    let answer =
      λ (b : Bool). (if b then search_blocks p v.reader key else failed not_found) ≡ find key es in
    elim (find-cases key es) [
      | inl absent ↦ elim (Bool-cases (may_contain v.reader.filter key)) [
        | inl yes' ↦ subst answer (sym yes') search
        | inr no' ↦ subst answer (sym no') (sym absent)
      ]
      | inr (before, val, after, e) ↦
          subst answer
            (sym (may_contain-Reopened p o es before after key val file file_id 0 e lines v)) search
    ]

-- `Get` on a reader that was opened on a written table gives the value of the entry with this key,
-- and reports that the key is not found if there is none: neither the filter, nor the separators of
-- the index, nor the search in a block loses or invents a key. The table was written without an
-- error, of at least one and fewer than 2 ^ 32 entries whose keys rise, with keys and values shorter than 2 ^ 64
-- bytes; the checksums are uint32 values, the lines of the filter can be counted by a uint32, the
-- file is shorter than 2 ^ 32 bytes, and the reader is given its length.
pub get-write_table :
    (p : Platform) (o : WriterOptions) (es : List Entry) (result : TableMeta × Writer) (file_id : ℕ)
    (key : List ℕ)
    → IsChecksum p.crc32c
    → All Fits es
    → Ascending es
    → 0 < length es
    → length es < u32_mod
    → calc_n_lines (length es) (with_defaults o).bloom_bits_per_key < u32_mod
    → write_table p o es ≡ some result
    → length result.1.file < u32_mod
    → (r : Reader) × (new_reader p result.1.file (length result.1.file) file_id ≡ ok r)
      × (get p r key ≡ find key es)
get-write_table p o es result file_id key uint32 fits up some_entry few lines e short =
    let v =
      reopened p o es result.1.file file_id 0 uint32 fits few (omega arith)
        (write_table-Closed p o es result fits e) in
    (
      v.reader,
      v.opens,
      get-Reopened p o es result.1.file file_id key uint32 up some_entry few lines short v,
    )
