-- ===== src/Sstable/Reader/RoundTrip.antt =====
-- A table that pkg/lsm/sstable/writer.go wrote, read by pkg/lsm/sstable/reader.go.
use indexed_watch.Prelude.{
  ℕ, suc, ◌<◌, ◌≤◌, ◌≡◌, refl, ap, sym, subst, ◌∙◌, true, none, some, List, [], ◌∷◌, ◌++◌, length,
  length-append, arith, u32_mod, All, All-append-split, inl, inr, Option-cases,
}
use indexed_watch.Sstable.Block.{new_block_writer, finish, new_block_iterator}
use indexed_watch.Sstable.Block
use indexed_watch.Sstable.Block.Runs.{Entry, add_all, Fits, Runs, Runs-finish, add_all_restarts}
use indexed_watch.Sstable.Bloom
use indexed_watch.Sstable.Bloom.{may_contain, calc_n_lines, new_bloom_filter_writer}
use indexed_watch.Sstable.Bloom.Members.{add_keys, may_contain-added}
use indexed_watch.Sstable.Format.{Platform, BlockHandle}
use indexed_watch.Sstable.Format.Handles.{length-encode}
use indexed_watch.Sstable.Writer.{
  WriterOptions, with_defaults, Writer, TableMeta, new_writer, finish_data, write_sections,
  write_footer, footer_bytes, close,
}
use indexed_watch.Sstable.Writer.Calls.{add_entries, write_table}
use indexed_watch.Sstable.Writer.Chunks.{
  Chunk, Placed-bound, IsChunk, All-IsChunk-append, index_entries, entries_of,
}
use indexed_watch.Sstable.Block.Runs.Seek.{Ascending}
use indexed_watch.Sstable.Writer.Order.{Parted}
use indexed_watch.Sstable.Writer.State.{keys_of}
use indexed_watch.Sstable.Writer.Steps.{
  new_writer-Writing, add_entries-Writing, finish_data-Finished,
}
use indexed_watch.Sstable.Writer.Layout.{Laid, write_sections-Laid, filter_of}
use indexed_watch.Sstable.Reader.{Reader, ok, int_mod, new_reader}
use indexed_watch.Sstable.Reader.Blocks.{IsChecksum}
use indexed_watch.Sstable.Reader.Opened.{decoded, new_reader-Laid}
use indexed_watch.Sstable.Reader.Items.{read_table}
use indexed_watch.Sstable.Reader.Scan.{Readable, read_table-chunks}

index_Fits :
    (p : Platform) (interval : ℕ) (file : List ℕ) (cs : List Chunk)
    → All (IsChunk p interval file) cs
    → All Fits (index_entries cs)
index_Fits p interval file [] v = tt
index_Fits p interval file (c ∷ cs) v = (
  (v.0.short_separator, omega (arith, length-encode c.handle)),
  index_Fits p interval file cs v.1,
)

-- No chunk is empty.
length-index_entries :
    (p : Platform) (interval : ℕ) (file : List ℕ) (cs : List Chunk)
    → All (IsChunk p interval file) cs
    → length (index_entries cs) ≤ length (entries_of cs)
length-index_entries p interval file [] v = omega arith
length-index_entries p interval file (c ∷ cs) v = omega (
  arith,
  length-index_entries p interval file cs v.1,
  v.0.nonempty,
  length-append c.entries (entries_of cs),
)

all_Readable :
    (p : Platform) (interval : ℕ) (file : List ℕ) (cs : List Chunk)
    → All (IsChunk p interval file) cs
    → All Fits (entries_of cs)
    → length (entries_of cs) < u32_mod
    → All (Readable p interval file) cs
all_Readable p interval file [] v f h = tt
all_Readable p interval file (c ∷ cs) v f h =
    let (a, b) = All-append-split Fits c.entries (entries_of cs) f in
    (
      (v.0, a, omega (arith, length-append c.entries (entries_of cs))),
      all_Readable p interval file cs v.1 b
          (omega (arith, length-append c.entries (entries_of cs))),
    )

-- What `Close` leaves.
pub record Closed (p : Platform) (o : WriterOptions) (es : List Entry) (file : List ℕ)
    : Type 0 where
  pub front : List ℕ
  pub metaindex : BlockHandle
  pub index : BlockHandle
  pub split : file ≡ front ++ footer_bytes metaindex index
  pub laid : Laid p (with_defaults o) es front metaindex index

pub write_table-Closed :
    (p : Platform) (o : WriterOptions) (es : List Entry) (result : TableMeta × Writer)
    → All Fits es
    → write_table p o es ≡ some result
    → Closed p o es result.1.file
unfolding write_table close write_footer
write_table-Closed p o es result f e = elim (Option-cases (add_entries p es (new_writer o))) [
  | inl n ↦ absurd (cc (rw (n, write_table) at e))
  | inr (w, q) ↦
      let s = write_sections p (finish_data p w) in
      let made : close p w ≡ result = let e' = rw (q, write_table) at e in cc in
      let all : Closed p o es (close p w).1.file = record {
        front = s.writer.file;
        metaindex = s.metaindex;
        index = s.index;
        split = refl;
        laid = write_sections-Laid p o es (finish_data p w) (
            finish_data-Finished p o es w
              (add_entries-Writing p o [] es (new_writer o) w (new_writer-Writing p o) f q));
      } in
      subst (λ x. Closed p o es x.1.file) made all
]

-- The reader of a closed table.
pub record Reopened (p : Platform) (o : WriterOptions) (es : List Entry) (file : List ℕ)
    (file_id fuel : ℕ) : Type 0 where
  pub reader : Reader
  pub chunks : List Chunk
  pub opens : new_reader p file (length file) file_id ≡ ok reader
  pub reads : length es < fuel → read_table p reader fuel ≡ some (es, none)
  pub filter : reader.filter ≡ decoded (filter_of p (with_defaults o).bloom_bits_per_key es)
  pub short : length reader.file < int_mod
  pub entries : es ≡ entries_of chunks
  pub parted : Ascending es → Parted chunks []
  pub readable : All (Readable p (with_defaults o).restart_interval reader.file) chunks
  pub index : reader.index_block ≡ finish (add_all (index_entries chunks) (new_block_writer 1))
  pub index_fits : All Fits (index_entries chunks)
  pub index_few : length (index_entries chunks) ≤ length es
  pub index_small : length reader.index_block ≤ length file
  pub same_file : reader.file ≡ file

pub reopened :
    (p : Platform) (o : WriterOptions) (es : List Entry) (file : List ℕ) (file_id fuel : ℕ)
    → IsChecksum p.crc32c
    → All Fits es
    → length es < u32_mod
    → length file < int_mod
    → Closed p o es file
    → Reopened p o es file file_id fuel
reopened p o es file file_id fuel uint32 f few short v =
    let foot = footer_bytes v.metaindex v.index in
    let cs = v.laid.chunks in
    let interval = (with_defaults o).restart_interval in
    let short' : length (v.front ++ foot) < int_mod =
      subst (λ l. length l < int_mod) v.split short in
    let few' : length (entries_of cs) < u32_mod =
      subst (λ l. length l < u32_mod) v.laid.entries few in
    let chunks = All-IsChunk-append p interval v.front foot cs v.laid.in_place in
    let r : Reader = record {
      file = v.front ++ foot;
      size = length (v.front ++ foot);
      file_id = file_id;
      index_block = finish (add_all (index_entries cs) (new_block_writer 1));
      filter = decoded (filter_of p (with_defaults o).bloom_bits_per_key es);
      metaindex_handle = v.metaindex;
      index_handle = v.index;
    } in
    let index_runs : Runs (index_entries cs) (Block.first (new_block_iterator r.index_block)) =
      Runs-finish 1 (index_entries cs) (index_Fits p interval (v.front ++ foot) cs chunks) (
        omega (
          arith,
          add_all_restarts (index_entries cs) (new_block_writer 1),
          length-index_entries p interval (v.front ++ foot) cs chunks,
        )) in
    let readable =
      all_Readable p interval (v.front ++ foot) cs chunks (subst (All Fits) v.laid.entries f)
        few' in
    record {
      reader = r;
      opens =
          subst (λ x. new_reader p x (length x) file_id ≡ ok r) (sym v.split)
            (new_reader-Laid p (with_defaults o) es v.front v.metaindex v.index file_id uint32
              short' v.laid);
      reads = λ h.
          read_table-chunks p r interval uint32 short' fuel cs index_runs readable
            (subst (λ l. length l < fuel) v.laid.entries h)
          ∙ ap (λ l. some (l, none)) (sym v.laid.entries);
      filter = refl;
      chunks = cs;
      short = short';
      entries = v.laid.entries;
      parted = v.laid.parted;
      readable = readable;
      index = refl;
      index_fits = index_Fits p interval (v.front ++ foot) cs chunks;
      index_few =
          subst (λ (l : List Entry). length (index_entries cs) ≤ length l) (sym v.laid.entries)
            (length-index_entries p interval (v.front ++ foot) cs chunks);
      index_small = omega (
        arith,
        ap (length {0}) v.split,
        length-append v.front foot,
        Placed-bound p v.front v.index r.index_block v.laid.index_at,
      );
      same_file = sym v.split;
    }

-- A table that was written without an error is opened by the reader, and its iterator gives, from
-- `First` on by `Next`, the entries in the order of the calls of `Add`, and ends without an error.
-- The checksums are uint32 values, the keys and values are shorter than 2 ^ 64 bytes, there are
-- fewer than 2 ^ 32 entries, the file is shorter than 2 ^ 63 bytes, the reader is given its length,
-- and the fuel exceeds the number of entries.
pub read_table-write_table :
    (p : Platform) (o : WriterOptions) (es : List Entry) (result : TableMeta × Writer)
    (file_id fuel : ℕ)
    → IsChecksum p.crc32c
    → All Fits es
    → length es < u32_mod
    → write_table p o es ≡ some result
    → length result.1.file < int_mod
    → length es < fuel
    → (r : Reader) × (new_reader p result.1.file (length result.1.file) file_id ≡ ok r)
      × (read_table p r fuel ≡ some (es, none))
read_table-write_table p o es result file_id fuel uint32 f few e short lt =
    let v =
      reopened p o es result.1.file file_id fuel uint32 f few short
        (write_table-Closed p o es result f e) in
    (v.reader, v.opens, v.reads lt)

keys_of-append : (es fs : List Entry) → keys_of (es ++ fs) ≡ keys_of es ++ keys_of fs
keys_of-append [] fs = refl
keys_of-append (e ∷ es) fs = ap (λ l. e.0 ∷ l) (keys_of-append es fs)

length-keys_of : (es : List Entry) → length (keys_of es) ≡ length es
length-keys_of [] = refl
length-keys_of (e ∷ es) = ap suc (length-keys_of es)

-- Every key that was added is in the filter that the reader decoded.
pub may_contain-Reopened :
    (p : Platform) (o : WriterOptions) (es before after : List Entry) (key val : List ℕ)
    (file : List ℕ) (file_id fuel : ℕ)
    → es ≡ before ++ (key, val) ∷ after
    → calc_n_lines (length es) (with_defaults o).bloom_bits_per_key < u32_mod
    → (v : Reopened p o es file file_id fuel) → may_contain v.reader.filter key ≡ true
may_contain-Reopened p o es before after key val file file_id fuel e lines v =
    let bits = (with_defaults o).bloom_bits_per_key in
    let ks = ap keys_of e ∙ keys_of-append before ((key, val) ∷ after) in
    let count : length (keys_of before ++ key ∷ keys_of after) ≡ length es =
      ap length (sym ks) ∙ length-keys_of es in
    let (block, fl, made, read, n, holds) =
      may_contain-added p.times_ln2 bits (keys_of before) (keys_of after) key (rw count lines) in
    let made' : filter_of p bits es ≡ some block =
      ap (λ l. Bloom.finish p.times_ln2 (add_keys l (new_bloom_filter_writer bits))) ks ∙ made in
    let filter : v.reader.filter ≡ some fl = v.filter ∙ ap decoded made' ∙ read in rw filter holds
