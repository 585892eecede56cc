-- ===== src/Sstable/Writer/Layout.antt =====
-- What `Close` of pkg/lsm/sstable/writer.go leaves in the file: the data blocks, the filter, the index
-- and the metaindex, each where its handle says.
use indexed_watch.Prelude.{
  ℕ, ◌≡◌, refl, ap, sym, subst, ◌∙◌, Option, none, some, List, [], ◌++◌, append-nil, All,
}
use indexed_watch.Sstable.Block.{new_block_writer, finish}
use indexed_watch.Sstable.Block.Runs.{Entry, add_all}
use indexed_watch.Sstable.Bloom
use indexed_watch.Sstable.Bloom.{new_bloom_filter_writer}
use indexed_watch.Sstable.Bloom.Members.{add_keys}
use indexed_watch.Sstable.Format.{Platform, BlockHandle}
use indexed_watch.Sstable.Writer.{
  WriterOptions, with_defaults, Writer, write_block, stored, write_filter, properties_block,
  metaindex_block, write_sections,
}
use indexed_watch.Sstable.Writer.Chunks.{
  Placed, Placed-append, Offset, write_block-Offset, write_block-Placed, Chunk, index_entries,
  entries_of, IsChunk, All-IsChunk-append,
}
use indexed_watch.Sstable.Block.Runs.Seek.{Ascending}
use indexed_watch.Sstable.Writer.Order.{Parted}
use indexed_watch.Sstable.Writer.State.{keys_of}
use indexed_watch.Sstable.Writer.Steps.{Finished}

-- The filter block, if there is one, stands where the handle says.
abbrev pub FilterAt : Platform → List ℕ → Option (List ℕ) → Option BlockHandle → Type 0
FilterAt p file none none = Unit
FilterAt p file none (some h) = ⊥
FilterAt p file (some block) none = ⊥
FilterAt p file (some block) (some h) = Placed p file h block

pub FilterAt-append :
    (p : Platform) (file more : List ℕ) (f : Option (List ℕ)) (h : Option BlockHandle)
    → FilterAt p file f h
    → FilterAt p (file ++ more) f h
FilterAt-append p file more none none v = tt
FilterAt-append p file more none (some h) v = absurd v
FilterAt-append p file more (some block) none v = absurd v
FilterAt-append p file more (some block) (some h) v = Placed-append p file more h block v

-- The filter of these entries.
abbrev pub filter_of : Platform → ℕ → List Entry → Option (List ℕ)
filter_of p bits es =
    Bloom.finish p.times_ln2 (add_keys (keys_of es) (new_bloom_filter_writer bits))

pub record Laid (p : Platform) (opts : WriterOptions) (es : List Entry) (file : List ℕ)
    (metaindex index : BlockHandle) : Type 0 where
  pub chunks : List Chunk
  pub in_place : All (IsChunk p opts.restart_interval file) chunks
  pub entries : es ≡ entries_of chunks
  pub parted : Ascending es → Parted chunks []
  pub index_at : Placed p file index (finish (add_all (index_entries chunks) (new_block_writer 1)))
  pub filter : Option BlockHandle
  pub props : BlockHandle
  pub metaindex_at : Placed p file metaindex (metaindex_block filter props)
  pub filter_at : FilterAt p file (filter_of p opts.bloom_bits_per_key es) filter

-- What the step of the filter leaves.
record Filtered (p : Platform) (f : Option (List ℕ)) (w : Writer) (cs : List Chunk) (interval : ℕ)
    (r : Option BlockHandle × Writer) : Type 0 where
  at : Offset r.1
  in_place : All (IsChunk p interval r.1.file) cs
  index : r.1.index_block ≡ w.index_block
  filter_at : FilterAt p r.1.file f r.0

write_filter-Filtered :
    (p : Platform) (f : Option (List ℕ)) (w : Writer) (cs : List Chunk) (interval : ℕ)
    → Offset w
    → All (IsChunk p interval w.file) cs
    → Filtered p f w cs interval (write_filter p f w)
unfolding write_filter
write_filter-Filtered p none w cs interval at v = record {
  at = at;
  in_place = v;
  index = refl;
  filter_at = tt;
}
write_filter-Filtered p (some block) w cs interval at v = record {
  at = write_block-Offset p block w at;
  in_place = unfold write_block in All-IsChunk-append p interval w.file (stored p block) cs v;
  index = unfold write_block in refl;
  filter_at = write_block-Placed p block w at;
}

-- What holds of the file and of any longer one holds after one more block.
keeps :
    (P : List ℕ → Type 0)
    → ((file more : List ℕ) → P file → P (file ++ more))
    → (p : Platform) (block : List ℕ) (w : Writer) → P w.file
    → P (write_block p block w).1.file
unfolding write_block
keeps P step p block w v = step w.file (stored p block) v

sections-Laid :
    (p : Platform) (o : WriterOptions) (es : List Entry) (w : Writer) (cs : List Chunk)
    (r : Option BlockHandle × Writer)
    → es ≡ entries_of cs
    → (Ascending es → Parted cs [])
    → w.index_block ≡ add_all (index_entries cs) (new_block_writer 1)
    → Filtered p (filter_of p o.bloom_bits_per_key es) w cs o.restart_interval r
    → let (index, w₂) = write_block p (finish r.1.index_block) r.1 in
      let (props, w₃) = write_block p (properties_block p w₂) w₂ in
      let (metaindex, w₄) = write_block p (metaindex_block r.0 props) w₃ in
      Laid p o es w₄.file metaindex index
sections-Laid p o es w cs r e parted ix v =
    let a = finish r.1.index_block in
    let w₂ = (write_block p a r.1).1 in
    let b = properties_block p w₂ in
    let w₃ = (write_block p b w₂).1 in
    let c = metaindex_block r.0 (write_block p b w₂).0 in
    let at₂ = write_block-Offset p a r.1 v.at in
    let at₃ = write_block-Offset p b w₂ at₂ in
    let index_handle = (write_block p a r.1).0 in
    let index_now : Placed p w₂.file index_handle
        (finish (add_all (index_entries cs) (new_block_writer 1))) =
      subst (λ x. Placed p w₂.file index_handle (finish x)) (v.index ∙ ix)
        (write_block-Placed p a r.1 v.at) in
    let In = λ (f : List ℕ). All (IsChunk p o.restart_interval f) cs in
    let in_step = λ (f m : List ℕ). All-IsChunk-append p o.restart_interval f m cs in
    let index_block = finish (add_all (index_entries cs) (new_block_writer 1)) in
    let Ix = λ (f : List ℕ). Placed p f index_handle index_block in
    let ix_step = λ (f m : List ℕ). Placed-append p f m index_handle index_block in
    let filter = filter_of p o.bloom_bits_per_key es in
    let Fi = λ (f : List ℕ). FilterAt p f filter r.0 in
    let fi_step = λ (f m : List ℕ). FilterAt-append p f m filter r.0 in
    record {
      chunks = cs;
      in_place =
          keeps In in_step p c w₃ (keeps In in_step p b w₂ (keeps In in_step p a r.1 v.in_place));
      entries = e;
      parted = parted;
      index_at = keeps Ix ix_step p c w₃ (keeps Ix ix_step p b w₂ index_now);
      filter = r.0;
      props = (write_block p b w₂).0;
      metaindex_at = write_block-Placed p c w₃ at₃;
      filter_at =
          keeps Fi fi_step p c w₃ (keeps Fi fi_step p b w₂ (keeps Fi fi_step p a r.1 v.filter_at));
    }

pub write_sections-Laid :
    (p : Platform) (o : WriterOptions) (es : List Entry) (w : Writer)
    → Finished p o es w
    → let s = write_sections p w in Laid p (with_defaults o) es s.writer.file s.metaindex s.index
unfolding write_sections
write_sections-Laid p o es w v =
    let opts = with_defaults o in
    let f = filter_of p opts.bloom_bits_per_key es in
    let now : Bloom.finish p.times_ln2 w.bloom ≡ f =
      ap (Bloom.finish p.times_ln2) v.wrote.bloom
      ∙ ap (λ x. filter_of p x.bloom_bits_per_key es) v.opts in
    let in_place : All (IsChunk p opts.restart_interval w.file) v.done =
      subst (λ x. All (IsChunk p x.restart_interval w.file) v.done) v.opts v.wrote.chunks in
    let filtered : Filtered p f w v.done opts.restart_interval
        (write_filter p (Bloom.finish p.times_ln2 w.bloom) w) =
      subst (λ x. Filtered p f w v.done opts.restart_interval (write_filter p x w)) (sym now)
        (write_filter-Filtered p f w v.done opts.restart_interval v.wrote.at in_place) in
    sections-Laid p opts es w v.done (write_filter p (Bloom.finish p.times_ln2 w.bloom) w)
      (v.wrote.entries ∙ append-nil (entries_of v.done)) v.parted v.wrote.index filtered
