-- ===== src/Sstable/Writer/State.antt =====
-- What pkg/lsm/sstable/writer.go keeps true between its calls.
use indexed_watch.Prelude.{
  ℕ, ◌<◌, ◌≡◌, refl, ap, sym, subst, ◌∙◌, Option, none, some, List, [], ◌∷◌, ◌++◌, append_assoc,
  append-nil, length, All, All-append, arith, u64_mod,
}
use indexed_watch.Sstable.Block.{BlockWriter, new_block_writer}
use indexed_watch.Sstable.Block
use indexed_watch.Sstable.Block.Runs.{Entry, add_all, add_all-snoc}
use indexed_watch.Sstable.Bloom.{BloomFilterWriter, new_bloom_filter_writer, add_key}
use indexed_watch.Sstable.Bloom.Members.{add_keys}
use indexed_watch.Sstable.Format.{Platform, encode}
use indexed_watch.Sstable.Writer.{
  WriterOptions, with_defaults, Writer, new_writer, write_block, stored, flush_data_block,
  add_index_entry, add_pending, add_entry,
}
use indexed_watch.Sstable.Writer.Chunks.{
  Placed, Offset, write_block-Offset, write_block-Placed, Chunk, index_entries, entries_of,
  handle_of, IsChunk, All-IsChunk-append, index_entries-snoc, entries_of-snoc,
}

abbrev pub keys_of : List Entry → List (List ℕ)
keys_of [] = []
keys_of (e ∷ es) = e.0 ∷ keys_of es

-- A chunk that waits for its separator.
abbrev pub Held : Platform → ℕ → List ℕ → Option Chunk → Type 0
Held p interval file none = Unit
Held p interval file (some c) = IsChunk p interval file c

abbrev pub held_entries : Option Chunk → List Entry
held_entries none = []
held_entries (some c) = c.entries

-- The entries es were added: those of the chunks that have an index entry, those of the chunk that
-- waits for one, and those of the open block.
pub record Wrote (p : Platform) (es : List Entry) (done : List Chunk) (held : Option Chunk)
    (cur : List Entry) (w : Writer) : Type 0 where
  pub at : Offset w
  pub chunks : All (IsChunk p w.opts.restart_interval w.file) done
  pub waiting : Held p w.opts.restart_interval w.file held
  pub pending : w.pending_handle ≡ handle_of held
  pub index : w.index_block ≡ add_all (index_entries done) (new_block_writer 1)
  pub current : w.data_block ≡ add_all cur (new_block_writer w.opts.restart_interval)
  pub entries : es ≡ entries_of done ++ (held_entries held ++ cur)
  pub short_pending : length w.pending_key < u64_mod
  pub short_prev : length w.data_block.prev_key < u64_mod
  pub bloom : w.bloom ≡ add_keys (keys_of es) (new_bloom_filter_writer w.opts.bloom_bits_per_key)

pub new_writer-Wrote : (p : Platform) (o : WriterOptions) → Wrote p [] [] none [] (new_writer o)
unfolding new_writer add_all add_keys with_defaults
new_writer-Wrote p o = record {
  at = refl;
  chunks = tt;
  waiting = tt;
  pending = refl;
  index = refl;
  current = refl;
  entries = refl;
  short_pending = omega arith;
  short_prev = omega arith;
  bloom = refl;
}

abbrev pub sealed : List Chunk → List ℕ → Option Chunk → List Chunk
sealed done sep none = done
sealed done sep (some c) = done ++ record c { separator = sep } ∷ []

sealed_entries :
    (done : List Chunk) (sep : List ℕ) (held : Option Chunk) (cur : List Entry)
    → entries_of done ++ (held_entries held ++ cur) ≡ entries_of (sealed done sep held) ++ cur
sealed_entries done sep none cur = refl
sealed_entries done sep (some c) cur =
    sym (append_assoc (entries_of done) c.entries cur)
    ∙ ap (λ l. l ++ cur) (sym (entries_of-snoc done (record c { separator = sep })))

-- The pending index entry is added.
pub add_pending-Wrote :
    (p : Platform) (es : List Entry) (done : List Chunk) (held : Option Chunk) (cur : List Entry)
    (sep : List ℕ) (w : Writer)
    → Wrote p es done held cur w
    → length sep < u64_mod
    → Wrote p es (sealed done sep held) none cur (add_pending sep (handle_of held) w)
unfolding add_pending add_index_entry
add_pending-Wrote p es done none cur sep w v short = v
add_pending-Wrote p es done (some c) cur sep w v short =
    let last = record c { separator = sep } in
    let its : IsChunk p w.opts.restart_interval w.file last = record {
      placed = v.waiting.placed;
      nonempty = v.waiting.nonempty;
      short_separator = short;
    } in
    record {
      at = v.at;
      chunks =
          All-append (IsChunk p w.opts.restart_interval w.file) done (last ∷ []) v.chunks (its, tt);
      waiting = tt;
      pending = refl;
      index =
          ap (Block.add sep (encode c.handle)) v.index
          ∙ sym (add_all-snoc (index_entries done) sep (encode c.handle) (new_block_writer 1))
          ∙ ap (λ l. add_all l (new_block_writer 1)) (sym (index_entries-snoc done last));
      current = v.current;
      entries = v.entries ∙ sealed_entries done sep (some c) cur;
      short_pending = v.short_pending;
      short_prev = v.short_prev;
      bloom = v.bloom;
    }

add_keys-snoc :
    (es : List Entry) (k v : List ℕ) (b : BloomFilterWriter)
    → add_key k (add_keys (keys_of es) b) ≡ add_keys (keys_of (es ++ (k, v) ∷ [])) b
unfolding add_keys
add_keys-snoc [] k v b = refl
add_keys-snoc ((j, u) ∷ es) k v b = add_keys-snoc es k v (add_key j b)

add_prev_key : (k v : List ℕ) (b : BlockWriter) → (Block.add k v b).prev_key ≡ k
unfolding Block.add
add_prev_key k v b = refl

-- The entry goes to the open block.
pub add_entry-Wrote :
    (p : Platform) (es : List Entry) (done : List Chunk) (cur : List Entry) (key val : List ℕ)
    (w : Writer)
    → Wrote p es done none cur w
    → length key < u64_mod
    → Wrote p (es ++ (key, val) ∷ []) done none (cur ++ (key, val) ∷ []) (add_entry key val w)
unfolding add_entry
add_entry-Wrote p es done cur key val w v short = record {
  at = v.at;
  chunks = v.chunks;
  waiting = tt;
  pending = v.pending;
  index = v.index;
  current =
      ap (Block.add key val) v.current
      ∙ sym (add_all-snoc cur key val (new_block_writer w.opts.restart_interval));
  entries =
      ap (λ l. l ++ (key, val) ∷ []) v.entries
      ∙ append_assoc (entries_of done) cur ((key, val) ∷ []);
  short_pending = v.short_pending;
  short_prev = rw (add_prev_key key val w.data_block) short;
  bloom =
      ap (add_key key) v.bloom
      ∙ add_keys-snoc es key val (new_bloom_filter_writer w.opts.bloom_bits_per_key);
}

abbrev pub chunk_of : Platform → List Entry → Writer → Chunk
chunk_of p cur w = record {
  separator = [];
  handle = (write_block p (Block.finish w.data_block) w).0;
  entries = cur;
}

reset-add_all : (es : List Entry) (b : BlockWriter) → Block.reset (add_all es b) ≡ Block.reset b
unfolding add_all Block.reset Block.add
reset-add_all [] b = refl
reset-add_all ((k, v) ∷ es) b = reset-add_all es (Block.add k v b)

-- The open block becomes the chunk that waits for its index entry.
pub flush-Wrote :
    (p : Platform) (es : List Entry) (done : List Chunk) (cur : List Entry) (w : Writer)
    → Wrote p es done none cur w
    → 0 < length cur
    → Wrote p es done (some (chunk_of p cur w)) [] (flush_data_block p w)
unfolding flush_data_block write_block add_all
flush-Wrote p es done cur w v some_entries =
    let block = Block.finish w.data_block in
    let interval = w.opts.restart_interval in
    record {
      at = unfold write_block in write_block-Offset p block w v.at;
      chunks = All-IsChunk-append p interval w.file (stored p block) done v.chunks;
      waiting = record {
        placed =
            subst
              (λ b. Placed p (w.file ++ stored p block) (chunk_of p cur w).handle (Block.finish b))
              v.current (unfold write_block in write_block-Placed p block w v.at);
        nonempty = some_entries;
        short_separator = omega arith;
      };
      pending = refl;
      index = v.index;
      current =
          ap Block.reset v.current
          ∙ reset-add_all cur (new_block_writer interval)
          ∙ (unfold Block.reset in refl);
      entries = v.entries ∙ ap (λ l. entries_of done ++ l) (sym (append-nil cur));
      short_pending = v.short_prev;
      short_prev = unfold Block.reset in omega arith;
      bloom = v.bloom;
    }
