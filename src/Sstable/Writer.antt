-- ===== src/Sstable/Writer.antt =====
-- pkg/lsm/sstable/writer.go: the writer of a table. The io.Writer takes all that it is given: it is
-- the list of the bytes written so far.
pub mod Calls
pub mod Chunks
pub mod Separators
pub mod State
pub mod Order
pub mod Steps
pub mod Layout
pub mod Accepts
use Prim.Native.Nat.{Ordering}
use indexed_watch.Prelude.{
  ℕ, ◌+◌, ◌-◌, ◌%◌, Bool, true, false, Option, none, some, List, [], ◌∷◌, ◌++◌, length, leb, ltb,
  ◌==◌, replicate, if◌then◌else◌, u64_mod,
}
use indexed_watch.Bytes.{compare_bytes, is_nonpos}
use indexed_watch.Bytes.Fixed.{le_bytes}
use indexed_watch.Sstable.Block.{BlockWriter, new_block_writer, estimated_size}
use indexed_watch.Sstable.Block
use indexed_watch.Sstable.Bloom.{BloomFilterWriter, new_bloom_filter_writer, add_key}
use indexed_watch.Sstable.Bloom
use indexed_watch.Sstable.Separator.{short_separator, short_successor}
use indexed_watch.Sstable.Format.{
  Platform, BlockHandle, encode, block_checksum, magic, block_trailer_size, footer_size,
  compression_none, default_block_size, default_restart_interval, default_bloom_bits_per_key,
}

-- The sizes are ints; one that is not positive stands for the default.
pub record WriterOptions : Type 0 where
  pub block_size : ℕ
  pub restart_interval : ℕ
  pub bloom_bits_per_key : ℕ

abbrev pub default_writer_options : WriterOptions
default_writer_options = record {
  block_size = default_block_size;
  restart_interval = default_restart_interval;
  bloom_bits_per_key = default_bloom_bits_per_key;
}

-- A nil slice is `none`.
pub record Writer : Type 0 where
  pub file : List ℕ
  pub offset : ℕ
  pub data_block : BlockWriter
  pub index_block : BlockWriter
  pub bloom : BloomFilterWriter
  pub opts : WriterOptions
  pub key_count : ℕ
  pub smallest_key : List ℕ
  pub largest_key : List ℕ
  pub prev_key : Option (List ℕ)
  pub pending_handle : Option BlockHandle
  pub pending_key : List ℕ
  pub data_block_count : ℕ

pub record TableMeta : Type 0 where
  pub size : ℕ
  pub key_count : ℕ
  pub smallest_key : List ℕ
  pub largest_key : List ℕ
  pub data_block_count : ℕ

abbrev pub or_default : ℕ → ℕ → ℕ
or_default n d = if n == 0 then d else n

unfoldable pub with_defaults : WriterOptions → WriterOptions
with_defaults o = record {
  block_size = or_default o.block_size default_block_size;
  restart_interval = or_default o.restart_interval default_restart_interval;
  bloom_bits_per_key = or_default o.bloom_bits_per_key default_bloom_bits_per_key;
}

unfoldable pub new_writer : WriterOptions → Writer
new_writer o =
    let opts = with_defaults o in
    record {
      file = [];
      offset = 0;
      data_block = new_block_writer opts.restart_interval;
      index_block = new_block_writer 1;
      bloom = new_bloom_filter_writer opts.bloom_bits_per_key;
      opts = opts;
      key_count = 0;
      smallest_key = [];
      largest_key = [];
      prev_key = none;
      pending_handle = none;
      pending_key = [];
      data_block_count = 0;
    }

-- A block with its trailer, the compression type and the checksum.
unfoldable pub stored : Platform → List ℕ → List ℕ
stored p bytes = bytes ++ compression_none ∷ le_bytes 4 (block_checksum p bytes compression_none)

unfoldable pub write_block : Platform → List ℕ → Writer → BlockHandle × Writer
write_block p bytes w = (
  record { offset = w.offset; size = length bytes },
  record w {
    file = w.file ++ stored p bytes;
    offset = (w.offset + length bytes + block_trailer_size) % u64_mod;
  },
)

unfoldable pub add_index_entry : List ℕ → BlockHandle → Writer → Writer
add_index_entry separator handle w = record w {
  index_block = Block.add separator (encode handle) w.index_block;
}

unfoldable pub flush_data_block : Platform → Writer → Writer
flush_data_block p w =
    let (handle, w') = write_block p (Block.finish w.data_block) w in
    record w' {
      pending_handle = some handle;
      pending_key = w.data_block.prev_key;
      data_block = Block.reset w.data_block;
      data_block_count = w.data_block_count + 1;
    }

-- The pending index entry, if there is one, with this separator.
unfoldable pub add_pending : List ℕ → Option BlockHandle → Writer → Writer
add_pending separator none w = w
add_pending separator (some handle) w = record (add_index_entry separator handle w) {
  pending_handle = none;
}

abbrev pub out_of_order : List ℕ → Option (List ℕ) → Bool
out_of_order key none = false
out_of_order key (some prev) = is_nonpos (compare_bytes key prev)

-- append(prev[:0], key...): nil if there is nothing to append to nil.
abbrev pub store_key : Option (List ℕ) → List ℕ → Option (List ℕ)
store_key none [] = none
store_key none (b ∷ key) = some (b ∷ key)
store_key (some prev) key = some key

unfoldable pub add_entry : List ℕ → List ℕ → Writer → Writer
add_entry key val w = record w {
  smallest_key = if w.key_count == 0 then key else w.smallest_key;
  largest_key = key;
  data_block = Block.add key val w.data_block;
  bloom = add_key key w.bloom;
  key_count = (w.key_count + 1) % u64_mod;
}

unfoldable pub flush_if_full : Platform → Writer → Writer
flush_if_full p w =
    if leb w.opts.block_size (estimated_size w.data_block) then flush_data_block p w else w

-- `none` is the error for a key that is not above the previous one.
unfoldable pub add : Platform → List ℕ → List ℕ → Writer → Option Writer
add p key val w =
    if out_of_order key w.prev_key
    then none
    else let w₁ = add_pending (short_separator w.pending_key key) w.pending_handle w in
      let w₂ = flush_if_full p (add_entry key val w₁) in
      some (record w₂ { prev_key = store_key w.prev_key key })

-- What a file has in front of its footer, and the handles that the footer names.
pub record Sections : Type 0 where
  pub writer : Writer
  pub metaindex : BlockHandle
  pub index : BlockHandle

-- The letters indexedwatch.key_count, indexedwatch.data_blocks, indexedwatch.bloom_filter and
-- indexedwatch.properties.
abbrev prefix : List ℕ
prefix = 105 ∷ 110 ∷ 100 ∷ 101 ∷ 120 ∷ 101 ∷ 100 ∷ 119 ∷ 97 ∷ 116 ∷ 99 ∷ 104 ∷ 46 ∷ []

abbrev pub key_count_name : List ℕ
key_count_name = prefix ++ 107 ∷ 101 ∷ 121 ∷ 95 ∷ 99 ∷ 111 ∷ 117 ∷ 110 ∷ 116 ∷ []

abbrev pub data_blocks_name : List ℕ
data_blocks_name = prefix ++ 100 ∷ 97 ∷ 116 ∷ 97 ∷ 95 ∷ 98 ∷ 108 ∷ 111 ∷ 99 ∷ 107 ∷ 115 ∷ []

abbrev pub bloom_filter_name : List ℕ
bloom_filter_name =
    prefix ++ 98 ∷ 108 ∷ 111 ∷ 111 ∷ 109 ∷ 95 ∷ 102 ∷ 105 ∷ 108 ∷ 116 ∷ 101 ∷ 114 ∷ []

abbrev pub properties_name : List ℕ
properties_name = prefix ++ 112 ∷ 114 ∷ 111 ∷ 112 ∷ 101 ∷ 114 ∷ 116 ∷ 105 ∷ 101 ∷ 115 ∷ []

-- The rest of the data and the last index entry.
unfoldable pub finish_data : Platform → Writer → Writer
finish_data p w =
    let w₁ = if w.data_block.n_entries == 0 then w else flush_data_block p w in
    add_pending (short_successor w₁.pending_key) w₁.pending_handle w₁

-- The handle of the filter, if there is one.
unfoldable pub write_filter : Platform → Option (List ℕ) → Writer → Option BlockHandle × Writer
write_filter p none w = (none, w)
write_filter p (some filter) w = let (h, w') = write_block p filter w in (some h, w')

unfoldable pub properties_block : Platform → Writer → List ℕ
properties_block p w = Block.finish (
    Block.add data_blocks_name (p.decimal w.data_block_count)
      (Block.add key_count_name (p.decimal w.key_count) (new_block_writer 1)))

-- The entry of the filter, if there is one.
unfoldable pub filter_entry : Option BlockHandle → BlockWriter → BlockWriter
filter_entry none block = block
filter_entry (some h) block = Block.add bloom_filter_name (encode h) block

unfoldable pub metaindex_block : Option BlockHandle → BlockHandle → List ℕ
metaindex_block filter props =
    Block.finish
      (Block.add properties_name (encode props) (filter_entry filter (new_block_writer 1)))

unfoldable pub write_sections : Platform → Writer → Sections
write_sections p w =
    let (filter, w₁) = write_filter p (Bloom.finish p.times_ln2 w.bloom) w in
    let (index, w₂) = write_block p (Block.finish w₁.index_block) w₁ in
    let (props, w₃) = write_block p (properties_block p w₂) w₂ in
    let (metaindex, w₄) = write_block p (metaindex_block filter props) w₃ in
    record { writer = w₄; metaindex = metaindex; index = index }

-- The handles, zeros, and the magic bytes.
unfoldable pub footer_bytes : BlockHandle → BlockHandle → List ℕ
footer_bytes metaindex index =
    let handles = encode metaindex ++ encode index in
    handles ++ (replicate (footer_size - 8 - length handles) 0 ++ magic)

unfoldable pub write_footer : Sections → Writer
write_footer s = record s.writer {
  file = s.writer.file ++ footer_bytes s.metaindex s.index;
  offset = (s.writer.offset + footer_size) % u64_mod;
}

unfoldable pub close : Platform → Writer → TableMeta × Writer
close p w =
    let closed = write_footer (write_sections p (finish_data p w)) in
    (
      record {
        size = closed.offset;
        key_count = closed.key_count;
        smallest_key = closed.smallest_key;
        largest_key = closed.largest_key;
        data_block_count = closed.data_block_count;
      },
      closed,
    )
