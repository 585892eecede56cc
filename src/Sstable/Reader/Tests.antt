-- ===== src/Sstable/Reader/Tests.antt =====
-- The writer and the reader of pkg/lsm/sstable at concrete inputs.
use indexed_watch.Prelude.{
  ◌≡◌, arith, All, u32_mod, ◌%◌, refl, Option, none, some, List, [], ◌∷◌, length,
}
use indexed_watch.Sstable.Block.Runs.{Entry, Fits, add_all}
use indexed_watch.Sstable.Format.{Platform}
use indexed_watch.Bytes.{compare_bytes}
use indexed_watch.Bytes.Varint.{put_uvarint}
use indexed_watch.Bytes.Fixed.{le_bytes}
use indexed_watch.Sstable.Block
use indexed_watch.Sstable.Block.{shared_prefix}
use indexed_watch.Sstable.Bloom
use indexed_watch.Sstable.Separator.{short_separator, short_successor, common_prefix}
use indexed_watch.Sstable.Format.{encode, block_checksum}
use indexed_watch.Sstable.Writer.{
  WriterOptions, Writer, TableMeta, new_writer, with_defaults, add, add_pending, add_index_entry,
  add_entry, flush_if_full, flush_data_block, write_block, stored, finish_data, write_filter,
  properties_block, metaindex_block, filter_entry, write_sections, footer_bytes, write_footer,
  close,
}
use indexed_watch.Sstable.Writer.Calls.{add_entries, write_table}
use indexed_watch.Sstable.Reader.{Reader, ok, new_reader, get}
use indexed_watch.Sstable.Reader.Blocks.{IsChecksum}
use indexed_watch.Sstable.Reader.RoundTrip.{read_table-write_table}
use indexed_watch.Sstable.Bloom.{calc_n_lines}
use indexed_watch.Sstable.Block.{new_block_writer, new_block_iterator, finish, seek_ge}
use indexed_watch.Sstable.Block.Runs.Seek.{Ascending, Sought, seek_ge-finish}
use indexed_watch.Sstable.Writer.Accepts.{write_table-Ascending}
use indexed_watch.Sstable.Reader.Find.{find}
use indexed_watch.Sstable.Reader.Get.{get-write_table}
use indexed_watch.Sstable.Reader.Items.{read_table}

-- The checksum is the length modulo 2 ^ 32, and numbers are printed in base 1.
abbrev plain : Platform
plain = record { crc32c = λ xs. length xs % u32_mod; decimal = λ n. 49 ∷ []; times_ln2 = λ n. 6 }

abbrev small : WriterOptions
small = record { block_size = 20; restart_interval = 2; bloom_bits_per_key = 10 }

abbrev four : List Entry
four =
    (1 ∷ 1 ∷ [], 7 ∷ []) ∷ (1 ∷ 2 ∷ [], 8 ∷ []) ∷ (1 ∷ 2 ∷ 5 ∷ [], 9 ∷ 9 ∷ []) ∷ (3 ∷ [], []) ∷ []

abbrev nothing : TableMeta × Writer
nothing = (
  record { size = 0; key_count = 0; smallest_key = []; largest_key = []; data_block_count = 0 },
  new_writer small,
)

abbrev result_of : Option (TableMeta × Writer) → TableMeta × Writer
result_of none = nothing
result_of (some r) = r

written : TableMeta × Writer
written = result_of (write_table plain small four)

written_lem : write_table plain small four ≡ some written
unfolding written write_table add_entries new_writer with_defaults Bloom.new_bloom_filter_writer add
    add_pending add_index_entry short_separator add_entry flush_if_full flush_data_block write_block
    stored block_checksum finish_data short_successor write_filter properties_block metaindex_block
    filter_entry write_sections footer_bytes write_footer close encode put_uvarint Block.add
    Block.entry_bytes Block.finish Block.restart_bytes Block.reset Block.estimated_size
    shared_prefix le_bytes compare_bytes Bloom.add_key Bloom.finish Bloom.calc_num_probes
    Bloom.calc_n_lines Bloom.set_bit Bloom.set_probes Bloom.add_hashes Bloom.bloom_hash
    Bloom.hash_words Bloom.mix_word Bloom.mix_last Bloom.sign_extend Bloom.delta_of common_prefix
written_lem = refl

-- Its file has 351 bytes.
length-written : length written.1.file ≡ 351
unfolding written write_table add_entries new_writer with_defaults Bloom.new_bloom_filter_writer add
    add_pending add_index_entry short_separator add_entry flush_if_full flush_data_block write_block
    stored block_checksum finish_data short_successor write_filter properties_block metaindex_block
    filter_entry write_sections footer_bytes write_footer close encode put_uvarint Block.add
    Block.entry_bytes Block.finish Block.restart_bytes Block.reset Block.estimated_size
    shared_prefix le_bytes compare_bytes Bloom.add_key Bloom.finish Bloom.calc_num_probes
    Bloom.calc_n_lines Bloom.set_bit Bloom.set_probes Bloom.add_hashes Bloom.bloom_hash
    Bloom.hash_words Bloom.mix_word Bloom.mix_last Bloom.sign_extend Bloom.delta_of common_prefix
length-written = refl

four-Fits : All Fits four
four-Fits = omega arith

plain_IsChecksum : IsChecksum plain.crc32c
plain_IsChecksum bytes = omega arith

read_table-write_table_example :
    (r : Reader) × (new_reader plain written.1.file (length written.1.file) 7 ≡ ok r)
    × (read_table plain r 5 ≡ some (four, none))
read_table-write_table_example =
    read_table-write_table plain small four written 7 5 plain_IsChecksum four-Fits (omega arith)
      written_lem (omega (arith, length-written)) (omega arith)

four-Ascending : Ascending four
unfolding compare_bytes
four-Ascending = ((refl, (refl, (refl, tt))), ((refl, (refl, tt)), ((refl, tt), (tt, tt))))

get-write_table_example :
    (r : Reader) × (new_reader plain written.1.file (length written.1.file) 7 ≡ ok r)
    × (get plain r (1 ∷ 2 ∷ []) ≡ find (1 ∷ 2 ∷ []) four)
unfolding calc_n_lines with_defaults
get-write_table_example =
    get-write_table plain small four written 7 (1 ∷ 2 ∷ []) plain_IsChecksum four-Fits
      four-Ascending (omega arith) (omega arith) (omega arith) written_lem
      (omega (arith, length-written))

write_table-Ascending_example :
    (result : TableMeta × Writer) × (write_table plain small four ≡ some result)
write_table-Ascending_example = write_table-Ascending plain small four four-Ascending

seek_ge-finish_example :
    Sought four
      (1 ∷ 2 ∷ 3 ∷ [])
      (seek_ge (1 ∷ 2 ∷ 3 ∷ []) (new_block_iterator (finish (add_all four (new_block_writer 2)))))
unfolding add_all Block.add Block.entry_bytes shared_prefix put_uvarint
seek_ge-finish_example =
    seek_ge-finish 2 four (1 ∷ 2 ∷ 3 ∷ []) four-Fits four-Ascending (omega arith) (omega arith)
      (omega arith)
