-- ===== src/Sstable/Reader.antt =====
-- pkg/lsm/sstable/reader.go: the reader of a table and its two-level iterator, without a block
-- cache. The io.ReaderAt is an open file, here the list of its bytes: a read that ends at the end
-- of the file succeeds, one past it or at a negative offset is an error. Memory does not run out.
pub mod Blocks
pub mod Opened
pub mod Scan
pub mod RoundTrip
pub mod Find
pub mod Lookup
pub mod Get
pub mod Items
pub mod Tests
use Prim.Native.Nat.{Ordering}
use indexed_watch.Prelude.{
  ℕ, zero, suc, ◌+◌, ◌-◌, ◌*◌, ◌%◌, ◌^◌, Bool, true, false, Option, none, some, List, [], length,
  take, drop, get_or, leb, ltb, ◌==◌, if◌then◌else◌, u64_mod,
}
use indexed_watch.Bytes.{compare_bytes, is_zero, bytes_equal}
use indexed_watch.Bytes.Fixed.{le_read}
use indexed_watch.Sstable.Block.{BlockIterator, new_block_iterator, slice}
use indexed_watch.Sstable.Block
use indexed_watch.Sstable.Bloom.{BloomFilter, decode_bloom_filter, may_contain}
use indexed_watch.Sstable.Format.{
  Platform, BlockHandle, decode_block_handle, block_checksum, magic, block_trailer_size,
  footer_size,
}
use indexed_watch.Sstable.Writer.{bloom_filter_name}

-- ErrNotFound, ErrCorrupted, and an error of the file.
pub data Failure : Type 0 where
  not_found corrupted read_failed : Failure

pub data Result (A : Type 0) : Type 0 where
  ok : A → Result A
  failed : Failure → Result A
  panicked : Result A

infixl 5 ◌>>=◌
abbrev pub ◌>>=◌ : {A B : Type 0} → Result A → (A → Result B) → Result B
ok a >>= f = f a
failed e >>= f = failed e
panicked >>= f = panicked

-- A value or a panic.
abbrev pub or_panic : {A : Type 0} → Option A → Result A
or_panic none = panicked
or_panic (some a) = ok a

-- A value or this error.
abbrev pub or_fail : {A : Type 0} → Failure → Option A → Result A
or_fail e none = failed e
or_fail e (some a) = ok a

abbrev pub int_mod : ℕ
int_mod = 2 ^ 63

-- ReadAt; the offset is an int64.
unfoldable pub read_at : List ℕ → ℕ → ℕ → Option (List ℕ)
read_at file offset n = if leb int_mod offset then none else slice file offset n

pub record Reader : Type 0 where
  pub file : List ℕ
  pub size : ℕ
  pub file_id : ℕ
  pub index_block : List ℕ
  pub filter : Option BloomFilter
  pub metaindex_handle : BlockHandle
  pub index_handle : BlockHandle

-- A block with its trailer of five bytes.
unfoldable pub validate : Platform → ℕ → List ℕ → ℕ → Result (List ℕ)
validate p n buf stored =
    if block_checksum p (take n buf) (get_or buf n 0) == stored
    then ok (take n buf)
    else failed corrupted

unfoldable pub checked : Platform → ℕ → List ℕ → Result (List ℕ)
checked p n buf = do stored ← or_panic (le_read 4 (drop (n + 1) buf)); validate p n buf stored

-- The length of the buffer wraps around; a slice past it panics, and so does a negative length.
unfoldable pub read_raw_block : Platform → List ℕ → BlockHandle → Result (List ℕ)
read_raw_block p file h =
    let total = (h.size + block_trailer_size) % u64_mod in
    if leb int_mod total then panicked else do
      buf ← or_fail read_failed (read_at file h.offset total)
      if ltb total h.size then panicked else checked p h.size buf

-- The two handles of the footer.
unfoldable pub footer_handles : List ℕ → Result (BlockHandle × BlockHandle)
footer_handles footer = do
  (metaindex, n) ← or_panic (decode_block_handle footer)
  start ← or_panic n
  (index, _) ← or_panic (decode_block_handle (drop start footer))
  ok (metaindex, index)

unfoldable pub read_footer : List ℕ → ℕ → Result (BlockHandle × BlockHandle)
read_footer file size = do
  footer ← or_fail corrupted (read_at file (size - footer_size) footer_size)
  if bytes_equal (drop (footer_size - 8) footer) magic
      then footer_handles footer
      else failed corrupted

-- The loop over the metaindex: the value of the filter's entry. Each entry takes three bytes at
-- least, so that the fuel is not used up.
unfoldable pub find_filter : ℕ → Option (Bool × BlockIterator) → Result (Option (List ℕ))
find_filter zero s = ok none
find_filter (suc fuel) none = panicked
find_filter (suc fuel) (some (found, it)) = elim it.valid [
  | false ↦ ok none
  | true ↦ elim (bytes_equal it.key bloom_filter_name) [
    | true ↦ ok (some it.val)
    | false ↦ find_filter fuel (Block.next it)
  ]
]

unfoldable pub load_filter : Platform → List ℕ → Option (List ℕ) → Result (Option BloomFilter)
load_filter p file none = ok none
load_filter p file (some entry) = do
  (handle, _) ← or_panic (decode_block_handle entry)
  block ← read_raw_block p file handle
  ok (decode_bloom_filter block)

unfoldable pub read_filter : Platform → List ℕ → BlockHandle → Result (Option BloomFilter)
read_filter p file metaindex = do
  block ← read_raw_block p file metaindex
  entry ← find_filter (length block + 1) (Block.first (new_block_iterator block))
  load_filter p file entry

-- `NewReader`; the size is not negative.
unfoldable pub new_reader : Platform → List ℕ → ℕ → ℕ → Result Reader
new_reader p file size file_id = if ltb size footer_size then failed corrupted else do
  (metaindex, index) ← read_footer file size
  index_block ← read_raw_block p file index
  filter ← read_filter p file metaindex
  ok (record {
    file = file;
    size = size;
    file_id = file_id;
    index_block = index_block;
    filter = filter;
    metaindex_handle = metaindex;
    index_handle = index;
  })

-- for it.Next() { }: where the iterator stands then.
unfoldable pub last_entry : ℕ → BlockIterator → Option BlockIterator
last_entry zero it = some it
last_entry (suc fuel) it = elim (Block.next it) [
  | none ↦ none
  | some (found, it') ↦ elim found [ true ↦ last_entry fuel it' | false ↦ some it' ]
]

-- Where no index entry is at the key or above it: the last one.
unfoldable pub seek_last : BlockIterator → Result BlockIterator
seek_last it = do
  (found, it₁) ← or_panic (Block.first it)
  elim found [
    | false ↦ failed not_found
    | true ↦ do
      it₂ ← or_panic (last_entry (length it₁.block + 1) it₁)
      if it₂.valid then ok it₂ else failed not_found
  ]

unfoldable pub find_data_block : Reader → List ℕ → Result BlockHandle
find_data_block r key = do
  (found, it) ← or_panic (Block.seek_ge key (new_block_iterator r.index_block))
  entry ← if found then ok it else seek_last it
  (handle, _) ← or_panic (decode_block_handle entry.val)
  ok handle

-- Without a cache.
unfoldable pub read_data_block : Platform → Reader → BlockHandle → Result (List ℕ)
read_data_block p r handle = read_raw_block p r.file handle

unfoldable pub get_from_block : List ℕ → List ℕ → Result (List ℕ)
get_from_block key block = do
  (found, it) ← or_panic (Block.seek_ge key (new_block_iterator block))
  elim found [
    | false ↦ failed not_found
    | true ↦ if is_zero (compare_bytes it.key key) then ok it.val else failed not_found
  ]

unfoldable pub search_blocks : Platform → Reader → List ℕ → Result (List ℕ)
search_blocks p r key = do
  handle ← find_data_block r key
  block ← read_data_block p r handle
  get_from_block key block

-- `Get`
unfoldable pub get : Platform → Reader → List ℕ → Result (List ℕ)
get p r key = if may_contain r.filter key then search_blocks p r key else failed not_found

pub record TableIterator : Type 0 where
  pub index_iter : Option BlockIterator
  pub data_iter : Option BlockIterator
  pub err : Option Failure

abbrev pub new_iterator : TableIterator
new_iterator = record { index_iter = none; data_iter = none; err = none }

unfoldable pub load_data_block : Platform → Reader → BlockIterator → Result BlockIterator
load_data_block p r index = do
  (handle, _) ← or_panic (decode_block_handle index.val)
  block ← read_data_block p r handle
  ok (new_block_iterator block)

-- The data iterator's answer is the table iterator's.
abbrev pub answer : TableIterator → Option (Bool × BlockIterator) → Option (Bool × TableIterator)
answer it none = none
answer it (some (found, block)) = some (found, record it { data_iter = some block })

-- The data block is loaded and its first entry read.
unfoldable pub enter : TableIterator → Result BlockIterator → Option (Bool × TableIterator)
enter it panicked = none
enter it (failed e) = some (false, record it { err = some e })
enter it (ok block) = answer it (Block.first block)

-- The answer of the index iterator's `First`.
unfoldable pub first_block :
    Platform
    → Reader
    → TableIterator
    → Option (Bool × BlockIterator)
    → Option (Bool × TableIterator)
first_block p r it none = none
first_block p r it (some (false, index)) = some (false, record it { index_iter = some index })
first_block p r it (some (true, index)) =
    enter (record it { index_iter = some index }) (load_data_block p r index)

unfoldable pub first : Platform → Reader → TableIterator → Option (Bool × TableIterator)
first p r it =
    first_block p r (record it { err = none }) (Block.first (new_block_iterator r.index_block))

-- The answer of the index iterator's `Next`.
unfoldable pub following_block :
    Platform
    → Reader
    → TableIterator
    → Option (Bool × BlockIterator)
    → Option (Bool × TableIterator)
following_block p r it none = none
following_block p r it (some (false, index)) =
    some (false, record it { index_iter = some index; data_iter = none })
following_block p r it (some (true, index)) =
    enter (record it { index_iter = some index }) (load_data_block p r index)

unfoldable pub next_block : Platform → Reader → TableIterator → Option (Bool × TableIterator)
next_block p r it = elim it.index_iter [
  | none ↦ none
  | some index ↦ following_block p r it (Block.next index)
]

-- The answer of the data iterator's `Next` or `SeekGE`; at its end comes the next block.
unfoldable pub or_next_block :
    Platform
    → Reader
    → TableIterator
    → Option (Bool × BlockIterator)
    → Option (Bool × TableIterator)
or_next_block p r it none = none
or_next_block p r it (some (true, block)) = some (true, record it { data_iter = some block })
or_next_block p r it (some (false, block)) = next_block p r (record it { data_iter = some block })

unfoldable pub next : Platform → Reader → TableIterator → Option (Bool × TableIterator)
next p r it = elim it.data_iter [
  | none ↦ some (false, it)
  | some block ↦ or_next_block p r it (Block.next block)
]

-- The search in the block that was loaded.
unfoldable pub seek_in :
    Platform
    → Reader
    → TableIterator
    → List ℕ
    → Result BlockIterator
    → Option (Bool × TableIterator)
seek_in p r it target panicked = none
seek_in p r it target (failed e) = some (false, record it { err = some e })
seek_in p r it target (ok block) =
    or_next_block p r (record it { data_iter = some block }) (Block.seek_ge target block)

-- The answer of the index iterator's `SeekGE`.
unfoldable pub seek_block :
    Platform
    → Reader
    → TableIterator
    → List ℕ
    → Option (Bool × BlockIterator)
    → Option (Bool × TableIterator)
seek_block p r it target none = none
seek_block p r it target (some (false, index)) = some (false, record it { index_iter = some index })
seek_block p r it target (some (true, index)) =
    seek_in p r (record it { index_iter = some index }) target (load_data_block p r index)

unfoldable pub seek_ge : Platform → Reader → List ℕ → TableIterator → Option (Bool × TableIterator)
seek_ge p r target it =
    seek_block p r (record it { err = none }) target
      (Block.seek_ge target (new_block_iterator r.index_block))

-- `Valid`
unfoldable pub valid : TableIterator → Bool
valid it = elim it.data_iter [
  | none ↦ false
  | some block ↦ elim it.err [ none ↦ block.valid | some e ↦ false ]
]
