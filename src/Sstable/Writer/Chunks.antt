-- ===== src/Sstable/Writer/Chunks.antt =====
-- Where the blocks of pkg/lsm/sstable/writer.go stand in the file.
use indexed_watch.Prelude.{
  ℕ, ◌+◌, ◌%◌, ◌<◌, ◌≤◌, ◌≡◌, refl, ap, sym, ◌∙◌, Option, none, some, List, [], ◌∷◌, ◌++◌,
  append_assoc, append-nil, length, length-append, All, arith, u64_mod,
}
use indexed_watch.Bytes.Fixed.{le_bytes, length-le_bytes}
use indexed_watch.Sstable.Block.{new_block_writer, finish}
use indexed_watch.Sstable.Block.Runs.{Entry, add_all}
use indexed_watch.Sstable.Format.{Platform, BlockHandle, encode, block_checksum, compression_none}
use indexed_watch.Sstable.Writer.{Writer, stored, write_block}

-- A block that the file has where its handle says.
pub record Placed (p : Platform) (file : List ℕ) (h : BlockHandle) (bytes : List ℕ) : Type 0 where
  pub before : List ℕ
  pub rest : List ℕ
  pub split : file ≡ before ++ (stored p bytes ++ rest)
  pub at : length before % u64_mod ≡ h.offset
  pub size : length bytes ≡ h.size

pub Placed-append :
    (p : Platform) (file more : List ℕ) (h : BlockHandle) (bytes : List ℕ)
    → Placed p file h bytes
    → Placed p (file ++ more) h bytes
Placed-append p file more h bytes v = record {
  before = v.before;
  rest = v.rest ++ more;
  split =
      ap (λ f. f ++ more) v.split
      ∙ append_assoc v.before (stored p bytes ++ v.rest) more
      ∙ ap (λ f. v.before ++ f) (append_assoc (stored p bytes) v.rest more);
  at = v.at;
  size = v.size;
}

pub length-stored : (p : Platform) (bytes : List ℕ) → length (stored p bytes) ≡ length bytes + 5
unfolding stored
length-stored p bytes =
    length-append bytes (compression_none ∷ le_bytes 4 (block_checksum p bytes compression_none))
    ∙ omega (arith, length-le_bytes 4 (block_checksum p bytes compression_none))

-- The block is a part of the file.
pub Placed-bound :
    (p : Platform) (file : List ℕ) (h : BlockHandle) (bytes : List ℕ)
    → Placed p file h bytes
    → length bytes ≤ length file
Placed-bound p file h bytes v = omega (
  arith,
  ap (length {0}) v.split,
  length-append v.before (stored p bytes ++ v.rest),
  length-append (stored p bytes) v.rest,
  length-stored p bytes,
)

-- The offset is the length of the file, as a uint64.
abbrev pub Offset : Writer → Type 0
Offset w = w.offset ≡ length w.file % u64_mod

pub write_block-Offset :
    (p : Platform) (bytes : List ℕ) (w : Writer) → Offset w → Offset (write_block p bytes w).1
unfolding write_block
write_block-Offset p bytes w h =
    omega (arith, length-append w.file (stored p bytes), length-stored p bytes)

pub write_block-Placed :
    (p : Platform) (bytes : List ℕ) (w : Writer)
    → Offset w
    → Placed p (write_block p bytes w).1.file (write_block p bytes w).0 bytes
unfolding write_block
write_block-Placed p bytes w h = record {
  before = w.file;
  rest = [];
  split = ap (λ f. w.file ++ f) (sym (append-nil (stored p bytes)));
  at = sym h;
  size = refl;
}

-- A data block and what its index entry says of it.
pub record Chunk : Type 0 where
  pub separator : List ℕ
  pub handle : BlockHandle
  pub entries : List Entry

abbrev pub index_entries : List Chunk → List Entry
index_entries [] = []
index_entries (c ∷ cs) = (c.separator, encode c.handle) ∷ index_entries cs

abbrev pub entries_of : List Chunk → List Entry
entries_of [] = []
entries_of (c ∷ cs) = c.entries ++ entries_of cs

abbrev pub handle_of : Option Chunk → Option BlockHandle
handle_of none = none
handle_of (some c) = some c.handle

-- The block of a chunk that may not have its index entry yet.
abbrev pub block_of : ℕ → Chunk → List ℕ
block_of interval c = finish (add_all c.entries (new_block_writer interval))

pub record IsChunk (p : Platform) (interval : ℕ) (file : List ℕ) (c : Chunk) : Type 0 where
  pub placed : Placed p file c.handle (block_of interval c)
  pub nonempty : 0 < length c.entries
  pub short_separator : length c.separator < u64_mod

pub IsChunk-append :
    (p : Platform) (interval : ℕ) (file more : List ℕ) (c : Chunk)
    → IsChunk p interval file c
    → IsChunk p interval (file ++ more) c
IsChunk-append p interval file more c v = record {
  placed = Placed-append p file more c.handle (block_of interval c) v.placed;
  nonempty = v.nonempty;
  short_separator = v.short_separator;
}

pub All-IsChunk-append :
    (p : Platform) (interval : ℕ) (file more : List ℕ) (cs : List Chunk)
    → All (IsChunk p interval file) cs
    → All (IsChunk p interval (file ++ more)) cs
All-IsChunk-append p interval file more [] v = tt
All-IsChunk-append p interval file more (c ∷ cs) v =
    (IsChunk-append p interval file more c v.0, All-IsChunk-append p interval file more cs v.1)

pub index_entries-snoc :
    (cs : List Chunk) (c : Chunk)
    → index_entries (cs ++ c ∷ []) ≡ index_entries cs ++ (c.separator, encode c.handle) ∷ []
index_entries-snoc [] c = refl
index_entries-snoc (d ∷ cs) c =
    ap (λ l. (d.separator, encode d.handle) ∷ l) (index_entries-snoc cs c)

pub entries_of-snoc :
    (cs : List Chunk) (c : Chunk) → entries_of (cs ++ c ∷ []) ≡ entries_of cs ++ c.entries
entries_of-snoc [] c = append-nil c.entries
entries_of-snoc (d ∷ cs) c =
    ap (λ l. d.entries ++ l) (entries_of-snoc cs c)
    ∙ sym (append_assoc d.entries (entries_of cs) c.entries)
