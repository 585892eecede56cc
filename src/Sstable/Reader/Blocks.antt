-- ===== src/Sstable/Reader/Blocks.antt =====
-- Reading a block that stands in the file: `readRawBlock` of pkg/lsm/sstable/reader.go.
use indexed_watch.Prelude.{
  ℕ, ◌+◌, ◌%◌, ◌<◌, ◌≡◌, refl, ap, sym, ◌∙◌, false, some, List, [], ◌∷◌, ◌++◌, length,
  length-append, drop, drop_front, take_front, get_or, leb, ==_self, arith, append-nil,
  append_assoc, le→ltb_false, u64_mod, u32_mod,
}
use indexed_watch.Bytes.Fixed.{le_bytes, le_read, le_read-le_bytes}
use indexed_watch.Sstable.Block.Runs.{slice_at}
use indexed_watch.Sstable.Format.{
  Platform, BlockHandle, block_checksum, compression_none, block_trailer_size,
}
use indexed_watch.Sstable.Writer.{stored}
use indexed_watch.Sstable.Writer.Chunks.{Placed, length-stored}
use indexed_watch.Sstable.Reader.{ok, int_mod, read_at, validate, checked, read_raw_block}

-- The checksum is a uint32.
abbrev pub IsChecksum : (List ℕ → ℕ) → Type 0
IsChecksum crc = (bytes : List ℕ) → crc bytes < u32_mod

lt→leb_false : (a b : ℕ) → a < b → leb b a ≡ false
lt→leb_false a b h = ground arith

get_or-append : (xs ys : List ℕ) (y d : ℕ) → get_or (xs ++ y ∷ ys) (length xs) d ≡ y
get_or-append [] ys y d = refl
get_or-append (x ∷ xs) ys y d = get_or-append xs ys y d

pub read_at-front :
    (file before bytes rest : List ℕ) (offset n : ℕ)
    → file ≡ before ++ (bytes ++ rest)
    → offset ≡ length before
    → n ≡ length bytes
    → length file < int_mod
    → read_at file offset n ≡ some bytes
unfolding read_at
read_at-front file before bytes rest offset n split at size short =
    let here : drop offset file ≡ bytes ++ rest =
      ap (drop offset) split ∙ drop_front offset before (bytes ++ rest) at in
    rw
      (lt→leb_false offset int_mod
        (omega (arith, ap (length {0}) split, length-append before (bytes ++ rest))))
      (slice_at offset n file bytes rest size here)

-- The trailer is right.
checked-stored :
    (p : Platform) (bytes : List ℕ)
    → IsChecksum p.crc32c
    → checked p (length bytes) (stored p bytes) ≡ ok bytes
unfolding checked stored validate
checked-stored p bytes uint32 =
    let c = block_checksum p bytes compression_none in
    let L = le_bytes 4 c in
    let whole : bytes ++ compression_none ∷ L ≡ (bytes ++ compression_none ∷ []) ++ L =
      sym (append_assoc bytes (compression_none ∷ []) L) in
    let behind : drop (length bytes + 1) (bytes ++ compression_none ∷ L) ≡ L =
      ap (drop (length bytes + 1)) whole
      ∙ drop_front (length bytes + 1) (bytes ++ compression_none ∷ []) L
          (omega (arith, length-append bytes (compression_none ∷ []))) in
    let sum : le_read 4 L ≡ some c =
      ap (le_read 4) (sym (append-nil L))
      ∙ le_read-le_bytes 4 c [] (unfold block_checksum in uint32 _) in
    rw behind (
      rw sum (
        rw
          (
            take_front (length bytes) bytes (compression_none ∷ L) refl,
            get_or-append bytes L compression_none 0,
          )
          (rw (==_self c) refl)))

-- What the writer stored is read back.
pub read_raw_block-Placed :
    (p : Platform) (file : List ℕ) (h : BlockHandle) (bytes : List ℕ)
    → IsChecksum p.crc32c
    → length file < int_mod
    → Placed p file h bytes
    → read_raw_block p file h ≡ ok bytes
unfolding read_raw_block
read_raw_block-Placed p file h bytes uint32 short v =
    let lengths : length file ≡ length v.before + (length bytes + 5 + length v.rest) = omega (
      arith,
      ap (length {0}) v.split,
      length-append v.before (stored p bytes ++ v.rest),
      length-append (stored p bytes) v.rest,
      length-stored p bytes,
    ) in
    let total : (h.size + block_trailer_size) % u64_mod ≡ length (stored p bytes) =
      omega (arith, v.size, length-stored p bytes) in
    let at : h.offset ≡ length v.before = omega (arith, v.at) in
    rw total (
      rw (lt→leb_false (length (stored p bytes)) int_mod (omega (arith, length-stored p bytes))) (
        rw
          (read_at-front file v.before (stored p bytes) v.rest h.offset (length (stored p bytes))
            v.split at refl short)
          (rw
            (le→ltb_false (length (stored p bytes)) h.size
              (omega (arith, v.size, length-stored p bytes)))
            (rw (← v.size) (checked-stored p bytes uint32)))))
