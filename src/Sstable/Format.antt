-- ===== src/Sstable/Format.antt =====
-- pkg/lsm/sstable/format.go: block handles, the footer's constants and the checksum of a block. The
-- functions of Go's libraries that the tables use are a parameter.
pub mod Handles
use indexed_watch.Prelude.{
  ℕ, ◌+◌, ◌-◌, Option, none, some, List, [], ◌∷◌, ◌++◌, drop, get_or, ltb, if◌then◌else◌,
}
use indexed_watch.Bytes.Varint.{Varint, value, short, overflow, put_uvarint, uvarint, varint_len}

-- CRC-32C of hash/crc32, fmt.Sprintf("%d"), and the product with math.Ln2.
pub record Platform : Type 0 where
  pub crc32c : List ℕ → ℕ
  pub decimal : ℕ → List ℕ
  pub times_ln2 : ℕ → ℕ

-- The letters iwsstv01.
abbrev pub magic : List ℕ
magic = 105 ∷ 119 ∷ 115 ∷ 115 ∷ 116 ∷ 118 ∷ 48 ∷ 49 ∷ []

abbrev pub block_trailer_size : ℕ
block_trailer_size = 5

abbrev pub footer_size : ℕ
footer_size = 48

abbrev pub default_block_size : ℕ
default_block_size = 4096

abbrev pub default_restart_interval : ℕ
default_restart_interval = 16

abbrev pub default_bloom_bits_per_key : ℕ
default_bloom_bits_per_key = 10

abbrev pub compression_none : ℕ
compression_none = 0

pub record BlockHandle : Type 0 where
  pub offset : ℕ
  pub size : ℕ

unfoldable pub encoded_len : BlockHandle → ℕ
encoded_len h = varint_len h.offset + varint_len h.size

unfoldable pub encode : BlockHandle → List ℕ
encode h = put_uvarint h.offset ++ put_uvarint h.size

-- The negative count of an overflow, without its sign: the tenth byte is too large, or there is an
-- eleventh one.
unfoldable pub overflow_count : List ℕ → ℕ
overflow_count src = if ltb (get_or src 9 0) 128 then 10 else 11

-- The second varint, behind n₁ bytes. A count of `none` is negative.
unfoldable pub with_length : ℕ → ℕ → List ℕ → Varint → BlockHandle × Option ℕ
with_length offset n₁ rest short = (record { offset = offset; size = 0 }, some n₁)
with_length offset n₁ rest (value v n₂) = (record { offset = offset; size = v }, some (n₁ + n₂))
with_length offset n₁ rest overflow = (
  record { offset = offset; size = 0 },
  if ltb n₁ (overflow_count rest) then none else some (n₁ - overflow_count rest),
)

-- `none` is a panic: the first varint overflows and its count is a slice bound.
unfoldable pub with_offset : List ℕ → Varint → Option (BlockHandle × Option ℕ)
with_offset src short = some (with_length 0 0 src (uvarint src))
with_offset src overflow = none
with_offset src (value v n) = some (with_length v n (drop n src) (uvarint (drop n src)))

unfoldable pub decode_block_handle : List ℕ → Option (BlockHandle × Option ℕ)
decode_block_handle src = with_offset src (uvarint src)

unfoldable pub block_checksum : Platform → List ℕ → ℕ → ℕ
block_checksum p bytes block_type = p.crc32c (bytes ++ block_type ∷ [])
