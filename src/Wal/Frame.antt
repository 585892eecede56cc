-- ===== src/Wal/Frame.antt =====
-- pkg/wal/encoder.go, pkg/wal/decoder.go and pkg/crc/crc.go: records in frames of a multiple of
-- eight bytes, with a checksum that runs through all records. The protobuf library and Go's
-- crc32.Update are parameters.
pub mod Size
pub mod RoundTrip
pub mod Torn
use indexed_watch.Prelude.{
  ℕ, zero, suc, ◌+◌, ◌-◌, ◌*◌, ◌/◌, ◌%◌, ◌^◌, ◌<◌, ◌≡◌, Bool, true, false, Option, none, some, List,
  [], ◌∷◌, ◌++◌, length, take, drop, replicate, leb, ltb, ◌==◌, if◌then◌else◌, min,
}
use indexed_watch.Bytes.Fixed.{le_bytes, le_read}

-- walpb.Record, and the record types of pkg/wal/walpb/types.go.
pub record Record : Type 0 where
  pub type : ℕ
  pub crc : ℕ
  pub payload : List ℕ

abbrev pub crc_type : ℕ
crc_type = 1

abbrev pub snapshot_type : ℕ
snapshot_type = 2

abbrev pub data_type : ℕ
data_type = 3

-- proto's MarshalAppend and Unmarshal on a Record: what was marshalled is read back, and a record
-- with a type has at least one byte.
pub record RecordCodec : Type 0 where
  pub marshal : Record → Option (List ℕ)
  pub unmarshal : List ℕ → Option Record
  pub unmarshal_marshal : (r : Record) (d : List ℕ) → marshal r ≡ some d → unmarshal d ≡ some r
  pub marshal_positive : (r : Record) (d : List ℕ) → marshal r ≡ some d → 0 < r.type → 0 < length d

-- The length field and the padding. The length is below 2 ^ 56, so that the top byte is added:
-- 0x80 | pad is 128 + pad for a pad below 8.
unfoldable pub encode_frame_size : ℕ → ℕ × ℕ
encode_frame_size n =
    let pad = (8 - n % 8) % 8 in (if pad == 0 then n else n + (128 + pad) * 2 ^ 56, pad)

-- The argument is the bit pattern of an int64: it is negative from 2 ^ 63 on.
unfoldable pub decode_frame_size : ℕ → ℕ × ℕ
decode_frame_size len_field =
    (len_field % 2 ^ 56, if ltb len_field (2 ^ 63) then 0 else len_field / 2 ^ 56 % 8)

abbrev pub frame_size_bytes : ℕ
frame_size_bytes = 8

abbrev pub min_sector_size : ℕ
min_sector_size = 512

abbrev pub max_record_size : ℕ
max_record_size = 64 * 1024 * 1024

all_zero : List ℕ → Bool
all_zero [] = true
all_zero (b ∷ bs) = if b == 0 then all_zero bs else false

-- The loop of `isTornEntry` over the sectors that the entry touches; each takes a byte at least.
torn_loop : ℕ → ℕ → List ℕ → Bool
torn_loop zero file_off rest = false
torn_loop (suc fuel) file_off [] = false
torn_loop (suc fuel) file_off (b ∷ rest) =
    let chunk = min (min_sector_size - file_off % min_sector_size) (length (b ∷ rest)) in
    let more = torn_loop fuel (file_off + chunk) (drop chunk (b ∷ rest)) in
    if all_zero (take chunk (b ∷ rest)) then true else more

unfoldable pub is_torn_entry : ℕ → List ℕ → Bool
unfolding torn_loop all_zero
is_torn_entry last_valid_off entry =
    torn_loop (length entry) (last_valid_off + frame_size_bytes) entry

-- The decoder: the bytes not read yet, the running checksum, the end of the last good record.
pub record Decoder : Type 0 where
  pub src : List ℕ
  pub crc : ℕ
  pub last_valid_off : ℕ

pub data Outcome : Type 0 where
  decoded : Record → Outcome
  eof unexpected_eof corrupted crc_mismatch : Outcome

unfoldable pub new_decoder : List ℕ → Decoder
new_decoder src = record { src = src; crc = 0; last_valid_off = 0 }

-- The bytes that `Encode` writes for a marshalled record.
unfoldable pub frame : List ℕ → List ℕ
frame d =
    let (len_field, pad) = encode_frame_size (length d) in
    le_bytes 8 len_field ++ (d ++ replicate pad 0)

-- The running checksum, the offset, and the bytes handed to the page writer.
pub record Encoder : Type 0 where
  pub crc : ℕ
  pub offset : ℕ
  pub written : List ℕ

unfoldable pub new_encoder : ℕ → ℕ → Encoder
new_encoder prev_crc page_offset = record { crc = prev_crc; offset = page_offset; written = [] }

module _ (codec : RecordCodec) (update : ℕ → List ℕ → ℕ) where
  -- `none` is a failed marshal; the checksum has moved all the same.
  unfoldable pub encode : Record → Encoder → Option ℕ × Encoder
  encode rec e =
      let crc' = update e.crc rec.payload in
      elim (codec.marshal (record rec { crc = crc' })) [
        | none ↦ (none, record e { crc = crc' })
        | some d ↦
            let (len_field, pad) = encode_frame_size (length d) in
            (
              some e.offset,
              record {
                crc = crc';
                offset = e.offset + (frame_size_bytes + length d + pad);
                written = e.written ++ frame d;
              },
            )
      ]

  -- The checks on a record that was unmarshalled.
  unfoldable pub check_crc : Record → List ℕ → List ℕ → ℕ → Decoder → Outcome × Decoder
  check_crc rec entry rest size dec =
      if rec.type == crc_type
      then (
        decoded rec,
        record { src = rest; crc = rec.crc; last_valid_off = dec.last_valid_off + size },
      )
      else let crc' = update dec.crc rec.payload in
        if crc' == rec.crc
        then (
          decoded rec,
          record { src = rest; crc = crc'; last_valid_off = dec.last_valid_off + size },
        )
        else (
          if is_torn_entry dec.last_valid_off entry then unexpected_eof else crc_mismatch,
          record dec { src = rest; crc = crc' },
        )

  -- The body of a frame, after its length field.
  unfoldable pub decode_body : ℕ → ℕ → List ℕ → Decoder → Outcome × Decoder
  decode_body rec_bytes pad_bytes body dec =
      let n = rec_bytes + pad_bytes in
      if ltb max_record_size rec_bytes
      then (corrupted, record dec { src = body })
      else if ltb (length body) n
      then (unexpected_eof, record dec { src = [] })
      else let entry = take n body in
        elim (codec.unmarshal (take rec_bytes entry)) [
          | none ↦ (
            if is_torn_entry dec.last_valid_off entry then unexpected_eof else corrupted,
            record dec { src = drop n body },
          )
          | some rec ↦
              check_crc rec entry (drop n body) (frame_size_bytes + rec_bytes + pad_bytes) dec
        ]

  unfoldable pub decode : Decoder → Outcome × Decoder
  decode dec = elim (le_read 8 dec.src) [
    | none ↦ (if length dec.src == 0 then eof else unexpected_eof, record dec { src = [] })
    | some len_field ↦
        let (rec_bytes, pad_bytes) = decode_frame_size len_field in
        if len_field == 0
        then (eof, record dec { src = drop 8 dec.src })
        else decode_body rec_bytes pad_bytes (drop 8 dec.src) dec
  ]

  -- The loop of `openSegment` and `readSegment` of pkg/wal/wal.go: the records up to the first
  -- outcome that is none, with that outcome. A record takes eight bytes at least.
  unfoldable pub decode_all : ℕ → Decoder → List Record × Outcome × Decoder
  decode_all zero dec = ([], unexpected_eof, dec)
  decode_all (suc fuel) dec =
      let (o, dec') = decode dec in
      elim o [
        | decoded rec ↦ let (recs, last, end) = decode_all fuel dec' in (rec ∷ recs, last, end)
        | eof ↦ ([], eof, dec')
        | unexpected_eof ↦ ([], unexpected_eof, dec')
        | corrupted ↦ ([], corrupted, dec')
        | crc_mismatch ↦ ([], crc_mismatch, dec')
      ]
