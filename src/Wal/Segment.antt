-- ===== src/Wal/Segment.antt =====
-- pkg/wal/wal.go: segments, rotation, appending and reading. Failures of the file system are not
-- modelled; a flush or a sync then only moves bytes that the model already counts as written.
-- A file is the list of its bytes, and the list of segments stands for the directory.
pub mod Recovery
pub mod Stored
pub mod Rotation
pub mod Appends
use indexed_watch.Prelude.{
  ℕ, zero, suc, ◌+◌, ◌-◌, ◌*◌, ◌%◌, ◌<◌, ◌≡◌, Bool, true, false, ◌&&◌, not, Option, none, some,
  List, [], ◌∷◌, ◌++◌, length, take, drop, replicate, leb, ltb, ◌==◌, if◌then◌else◌,
}
use indexed_watch.Wal.Frame.{
  Record, crc_type, data_type, snapshot_type, RecordCodec, Decoder, new_decoder, Outcome, decoded,
  eof, unexpected_eof, corrupted, crc_mismatch, Encoder, new_encoder, encode, decode_all,
}

abbrev pub wal_page_bytes : ℕ
wal_page_bytes = 8 * 512

pub data Error : Type 0 where
  closed_error encode_failed crc_not_set corrupt_segment decode_failed : Error

pub data Result {ℓ} (A : Type ℓ) : Type ℓ where
  ok : A → Result A
  err : Error → Result A

-- The current segment: the bytes that its file held when it was opened, up to the last valid
-- record, the encoder after them, and the size that the file had then.
pub record Wal : Type 0 where
  pub segment_size : ℕ
  pub prealloc_size : ℕ
  pub closed_segments : List (List ℕ)
  pub base : List ℕ
  pub encoder : Encoder
  pub file_size : ℕ
  pub seq : ℕ
  pub offset : ℕ
  pub closed : Bool

-- The bytes of the current file; behind the written part the file is zeroed.
unfoldable pub current_file : Wal → List ℕ
current_file w =
    let written = w.base ++ w.encoder.written in
    written ++ replicate (w.file_size - length written) 0

-- Go's ReadFull stops the loops: a segment has at most one record for each byte.
abbrev pub fuel_for : List ℕ → ℕ
fuel_for file = length file + 1

-- Only the payloads of data records are handed out.
unfoldable pub data_payloads : List Record → List (List ℕ)
data_payloads [] = []
data_payloads (r ∷ rs) =
    let rest = data_payloads rs in if r.type == data_type then r.payload ∷ rest else rest

module _ (codec : RecordCodec) (update : ℕ → List ℕ → ℕ) where
  -- The new segment's file starts with a checksum record.
  unfoldable pub create_segment : ℕ → ℕ → Wal → Result Wal
  create_segment seq prev_crc w =
      let (at, enc) =
        encode codec update (record { type = crc_type; crc = prev_crc; payload = [] })
          (new_encoder prev_crc 0) in
      elim at [
        | none ↦ err encode_failed
        | some _ ↦ ok (record w {
          base = [];
          encoder = enc;
          file_size = w.prealloc_size;
          seq = seq;
          offset = enc.offset;
        })
      ]

  -- The end of the loop of `openSegment`.
  unfoldable pub reopen : ℕ → List ℕ → Outcome → Decoder → Wal → Result Wal
  reopen seq file (decoded r) end w = err corrupt_segment
  reopen seq file corrupted end w = err corrupt_segment
  reopen seq file crc_mismatch end w = err corrupt_segment
  reopen seq file eof end w = ok (record w {
    base = take end.last_valid_off file;
    encoder = new_encoder end.crc (end.last_valid_off % wal_page_bytes);
    file_size = length file;
    seq = seq;
    offset = end.last_valid_off;
  })
  reopen seq file unexpected_eof end w = ok (record w {
    base = take end.last_valid_off file;
    encoder = new_encoder end.crc (end.last_valid_off % wal_page_bytes);
    file_size = length file;
    seq = seq;
    offset = end.last_valid_off;
  })

  unfoldable pub open_segment : ℕ → List ℕ → Wal → Result Wal
  unfolding reopen
  open_segment seq file w =
      let (recs, last, end) = decode_all codec update (fuel_for file) (new_decoder file) in
      reopen seq file last end w

  -- The payloads of a segment, or `none` where the source returns a decoding error.
  unfoldable pub read_segment : List ℕ → Option (List (List ℕ))
  read_segment file =
      let (recs, last, end) = decode_all codec update (fuel_for file) (new_decoder file) in
      elim last [
        | decoded r ↦ none
        | corrupted ↦ none
        | crc_mismatch ↦ none
        | eof ↦ some (data_payloads recs)
        | unexpected_eof ↦ some (data_payloads recs)
      ]

  unfoldable pub read_segments : List (List ℕ) → Option (List (List ℕ))
  read_segments [] = some []
  read_segments (file ∷ files) = elim (read_segment file) [
    | none ↦ none
    | some payloads ↦ elim (read_segments files) [
      | none ↦ none
      | some rest ↦ some (payloads ++ rest)
    ]
  ]

  unfoldable pub read_all : Wal → Result (List (List ℕ))
  read_all w =
      if w.closed
      then err closed_error
      else elim (read_segments (w.closed_segments ++ current_file w ∷ [])) [
        | none ↦ err decode_failed
        | some payloads ↦ ok payloads
      ]

  unfoldable pub rotate : Wal → Result Wal
  rotate w =
      create_segment (w.seq + 1) w.encoder.crc
        (record w { closed_segments = w.closed_segments ++ current_file w ∷ [] })

  -- The test that `Append` and `SaveSnapshot` make first.
  unfoldable pub rotate_if_full : Wal → Result Wal
  rotate_if_full w = if ltb 0 w.segment_size && leb w.segment_size w.offset then rotate w else ok w

  -- The tests after `Encode`: a payload with the checksum 0 is reported as an error, although the
  -- record has been written, and `offset` then stays behind the encoder.
  unfoldable pub append_record : List ℕ → Wal → Result ℕ × Wal
  append_record payload w =
      let (at, enc) =
        encode codec update (record { type = data_type; crc = 0; payload = payload }) w.encoder in
      elim at [
        | none ↦ (err encode_failed, record w { encoder = enc })
        | some off ↦
            if enc.crc == 0 && ltb 0 (length payload)
            then (err crc_not_set, record w { encoder = enc })
            else (ok off, record w { encoder = enc; offset = enc.offset })
      ]

  unfoldable pub append : List ℕ → Wal → Result ℕ × Wal
  append payload w =
      if w.closed
      then (err closed_error, w)
      else elim (rotate_if_full w) [ err e ↦ (err e, w) | ok w' ↦ append_record payload w' ]

  -- The argument is the marshalled snapshot.
  unfoldable pub save_snapshot : List ℕ → Wal → Result (Unit {0}) × Wal
  save_snapshot snap w = if w.closed then (err closed_error, w) else elim (rotate_if_full w) [
    | err e ↦ (err e, w)
    | ok w' ↦
        let (at, enc) =
          encode codec update (record { type = snapshot_type; crc = 0; payload = snap })
            w'.encoder in
        elim at [
          | none ↦ (err encode_failed, record w' { encoder = enc })
          | some off ↦ (ok tt, record w' { encoder = enc; offset = enc.offset })
        ]
  ]
