-- ===== src/Wal/Frame/Torn.antt =====
-- A crash in the middle of a frame, as pkg/wal/decoder.go sees it.
use indexed_watch.Prelude.{
  drop_front, take-append, ℕ, ◌+◌, ◌-◌, ◌≤◌, ◌<◌, ◌≡◌, refl, ap, sym, ◌∙◌, subst, Bool, true, false,
  List, [], ◌++◌, arith, length, length-take, take, replicate, ltb, ltb→lt, ltb_false→le,
  Bool-cases, inl, inr,
}
use indexed_watch.Bytes.Fixed.{le_read_short, le_bytes, length-le_bytes, le_read-le_bytes}
use indexed_watch.Wal.Frame.{
  Record, RecordCodec, encode_frame_size, max_record_size, Decoder, Outcome, decoded, eof,
  unexpected_eof, corrupted, crc_mismatch, frame, Encoder, decode_body, decode, decode_all,
}
use indexed_watch.Wal.Frame.Size.{decode-encode_frame_size}
use indexed_watch.Wal.Frame.RoundTrip.{
  pad_of, frame_size, Encodes, Starts, bytes_of, total, written-Encodes, length-bytes_of,
  decode_all-bytes, is_record,
}

-- The outcomes after which a segment is opened all the same.
abbrev pub recoverable : Outcome → Bool
recoverable (decoded r) = false
recoverable eof = true
recoverable unexpected_eof = true
recoverable corrupted = false
recoverable crc_mismatch = false

pub no_record : (o : Outcome) → recoverable o ≡ true → is_record o ≡ false
no_record (decoded r) h = cc
no_record eof h = refl
no_record unexpected_eof h = refl
no_record corrupted h = refl
no_record crc_mismatch h = refl

module _ (codec : RecordCodec) (update : ℕ → List ℕ → ℕ) where
  -- What a decoder makes of the first k bytes of a frame: no record, and nothing moves.
  record Stops (dec : Decoder) : Type 0 where
    pub soft : recoverable (decode codec update dec).0 ≡ true
    pub crc_stays : (decode codec update dec).1.crc ≡ dec.crc
    pub off_stays : (decode codec update dec).1.last_valid_off ≡ dec.last_valid_off

  decode-short :
      (src : List ℕ) (c off : ℕ)
      → length src < 8
      → Stops (record { src = src; crc = c; last_valid_off = off })
  unfolding decode
  decode-short src c off h =
      let e = le_read_short 8 src h in
      record { soft = ground arith; crc_stays = ground arith; off_stays = ground arith }

  decode-cut :
      (d part : List ℕ) (c off : ℕ)
      → 0 < length d
      → length d ≤ max_record_size
      → length part < length d + pad_of d
      → Stops (record {
        src = le_bytes 8 (encode_frame_size (length d)).0 ++ part;
        crc = c;
        last_valid_off = off;
      })
  unfolding decode decode_body
  decode-cut d part c off pos small cut =
      let (sizes, _, _, wide, positive) = decode-encode_frame_size (length d) (omega arith) in
      let lf = (encode_frame_size (length d)).0 in
      let p : 0 < lf = omega arith in
      let read = le_read-le_bytes 8 lf part wide in
      let after = drop_front 8 (le_bytes 8 lf) part (sym (length-le_bytes 8 lf)) in
      record { soft = ground arith; crc_stays = ground arith; off_stays = ground arith }

  -- A proper prefix of a frame.
  cut-Stops :
      (d : List ℕ) (k c off : ℕ)
      → 0 < length d
      → length d ≤ max_record_size
      → k < frame_size d
      → Stops (record { src = take k (frame d); crc = c; last_valid_off = off })
  cut-Stops d k c off pos small cut = elim (Bool-cases (ltb k 8)) [
    | inl short ↦
        decode-short (take k (frame d)) c off
          (omega (arith, length-take k (frame d), ltb→lt k 8 short))
    | inr long ↦
        subst (λ s. Stops (record { src = s; crc = c; last_valid_off = off }))
          (sym (split (ltb_false→le k 8 long)))
          (decode-cut d (take (k - 8) body) c off pos small
            (omega (arith, ltb_false→le k 8 long, length-take (k - 8) body)))
  ]
    where
      body : List ℕ
      body = d ++ replicate (pad_of d) 0

      head : List ℕ
      head = le_bytes 8 (encode_frame_size (length d)).0

      split : 8 ≤ k → take k (frame d) ≡ head ++ take (k - 8) body
      split h =
          unfold frame in
          take-append k head body
            (omega (arith, length-le_bytes 8 (encode_frame_size (length d)).0))
          ∙ ap (λ n. head ++ take (k - n) body) (length-le_bytes 8 (encode_frame_size (length d)).0)

  -- After a crash that left only a proper prefix of one more frame, reading gives the records
  -- whose frames were complete, in order, and ends in a way that `openSegment` recovers from; the
  -- checksum and the offset are those of the end of the last complete frame. The conditions are:
  -- the complete records have a type and marshalled forms of at most 64 MiB, as `Decode` demands
  -- and `Encode` does not; so has the cut record, whose marshalled form is not empty; the decoder
  -- starts with the encoder's checksum or meets a checksum record first; the encoder began with
  -- nothing written, and the fuel exceeds the number of records.
  pub decode_all-torn :
      {e e' : Encoder} {out : List Record} (h : Encodes codec update e out e') (d : List ℕ)
      (k c fuel : ℕ)
      → e.written ≡ []
      → Starts codec update out c e
      → length out < fuel
      → 0 < length d
      → length d ≤ max_record_size
      → k < frame_size d
      → (last : Outcome) × (end : Decoder) × (decode_all codec update fuel
            (record { src = e'.written ++ take k (frame d); crc = c; last_valid_off = 0 })
          ≡ (out, last, end))
        × (recoverable last ≡ true)
        × (end.crc ≡ e'.crc)
        × (end.last_valid_off ≡ length e'.written)
  decode_all-torn {e} {e'} {out} h d k c fuel fresh st lt pos small cut =
      let tail = take k (frame d) in
      let s = cut-Stops d k e'.crc (0 + total codec update h) pos small cut in
      let dec : Decoder = record {
        src = tail;
        crc = e'.crc;
        last_valid_off = 0 + total codec update h;
      } in
      let all : e'.written ≡ bytes_of codec update h =
        written-Encodes codec update h ∙ ap (λ w. w ++ bytes_of codec update h) fresh in
      let size : 0 + total codec update h ≡ length e'.written =
        omega (arith, ap length all, length-bytes_of codec update h) in
      (
        (decode codec update dec).0,
        (decode codec update dec).1,
        ap
              (λ w.
                decode_all codec update fuel
                  (record { src = w ++ tail; crc = c; last_valid_off = 0 }))
              all
            ∙ decode_all-bytes codec update h tail c 0 fuel _ _ st refl (no_record _ s.soft) lt,
        s.soft,
        s.crc_stays,
        s.off_stays ∙ size,
      )
