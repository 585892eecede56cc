-- ===== src/Wal/Segment/Recovery.antt =====
-- What pkg/wal/wal.go reads back from a segment, and what it goes on with.
use indexed_watch.Prelude.{
  ℕ, ◌%◌, ◌≤◌, ◌<◌, ◌≡◌, refl, ap, ap₂, ◌∙◌, subst, true, some, List, [], ◌++◌, arith, length,
  length-append, take, take-length_append,
}
use indexed_watch.Wal.Frame.{
  Record, RecordCodec, max_record_size, Decoder, Outcome, decoded, eof, unexpected_eof, corrupted,
  crc_mismatch, frame, Encoder, new_encoder, encode, decode_all, new_decoder,
}
use indexed_watch.Wal.Frame.RoundTrip.{
  length-Encodes, bytes_of, written-Encodes, length-bytes_of, Encodes, Starts, frame_size,
}
use indexed_watch.Wal.Frame.Torn.{recoverable, decode_all-torn}
use indexed_watch.Wal.Segment.{
  Wal, ok, wal_page_bytes, fuel_for, data_payloads, reopen, open_segment, read_segment,
  append_record,
}

module _ (codec : RecordCodec) (update : ℕ → List ℕ → ℕ) where
  -- Where the loops end in a way that is recovered from, the segment is opened at the end of its
  -- last valid record, with the decoder's checksum.
  open_segment-recovers :
      (seq : ℕ) (file : List ℕ) (w : Wal) (recs : List Record) (last : Outcome) (end : Decoder)
      → decode_all codec update (fuel_for file) (new_decoder file) ≡ (recs, last, end)
      → recoverable last ≡ true
      → open_segment codec update seq file w
        ≡ ok (record w {
          base = take end.last_valid_off file;
          encoder = new_encoder end.crc (end.last_valid_off % wal_page_bytes);
          file_size = length file;
          seq = seq;
          offset = end.last_valid_off;
        })
  unfolding open_segment
  open_segment-recovers seq file w recs (decoded r) end h s = cc
  open_segment-recovers seq file w recs eof end h s = rw h refl
  open_segment-recovers seq file w recs unexpected_eof end h s = rw h refl
  open_segment-recovers seq file w recs corrupted end h s = cc
  open_segment-recovers seq file w recs crc_mismatch end h s = cc

  pub read_segment-recovers :
      (file : List ℕ) (recs : List Record) (last : Outcome) (end : Decoder)
      → decode_all codec update (fuel_for file) (new_decoder file) ≡ (recs, last, end)
      → recoverable last ≡ true
      → read_segment codec update file ≡ some (data_payloads recs)
  unfolding read_segment
  read_segment-recovers file recs (decoded r) end h s = cc
  read_segment-recovers file recs eof end h s =
      rw (ap (λ p. p.1) h, read_segment) (ap (λ p. some (data_payloads p.0)) h)
  read_segment-recovers file recs unexpected_eof end h s =
      rw (ap (λ p. p.1) h, read_segment) (ap (λ p. some (data_payloads p.0)) h)
  read_segment-recovers file recs corrupted end h s = cc
  read_segment-recovers file recs crc_mismatch end h s = cc

  -- A segment that was written record by record from its checksum record on, and then cut in the
  -- middle of one more frame by a crash, is read as the payloads of its complete data records and
  -- opened for appending right after them, with the encoder's checksum at that point. The conditions
  -- are: the complete records have a type and marshalled forms of at most 64 MiB, as `Decode`
  -- demands and `Encode` does not; so has the cut record, whose marshalled form is not empty; the
  -- encoder began with nothing written; and the first record is a checksum record or the encoder
  -- began with the checksum 0.
  pub segment_survives_crash :
      {e e' : Encoder} {out : List Record} (h : Encodes codec update e out e') (d : List ℕ)
      (k seq : ℕ) (w : Wal)
      → e.written ≡ []
      → Starts codec update out 0 e
      → 0 < length d
      → length d ≤ max_record_size
      → k < frame_size d
      → (read_segment codec update (e'.written ++ take k (frame d)) ≡ some (data_payloads out))
        × (open_segment codec update seq (e'.written ++ take k (frame d)) w
            ≡ ok (record w {
              base = e'.written;
              encoder = new_encoder e'.crc (length e'.written % wal_page_bytes);
              file_size = length (e'.written ++ take k (frame d));
              seq = seq;
              offset = length e'.written;
            }))
  segment_survives_crash {e} {e'} {out} h d k seq w fresh st pos small cut =
      let file = e'.written ++ take k (frame d) in
      let whole : e'.written ≡ bytes_of codec update h =
        written-Encodes codec update h ∙ ap (λ x. x ++ bytes_of codec update h) fresh in
      let fits : length out < fuel_for file = omega (
        arith,
        length-append e'.written (take k (frame d)),
        length-Encodes codec update h,
        length-bytes_of codec update h,
        ap length whole,
      ) in
      let (last, end, all, soft, c, o) =
        decode_all-torn codec update h d k 0 (fuel_for file) fresh st fits pos small cut in
      let start : decode_all codec update (fuel_for file) (new_decoder file) ≡ (out, last, end) =
        unfold new_decoder in all in
      (
        read_segment-recovers file out last end start soft,
        open_segment-recovers seq file w out last end start soft
            ∙ ap₂
                (λ x n. ok (record w {
                  base = take n file;
                  encoder = new_encoder x (n % wal_page_bytes);
                  file_size = length file;
                  seq = seq;
                  offset = n;
                }))
                c o
            ∙ ap
                (λ x. ok (record w {
                  base = x;
                  encoder = new_encoder e'.crc (length e'.written % wal_page_bytes);
                  file_size = length file;
                  seq = seq;
                  offset = length e'.written;
                }))
                (take-length_append e'.written (take k (frame d))),
      )

  reopen_at :
      (seq : ℕ) (file : List ℕ) (last : Outcome) (end : Decoder) (w w' : Wal)
      → reopen codec update seq file last end w ≡ ok w'
      → w'.encoder.offset < wal_page_bytes
  unfolding reopen new_encoder
  reopen_at seq file (decoded r) end w w' h = absurd (cc h)
  reopen_at seq file eof end w w' h = ground arith
  reopen_at seq file unexpected_eof end w w' h = ground arith
  reopen_at seq file corrupted end w w' h = absurd (cc h)
  reopen_at seq file crc_mismatch end w w' h = absurd (cc h)

  append_at :
      (payload : List ℕ) (w : Wal) (off : ℕ)
      → (append_record codec update payload w).0 ≡ ok off
      → w.encoder.offset ≡ off
  unfolding append_record encode
  append_at payload w off h = ground arith

  -- The offset that the first append after opening a segment returns is below the page size,
  -- whatever the length of the segment: the encoder was given the offset modulo the page size.
  pub reopened_offset :
      (seq : ℕ) (file payload : List ℕ) (w w' : Wal) (off : ℕ)
      → open_segment codec update seq file w ≡ ok w'
      → (append_record codec update payload w').0 ≡ ok off
      → off < wal_page_bytes
  reopened_offset seq file payload w w' off h k =
      let run = decode_all codec update (fuel_for file) (new_decoder file) in
      subst (λ n. n < wal_page_bytes) (append_at payload w' off k)
        (reopen_at seq file run.1 run.2 w w' (unfold open_segment in h))
