-- ===== src/Wal/Frame/RoundTrip.antt =====
-- Reading back what the encoder of pkg/wal/encoder.go wrote.
use indexed_watch.Prelude.{
  take_front, drop_front, ℕ, zero, suc, ◌+◌, ◌^◌, ◌≤◌, ◌<◌, ◌≡◌, refl, ap, ap₂, sym, ◌∙◌, Bool,
  true, false, some, List, [], ◌∷◌, ◌++◌, append_assoc, append-nil, arith, length, length-append,
  length-replicate, drop, replicate, ltb, ◌==◌, le→ltb_false, ◌⊎◌, inl, inr,
}
use indexed_watch.Bytes.Fixed.{le_bytes, le_read, length-le_bytes, le_read-le_bytes}
use indexed_watch.Wal.Frame.{
  Record, crc_type, RecordCodec, encode_frame_size, max_record_size, Decoder, Outcome, decoded, eof,
  unexpected_eof, corrupted, crc_mismatch, frame, Encoder, encode, check_crc, decode_body, decode,
  decode_all,
}
use indexed_watch.Wal.Frame.Size.{decode-encode_frame_size}

abbrev pub pad_of : List ℕ → ℕ
pad_of d = (encode_frame_size (length d)).1

abbrev pub frame_size : List ℕ → ℕ
frame_size d = 8 + length d + pad_of d

pub length-frame : (d : List ℕ) → length (frame d) ≡ frame_size d
unfolding frame
length-frame d =
    length-append (le_bytes 8 (encode_frame_size (length d)).0) (d ++ replicate (pad_of d) 0)
    ∙ omega (
      arith,
      length-le_bytes 8 (encode_frame_size (length d)).0,
      length-append d (replicate (pad_of d) 0),
      length-replicate {A = ℕ} (pad_of d) 0,
    )

abbrev pub is_record : Outcome → Bool
is_record (decoded r) = true
is_record eof = false
is_record unexpected_eof = false
is_record corrupted = false
is_record crc_mismatch = false

module _ (codec : RecordCodec) (update : ℕ → List ℕ → ℕ) where
  -- The decoder finds the body of a frame.
  decode-frame :
      (d rest : List ℕ) (crc off : ℕ)
      → 0 < length d
      → length d < 2 ^ 56
      → decode codec update (record { src = frame d ++ rest; crc = crc; last_valid_off = off })
        ≡ decode_body codec update
            (length d)
            (pad_of d)
            ((d ++ replicate (pad_of d) 0) ++ rest)
            (record { src = frame d ++ rest; crc = crc; last_valid_off = off })
  unfolding decode
  decode-frame d rest crc off pos small =
      let (sizes, _, _, wide, positive) = decode-encode_frame_size (length d) small in
      let lf = (encode_frame_size (length d)).0 in
      let body = (d ++ replicate (pad_of d) 0) ++ rest in
      let split : frame d ++ rest ≡ le_bytes 8 lf ++ body =
        unfold frame in append_assoc (le_bytes 8 lf) (d ++ replicate (pad_of d) 0) rest in
      let read : le_read 8 (frame d ++ rest) ≡ some lf =
        ap (le_read 8) split ∙ le_read-le_bytes 8 lf body wide in
      let after : drop 8 (frame d ++ rest) ≡ body =
        ap (drop 8) split ∙ drop_front 8 (le_bytes 8 lf) body (sym (length-le_bytes 8 lf)) in
      rw (read, decode) (rw (nonzero lf (omega arith)) (rw sizes (rw after refl)))
    where
      nonzero : (n : ℕ) → 0 < n → (n == 0) ≡ false
      nonzero n h = ground arith

  check_crc-good :
      (rec : Record) (entry rest : List ℕ) (size : ℕ) (s : List ℕ) (crc off : ℕ)
      → (rec.type ≡ crc_type) ⊎ (update crc rec.payload ≡ rec.crc)
      → check_crc codec update rec entry rest size
          (record { src = s; crc = crc; last_valid_off = off })
        ≡ (decoded rec, record { src = rest; crc = rec.crc; last_valid_off = off + size })
  unfolding check_crc
  check_crc-good rec entry rest size s crc off good = ground arith

  -- On a body that holds a record with the right checksum, the record is decoded.
  decode_body-frame :
      (rec : Record) (d rest s : List ℕ) (crc off : ℕ)
      → codec.unmarshal d ≡ some rec
      → length d ≤ max_record_size
      → (rec.type ≡ crc_type) ⊎ (update crc rec.payload ≡ rec.crc)
      → decode_body codec update
          (length d)
          (pad_of d)
          ((d ++ replicate (pad_of d) 0) ++ rest)
          (record { src = s; crc = crc; last_valid_off = off })
        ≡ (decoded rec, record { src = rest; crc = rec.crc; last_valid_off = off + frame_size d })
  unfolding decode_body
  decode_body-frame rec d rest s crc off u small good =
      let zeros = replicate (pad_of d) 0 in
      let n : length d + pad_of d ≡ length (d ++ zeros) =
        sym (length-append d zeros ∙ ap (λ k. length d + k) (length-replicate (pad_of d) 0)) in
      let whole : ltb (length ((d ++ zeros) ++ rest)) (length d + pad_of d) ≡ false =
        le→ltb_false _ _ (omega (arith, n, length-append (d ++ zeros) rest)) in
      rw (le→ltb_false max_record_size (length d) small) (
        rw whole (
          rw (take_front _ (d ++ zeros) rest n) (
            rw (take_front _ d zeros refl) (
              rw u (
                rw (take_front _ (d ++ zeros) rest n, drop_front _ (d ++ zeros) rest n)
                  (check_crc-good rec (d ++ zeros) rest (frame_size d) s crc off good))))))

  -- What one successful call does; the checksum in the given record does not matter.
  encode_lem :
      (r : Record) (e : Encoder) (d : List ℕ)
      → r.crc ≡ update e.crc r.payload
      → codec.marshal r ≡ some d
      → encode codec update r e ≡ (
        some e.offset,
        record { crc = r.crc; offset = e.offset + frame_size d; written = e.written ++ frame d },
      )
  unfolding encode
  encode_lem r e d c h =
      let h' : codec.marshal (record r { crc = update e.crc r.payload }) ≡ some d =
        ap (λ k. codec.marshal (record r { crc = k })) (sym c) ∙ h in
      rw (h', encode) (rw c refl)

  -- Successful calls of `Encode` in order, with the records as they were written: each has the
  -- checksum that the encoder gave it, a type, and a marshalled size that the decoder accepts.
  pub data Encodes : Encoder → List Record → Encoder → Type 0 where
    nothing : {e : Encoder} → Encodes e [] e
    next :
        {e e' : Encoder} {out : List Record} (r : Record) (d : List ℕ)
        → r.crc ≡ update e.crc r.payload
        → codec.marshal r ≡ some d
        → 0 < r.type
        → length d ≤ max_record_size
        → Encodes (encode codec update r e).1 out e'
        → Encodes e (r ∷ out) e'

  pub bytes_of : {e e' : Encoder} {out : List Record} → Encodes e out e' → List ℕ
  bytes_of nothing = []
  bytes_of (next r d c m t s h) = frame d ++ bytes_of h

  pub written-Encodes :
      {e e' : Encoder} {out : List Record} (h : Encodes e out e')
      → e'.written ≡ e.written ++ bytes_of h
  unfolding bytes_of
  written-Encodes {e} nothing = sym (append-nil e.written)
  written-Encodes {e} (next r d c m t s h) =
      written-Encodes h
      ∙ ap (λ p. p.1.written ++ bytes_of h) (encode_lem r e d c m)
      ∙ append_assoc e.written (frame d) (bytes_of h)

  -- The decoder's checksum is the encoder's, or the first record resets it.
  unfoldable pub Starts : List Record → ℕ → Encoder → Type 0
  Starts [] c e = c ≡ e.crc
  Starts (r ∷ out) c e = (r.type ≡ crc_type) ⊎ (c ≡ e.crc)

  Starts-same : (out : List Record) (c : ℕ) (e : Encoder) → c ≡ e.crc → Starts out c e
  unfolding Starts
  Starts-same [] c e h = h
  Starts-same (r ∷ out) c e h = inr h

  decode_all-stop :
      (fuel : ℕ) (dec end : Decoder) (last : Outcome)
      → decode codec update dec ≡ (last, end)
      → is_record last ≡ false
      → decode_all codec update (suc fuel) dec ≡ ([], last, end)
  unfolding decode_all
  decode_all-stop fuel dec end (decoded r) h s = cc
  decode_all-stop fuel dec end eof h s =
      rw (ap (λ p. p.0) h, decode_all) (ap (λ p. ([], eof, p.1)) h)
  decode_all-stop fuel dec end unexpected_eof h s =
      rw (ap (λ p. p.0) h, decode_all) (ap (λ p. ([], unexpected_eof, p.1)) h)
  decode_all-stop fuel dec end corrupted h s =
      rw (ap (λ p. p.0) h, decode_all) (ap (λ p. ([], corrupted, p.1)) h)
  decode_all-stop fuel dec end crc_mismatch h s =
      rw (ap (λ p. p.0) h, decode_all) (ap (λ p. ([], crc_mismatch, p.1)) h)

  decode_all-more :
      (fuel : ℕ) (dec dec' end : Decoder) (r : Record) (out : List Record) (last : Outcome)
      → decode codec update dec ≡ (decoded r, dec')
      → decode_all codec update fuel dec' ≡ (out, last, end)
      → decode_all codec update (suc fuel) dec ≡ (r ∷ out, last, end)
  unfolding decode_all
  decode_all-more fuel dec dec' end r out last h k =
      rw (ap (λ p. p.0) h, decode_all) (rw (ap (λ p. p.1) h) (rw k refl))

  decode_next :
      (r : Record) (d rest : List ℕ) (c off : ℕ)
      → codec.marshal r ≡ some d
      → 0 < r.type
      → length d ≤ max_record_size
      → (r.type ≡ crc_type) ⊎ (update c r.payload ≡ r.crc)
      → decode codec update (record { src = frame d ++ rest; crc = c; last_valid_off = off })
        ≡ (decoded r, record { src = rest; crc = r.crc; last_valid_off = off + frame_size d })
  decode_next r d rest c off m t s good =
      decode-frame d rest c off (codec.marshal_positive r d m t) (omega arith)
      ∙ decode_body-frame r d rest (frame d ++ rest) c off (codec.unmarshal_marshal r d m) s good

  pub total : {e e' : Encoder} {out : List Record} → Encodes e out e' → ℕ
  total nothing = 0
  total (next r d c m t s h) = frame_size d + total h

  checks :
      (r : Record) (c : ℕ) (e : Encoder)
      → (r.type ≡ crc_type) ⊎ (c ≡ e.crc)
      → r.crc ≡ update e.crc r.payload
      → (r.type ≡ crc_type) ⊎ (update c r.payload ≡ r.crc)
  checks r c e (inl h) k = inl h
  checks r c e (inr h) k = inr (ap (λ x. update x r.payload) h ∙ sym k)

  pub decode_all-bytes :
      {e e' : Encoder} {out : List Record} (h : Encodes e out e') (tail : List ℕ) (c off fuel : ℕ)
      (last : Outcome) (end : Decoder)
      → Starts out c e
      → decode codec update (record { src = tail; crc = e'.crc; last_valid_off = off + total h })
        ≡ (last, end)
      → is_record last ≡ false
      → length out < fuel
      → decode_all codec update fuel
          (record { src = bytes_of h ++ tail; crc = c; last_valid_off = off })
        ≡ (out, last, end)
  unfolding bytes_of total Starts
  decode_all-bytes h tail c off zero last end st z n lt = absurd (omega arith)
  decode_all-bytes {e} nothing tail c off (suc fuel) last end st z n lt =
      let o : off ≡ off + 0 = omega arith in
      decode_all-stop fuel _ end last
        (ap₂ (λ k x. decode codec update (record { src = tail; crc = k; last_valid_off = x })) st o
          ∙ z)
        n
  decode_all-bytes {e} (next {e' = e'} {out = out} r d k m t s h) tail c off (suc fuel) last end st
        z n lt =
      let crc_next : r.crc ≡ (encode codec update r e).1.crc =
        sym (ap (λ p. p.1.crc) (encode_lem r e d k m)) in
      let good : (r.type ≡ crc_type) ⊎ (update c r.payload ≡ r.crc) = checks r c e st k in
      let here = decode_next r d (bytes_of h ++ tail) c off m t s good in
      let o : off + (frame_size d + total h) ≡ off + frame_size d + total h = omega arith in
      let later =
        decode_all-bytes {e = (encode codec update r e).1} h tail r.crc (off + frame_size d) fuel
          last end (Starts-same out r.crc _ crc_next)
          (ap (λ x. decode codec update (record { src = tail; crc = e'.crc; last_valid_off = x }))
              (sym o)
            ∙ z)
          n (omega arith) in
      ap
        (λ x.
          decode_all codec update (suc fuel) (record { src = x; crc = c; last_valid_off = off }))
        (append_assoc (frame d) (bytes_of h) tail)
      ∙ decode_all-more fuel _ _ end r out last here later

  pub length-bytes_of :
      {e e' : Encoder} {out : List Record} (h : Encodes e out e') → length (bytes_of h) ≡ total h
  unfolding bytes_of total
  length-bytes_of nothing = refl
  length-bytes_of (next r d c m t s h) =
      length-append (frame d) (bytes_of h) ∙ omega (arith, length-frame d, length-bytes_of h)

  pub length-Encodes :
      {e e' : Encoder} {out : List Record} (h : Encodes e out e') → length out ≤ total h
  unfolding total
  length-Encodes nothing = omega arith
  length-Encodes (next r d c m t s h) = omega (arith, length-Encodes h)

  decode-nothing :
      (c off : ℕ)
      → decode codec update (record { src = []; crc = c; last_valid_off = off })
        ≡ (eof, record { src = []; crc = c; last_valid_off = off })
  unfolding decode le_read
  decode-nothing c off = refl

  -- The records of successful calls of `Encode` come back in order, each with the checksum that it
  -- was given; the decoder then reports the end of the file, its checksum is the encoder's, and
  -- its offset is the number of bytes written. The conditions are: every record has a type and a
  -- marshalled form of at most 64 MiB, which `Decode` demands and `Encode` does not; the decoder
  -- starts with the encoder's checksum or meets a checksum record first; the encoder began with
  -- nothing written, and the fuel exceeds the number of records.
  pub decode_all-Encodes :
      {e e' : Encoder} {out : List Record} (h : Encodes e out e') (c fuel : ℕ)
      → e.written ≡ []
      → Starts out c e
      → length out < fuel
      → decode_all codec update fuel (record { src = e'.written; crc = c; last_valid_off = 0 })
        ≡ (out, eof, record { src = []; crc = e'.crc; last_valid_off = length e'.written })
  decode_all-Encodes {e} {e'} {out} h c fuel fresh st lt =
      let all : e'.written ≡ bytes_of h ++ [] =
        written-Encodes h ∙ ap (λ w. w ++ bytes_of h) fresh ∙ sym (append-nil (bytes_of h)) in
      let size : length e'.written ≡ total h =
        ap length (all ∙ append-nil (bytes_of h)) ∙ length-bytes_of h in
      let start : 0 + total h ≡ total h = omega arith in
      rw size (
        rw all (
          decode_all-bytes h [] c 0 fuel eof _ st
            (decode-nothing e'.crc (0 + total h)
              ∙ ap (λ x. (eof, record { src = []; crc = e'.crc; last_valid_off = x })) start)
            refl lt))
