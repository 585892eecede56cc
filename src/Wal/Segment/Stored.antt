-- ===== src/Wal/Segment/Stored.antt =====
-- The segments of pkg/wal/wal.go and the payloads that they hold, as `ReadAll` returns them.
use indexed_watch.Prelude.{
  ℕ, zero, suc, ◌+◌, ◌-◌, ◌≤◌, ◌<◌, ◌≡◌, refl, ap, ◌∙◌, true, false, some, List, [], ◌∷◌, ◌++◌,
  append_assoc, append-nil, arith, length, length-append, replicate, Option-cases, inl, inr,
}
use indexed_watch.Bytes.Fixed.{le_read}
use indexed_watch.Wal.Frame.{
  Record, data_type, RecordCodec, max_record_size, Decoder, Encoder, encode, decode, decode_all,
  new_decoder,
}
use indexed_watch.Wal.Frame.RoundTrip.{
  Encodes, nothing, next, Starts, bytes_of, total, written-Encodes, length-bytes_of, length-Encodes,
  decode_all-bytes,
}
use indexed_watch.Wal.Frame.Torn.{recoverable, no_record}
use indexed_watch.Wal.Segment.Recovery.{read_segment-recovers}
use indexed_watch.Wal.Segment.{
  Wal, ok, current_file, fuel_for, data_payloads, read_segment, read_segments, read_all,
}

pub data_payloads-last :
    (rs : List Record) (r : Record)
    → r.type ≡ data_type
    → data_payloads (rs ++ r ∷ []) ≡ data_payloads rs ++ r.payload ∷ []
unfolding data_payloads
data_payloads-last [] r h = ground arith
data_payloads-last (q ∷ rs) r h = ground (arith, data_payloads-last rs r h)

module _ (codec : RecordCodec) (update : ℕ → List ℕ → ℕ) where
  -- Behind the written part a file is zeroed, and a decoder ends there.
  zeros_end :
      (n c off : ℕ)
      → recoverable
          (decode codec update (record { src = replicate n 0; crc = c; last_valid_off = off })).0
        ≡ true
  unfolding decode le_read
  zeros_end zero c off = refl
  zeros_end (suc zero) c off = refl
  zeros_end (suc (suc zero)) c off = refl
  zeros_end (suc (suc (suc zero))) c off = refl
  zeros_end (suc (suc (suc (suc zero)))) c off = refl
  zeros_end (suc (suc (suc (suc (suc zero))))) c off = refl
  zeros_end (suc (suc (suc (suc (suc (suc zero)))))) c off = refl
  zeros_end (suc (suc (suc (suc (suc (suc (suc zero))))))) c off = refl
  zeros_end (suc (suc (suc (suc (suc (suc (suc (suc n)))))))) c off = refl

  pub Encodes-last :
      {e e' : Encoder} {out : List Record} (r : Record) (d : List ℕ)
      → Encodes codec update e out e'
      → r.crc ≡ update e'.crc r.payload
      → codec.marshal r ≡ some d
      → 0 < r.type
      → length d ≤ max_record_size
      → Encodes codec update e (out ++ r ∷ []) (encode codec update r e').1
  Encodes-last r d nothing c m t s = next r d c m t s nothing
  Encodes-last r d (next q b c' m' t' s' h) c m t s =
      next q b c' m' t' s' (Encodes-last r d h c m t s)

  pub Starts-last :
      (out : List Record) (r : Record) (c : ℕ) (e : Encoder)
      → Starts codec update out c e
      → Starts codec update (out ++ r ∷ []) c e
  unfolding Starts
  Starts-last [] r c e h = inr h
  Starts-last (q ∷ out) r c e h = h

  -- The current segment holds these payloads: its bytes are those of an encoder that began anew.
  pub record Current (w : Wal) (l : List (List ℕ)) : Type 0 where
    pub first : Encoder
    pub last : Encoder
    pub records : List Record
    pub encoded : Encodes codec update first records last
    pub fresh : first.written ≡ []
    pub starts : Starts codec update records 0 first
    pub bytes : w.base ++ w.encoder.written ≡ last.written
    pub crc : w.encoder.crc ≡ last.crc
    pub payloads : data_payloads records ≡ l

  -- An open log whose segments hold these payloads, in order.
  pub record Keeps (w : Wal) (l : List (List ℕ)) : Type 0 where
    pub is_open : w.closed ≡ false
    pub old : List (List ℕ)
    pub new : List (List ℕ)
    pub closed_read : read_segments codec update w.closed_segments ≡ some old
    pub current : Current w new
    pub all : old ++ new ≡ l

  pub read_segment-Current :
      (w : Wal) (l : List (List ℕ))
      → Current w l
      → read_segment codec update (current_file w) ≡ some l
  read_segment-Current w l v =
      read_segment-recovers codec update file v.records (decode codec update dec).0
        (decode codec update dec).1 run soft
      ∙ ap some v.payloads
    where
      zeros : List ℕ
      zeros = replicate (w.file_size - length (w.base ++ w.encoder.written)) 0

      file : List ℕ
      file = current_file w

      dec : Decoder
      dec = record {
        src = zeros;
        crc = v.last.crc;
        last_valid_off = 0 + total codec update v.encoded;
      }

      soft : recoverable (decode codec update dec).0 ≡ true
      soft = zeros_end _ v.last.crc _

      split : file ≡ bytes_of codec update v.encoded ++ zeros
      split =
          unfold current_file in
          ap (λ x. x ++ zeros)
            (v.bytes
              ∙ written-Encodes codec update v.encoded
              ∙ ap (λ x. x ++ bytes_of codec update v.encoded) v.fresh)

      enough : length v.records < fuel_for file
      enough = omega (
        arith,
        length-Encodes codec update v.encoded,
        length-bytes_of codec update v.encoded,
        length-append (bytes_of codec update v.encoded) zeros,
        ap length split,
      )

      run :
          decode_all codec update (fuel_for file) (new_decoder file)
          ≡ (v.records, (decode codec update dec).0, (decode codec update dec).1)
      run =
          unfold new_decoder in
          ap
            (λ x.
              decode_all codec update (fuel_for file)
                (record { src = x; crc = 0; last_valid_off = 0 }))
            split
          ∙ decode_all-bytes codec update v.encoded zeros 0 0 (fuel_for file) _ _ v.starts refl
              (no_record _ soft) enough

  pub read_segments-last :
      (files : List (List ℕ)) (file : List ℕ) (old new : List (List ℕ))
      → read_segments codec update files ≡ some old
      → read_segment codec update file ≡ some new
      → read_segments codec update (files ++ file ∷ []) ≡ some (old ++ new)
  unfolding read_segments
  read_segments-last [] file old new h k = ground (arith, append-nil new)
  read_segments-last (f ∷ files) file old new h k =
      elim (Option-cases (read_segment codec update f)) [
        | inl n ↦ ground arith
        | inr (p, e) ↦ elim (Option-cases (read_segments codec update files)) [
          | inl n ↦ ground arith
          | inr (q, i) ↦
              let r = read_segments-last files file q new i k in
              rw (e, read_segments) (rw r (ground (arith, append_assoc p q new)))
        ]
      ]

  pub read_all-Keeps : (w : Wal) (l : List (List ℕ)) → Keeps w l → read_all codec update w ≡ ok l
  unfolding read_all
  read_all-Keeps w l v =
      rw
        (
          read_segments-last w.closed_segments (current_file w) v.old v.new v.closed_read
              (read_segment-Current w v.new v.current),
          read_all,
        )
        (rw v.is_open (ap (λ x. ok x) v.all))
