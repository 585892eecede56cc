-- ===== src/Wal/Segment/Rotation.antt =====
-- New segments of pkg/wal/wal.go: a rotation keeps the payloads that the log holds.
use indexed_watch.Prelude.{
  ℕ, ◌+◌, ◌≤◌, ◌≡◌, refl, ap, sym, subst, ◌∙◌, false, ◌&&◌, none, some, List, [], ◌∷◌, ◌++◌,
  append-nil, arith, length, ltb, leb, Bool-cases, Option-cases, inl, inr,
}
use indexed_watch.Wal.Frame.{Record, crc_type, RecordCodec, frame, Encoder, new_encoder, encode}
use indexed_watch.Wal.Frame.RoundTrip.{nothing, next, Starts, frame_size}
use indexed_watch.Wal.Segment.{
  Wal, encode_failed, Result, ok, err, current_file, data_payloads, create_segment, read_segments,
  rotate, rotate_if_full,
}
use indexed_watch.Wal.Segment.Stored.{Keeps, read_segment-Current, read_segments-last}

module _ (codec : RecordCodec) (update : ℕ → List ℕ → ℕ) where
  -- The wire form of a record takes at most 32 bytes besides the payload.
  abbrev pub IsCompact : Type 0
  IsCompact =
      (r : Record) (d : List ℕ) → codec.marshal r ≡ some d → length d ≤ length r.payload + 32

  pub encode-some :
      (r : Record) (e : Encoder) (d : List ℕ)
      → codec.marshal (record r { crc = update e.crc r.payload }) ≡ some d
      → encode codec update r e ≡ (
        some e.offset,
        record {
          crc = update e.crc r.payload;
          offset = e.offset + frame_size d;
          written = e.written ++ frame d;
        },
      )
  unfolding encode
  encode-some r e d h = rw (h, encode) refl

  create_segment-none :
      (seq c : ℕ) (w : Wal)
      → codec.marshal (record { type = crc_type; crc = update c []; payload = [] }) ≡ none
      → create_segment codec update seq c w ≡ err encode_failed
  unfolding create_segment encode new_encoder
  create_segment-none seq c w h = rw (h, create_segment) refl

  create_segment-some :
      (seq c : ℕ) (w : Wal) (d : List ℕ)
      → codec.marshal (record { type = crc_type; crc = update c []; payload = [] }) ≡ some d
      → create_segment codec update seq c w
        ≡ ok (record w {
          base = [];
          encoder = record { crc = update c []; offset = 0 + frame_size d; written = frame d };
          file_size = w.prealloc_size;
          seq = seq;
          offset = 0 + frame_size d;
        })
  unfolding create_segment new_encoder
  create_segment-some seq c w d h =
      let e =
        encode-some (record { type = crc_type; crc = c; payload = [] })
          (record { crc = c; offset = 0; written = [] }) d h in
      rw (ap (λ p. p.0) e, create_segment)
        (ap
          (λ p. ok (record w {
            base = [];
            encoder = p.1;
            file_size = w.prealloc_size;
            seq = seq;
            offset = p.1.offset;
          }))
          e)

  pub create_segment-Keeps :
      (seq c : ℕ) (w w' : Wal) (l : List (List ℕ))
      → IsCompact
      → w.closed ≡ false
      → read_segments codec update w.closed_segments ≡ some l
      → create_segment codec update seq c w ≡ ok w'
      → Keeps codec update w' l
  create_segment-Keeps seq c w w' l small o h k = elim (Option-cases (codec.marshal head)) [
    | inl n ↦ absurd (never (create_segment-none seq c w n) k)
    | inr (d, m) ↦
        subst (λ (x : Wal). Keeps codec update x l) (same (create_segment-some seq c w d m) k)
          (record {
            is_open = o;
            old = l;
            new = [];
            closed_read = h;
            current = record {
              first = begun;
              last = (encode codec update head begun).1;
              records = head ∷ [];
              encoded = next head d refl m (omega arith) (omega (arith, small head d m)) nothing;
              fresh = refl;
              starts = unfold Starts in inl refl;
              bytes = sym (ap (λ p. p.1.written) (encode-some head begun d m));
              crc = sym (ap (λ p. p.1.crc) (encode-some head begun d m));
              payloads = unfold data_payloads in refl;
            };
            all = append-nil l;
          })
  ]
    where
      begun : Encoder
      begun = record { crc = c; offset = 0; written = [] }

      head : Record
      head = record { type = crc_type; crc = update c []; payload = [] }

      never : {r : Result Wal} → r ≡ err encode_failed → r ≡ ok w' → ⊥
      never p q = cc

      same : {r : Result Wal} {x : Wal} → r ≡ ok x → r ≡ ok w' → x ≡ w'
      same p q = ground arith

  pub rotate_if_full-Keeps :
      (w w' : Wal) (l : List (List ℕ))
      → IsCompact
      → Keeps codec update w l
      → rotate_if_full codec update w ≡ ok w'
      → Keeps codec update w' l
  unfolding rotate_if_full rotate
  rotate_if_full-Keeps w w' l small v h =
      elim (Bool-cases (ltb 0 w.segment_size && leb w.segment_size w.offset)) [
        | inl full ↦
            create_segment-Keeps (w.seq + 1) w.encoder.crc
              (record w { closed_segments = w.closed_segments ++ current_file w ∷ [] }) w' l small
              v.is_open
              (read_segments-last codec update w.closed_segments (current_file w) v.old v.new
                  v.closed_read (read_segment-Current codec update w v.new v.current)
                ∙ ap (λ x. some x) v.all)
              (ground arith)
        | inr free ↦ subst (λ (x : Wal). Keeps codec update x l) (ground arith) v
      ]
