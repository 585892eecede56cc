-- ===== src/Wal/Segment/Appends.antt =====
-- Calls of `Append` of pkg/wal/wal.go, rotations included, and the payloads that the segments hold.
use indexed_watch.Prelude.{
  ℕ, ◌+◌, ◌≤◌, ◌≡◌, refl, ap, sym, subst, ◌∙◌, false, none, some, List, [], ◌∷◌, ◌++◌, append_assoc,
  arith, length, Option-cases, inl, inr, ◌⊎◌,
}
use indexed_watch.Wal.Frame.{Record, data_type, RecordCodec, max_record_size, frame, encode}
use indexed_watch.Wal.Frame.RoundTrip.{frame_size}
use indexed_watch.Wal.Segment.{
  Wal, Error, encode_failed, Result, ok, err, create_segment, read_segments, read_all,
  rotate_if_full, append_record, append,
}
use indexed_watch.Wal.Segment.Stored.{
  data_payloads-last, Encodes-last, Starts-last, Current, Keeps, read_all-Keeps,
}
use indexed_watch.Wal.Segment.Rotation.{
  IsCompact, encode-some, create_segment-Keeps, rotate_if_full-Keeps,
}

Result-cases {ℓ} :
    {A : Type ℓ} (r : Result A) → ((a : A) × (r ≡ ok a)) ⊎ ((e : Error) × (r ≡ err e))
Result-cases (ok a) = inl (a, refl)
Result-cases (err e) = inr (e, refl)

module _ (codec : RecordCodec) (update : ℕ → List ℕ → ℕ) where
  append_record-none :
      (p : List ℕ) (w : Wal)
      → codec.marshal (record { type = data_type; crc = update w.encoder.crc p; payload = p })
        ≡ none
      → (append_record codec update p w).0 ≡ err encode_failed
  unfolding append_record encode
  append_record-none p w h = rw (h, append_record) refl

  append_record-some :
      (p : List ℕ) (w : Wal) (d : List ℕ) (off : ℕ)
      → codec.marshal (record { type = data_type; crc = update w.encoder.crc p; payload = p })
        ≡ some d
      → (append_record codec update p w).0 ≡ ok off
      → (n : ℕ) × ((append_record codec update p w).1 ≡ record w {
        encoder = record {
          crc = update w.encoder.crc p;
          offset = w.encoder.offset + frame_size d;
          written = w.encoder.written ++ frame d;
        };
        offset = n;
      })
  unfolding append_record
  append_record-some p w d off h k =
      let e =
        encode-some codec update (record { type = data_type; crc = 0; payload = p }) w.encoder d
          h in
      (w.encoder.offset + frame_size d, ground (arith, e))

  append_record-Keeps :
      (p : List ℕ) (w : Wal) (l : List (List ℕ)) (off : ℕ)
      → IsCompact codec update
      → length p + 32 ≤ max_record_size
      → Keeps codec update w l
      → (append_record codec update p w).0 ≡ ok off
      → Keeps codec update (append_record codec update p w).1 (l ++ p ∷ [])
  append_record-Keeps p w l off small fits v k = elim (Option-cases (codec.marshal r)) [
    | inl n ↦ absurd (never (append_record-none p w n) k)
    | inr (d, m) ↦
        let (n, q) = append_record-some p w d off m k in
        subst (λ (x : Wal). Keeps codec update x (l ++ p ∷ [])) (sym q)
          (record {
            is_open = v.is_open;
            old = v.old;
            new = v.new ++ p ∷ [];
            closed_read = v.closed_read;
            current = grown n d m;
            all = sym (append_assoc v.old v.new (p ∷ [])) ∙ ap (λ x. x ++ p ∷ []) v.all;
          })
  ]
    where
      r : Record
      r = record { type = data_type; crc = update w.encoder.crc p; payload = p }

      never : {o : Result ℕ} → o ≡ err encode_failed → o ≡ ok off → ⊥
      never a b = cc

      moved : ℕ → List ℕ → Wal
      moved n d = record w {
        encoder = record {
          crc = update w.encoder.crc p;
          offset = w.encoder.offset + frame_size d;
          written = w.encoder.written ++ frame d;
        };
        offset = n;
      }

      grown :
          (n : ℕ) (d : List ℕ)
          → codec.marshal r ≡ some d
          → Current codec update (moved n d) (v.new ++ p ∷ [])
      grown n d m =
          let c = v.current in
          let same : update w.encoder.crc p ≡ update c.last.crc p = ap (λ x. update x p) c.crc in
          let step = encode-some codec update r c.last d (
            ap (λ x. codec.marshal (record { type = data_type; crc = x; payload = p })) (sym same)
            ∙ m) in
          record {
            first = c.first;
            last = (encode codec update r c.last).1;
            records = c.records ++ r ∷ [];
            encoded =
                Encodes-last codec update r d c.encoded same m (omega arith)
                  (omega (arith, small r d m));
            fresh = c.fresh;
            starts = Starts-last codec update c.records r 0 c.first c.starts;
            bytes =
                sym (append_assoc w.base w.encoder.written (frame d))
                ∙ ap (λ x. x ++ frame d) c.bytes
                ∙ sym (ap (λ x. x.1.written) step);
            crc = same ∙ sym (ap (λ x. x.1.crc) step);
            payloads = data_payloads-last c.records r refl ∙ ap (λ x. x ++ p ∷ []) c.payloads;
          }

  pub append-Keeps :
      (p : List ℕ) (w : Wal) (l : List (List ℕ)) (off : ℕ)
      → IsCompact codec update
      → length p + 32 ≤ max_record_size
      → Keeps codec update w l
      → (append codec update p w).0 ≡ ok off
      → Keeps codec update (append codec update p w).1 (l ++ p ∷ [])
  unfolding append
  append-Keeps p w l off small fits v k = elim (Result-cases (rotate_if_full codec update w)) [
    | inl (w', e) ↦
        subst (λ (x : Wal). Keeps codec update x (l ++ p ∷ [])) (ground (arith, e, v.is_open))
          (append_record-Keeps p w' l off small fits
            (rotate_if_full-Keeps codec update w w' l small v e) (ground (arith, e, v.is_open)))
    | inr (x, e) ↦ absurd (ground (arith, e, v.is_open))
  ]

  -- Successful calls of `Append` in order, with their payloads.
  pub data Appends (w : Wal) : List (List ℕ) → Wal → Type 0 where
    none_yet : Appends w [] w
    one_more :
        {q : Wal} {ps : List (List ℕ)} (p : List ℕ) (off : ℕ)
        → Appends w ps q
        → length p + 32 ≤ max_record_size
        → (append codec update p q).0 ≡ ok off
        → Appends w (ps ++ p ∷ []) (append codec update p q).1

  Appends-Keeps :
      {w q : Wal} {ps : List (List ℕ)}
      → IsCompact codec update
      → Keeps codec update w []
      → Appends w ps q
      → Keeps codec update q ps
  Appends-Keeps small v none_yet = v
  Appends-Keeps small v (one_more {q} {ps} p off h f k) =
      append-Keeps p q ps off small f (Appends-Keeps small v h) k

  -- On a new log, open and with no segment but the first one that `createSegment` made, what
  -- successful calls of `Append` were given is what `ReadAll` returns, in order and across all
  -- rotations. The payloads have at most 64 MiB less 32 bytes, and the wire form of a record takes
  -- at most 32 bytes besides the payload.
  pub read_all-Appends :
      (seq c : ℕ) (w w₀ q : Wal) (ps : List (List ℕ))
      → IsCompact codec update
      → w.closed ≡ false
      → w.closed_segments ≡ []
      → create_segment codec update seq c w ≡ ok w₀
      → Appends w₀ ps q
      → read_all codec update q ≡ ok ps
  read_all-Appends seq c w w₀ q ps small o n k h = read_all-Keeps codec update q ps (
      Appends-Keeps small
        (create_segment-Keeps codec update seq c w w₀ [] small o
          (ap (λ x. read_segments codec update x) n ∙ unfold read_segments in refl) k)
        h)
