-- ===== src/Wal/PageWriter/Pending.antt =====
-- What `Write` of pkg/wal/pagewriter.go does with the bytes and with the room in the buffer.
use native.Mathlib.Nat.{mod-lt, div-add-mod'}
use indexed_watch.Prelude.{
  ℕ, ◌+◌, ◌-◌, ◌*◌, ◌/◌, ◌%◌, ◌≤◌, ◌<◌, ◌≡◌, refl, ap, sym, ◌∙◌, subst, Bool, true, false, List, [],
  ◌∷◌, ◌++◌, append-nil, length, length-take, length-drop, take-append-drop, take, drop, ltb, leb,
  ◌==◌, arith, Bool-cases, inl, inr,
}
use indexed_watch.Wal.PageWriter.{
  Writer, PageWriter, flush, buffer, write_tail, write_pages, write_flushed, write,
}
use indexed_watch.Wal.PageWriter.Room.{
  length-copy_at, Fit, page_end, Fit-small, Fit-partial, Fit-tail,
}
use indexed_watch.Wal.PageWriter.Stream.{
  IsFitting, stream, Accepts, stream-buffer, buffer-Accepts, flush-empties, flush-IsFitting,
  flush-aligned, stream-flush, Accepts-after,
}

module _ (writer : Writer) where
  write_tail-Accepts :
      (n : ℕ) (p : List ℕ) (pw : PageWriter writer)
      → pw.buffered_bytes ≡ 0
      → pw.page_offset % pw.page_bytes ≡ 0
      → length p ≤ pw.page_bytes
      → IsFitting writer pw
      → Accepts writer n p pw (write_tail writer n p pw)
  unfolding write_tail
  write_tail-Accepts n p pw b z l v = elim (Bool-cases (ltb 0 (length p))) [
    | inl e ↦ rw e (
        buffer-Accepts writer p pw (omega arith)
          (rw (empty_sum b) (
            Fit-tail pw.page_offset pw.page_bytes (length p) pw.buf_watermark_bytes (length pw.buf)
              v.0 v.1 z l))
          n)
    | inr e ↦
        let none_left : length p ≡ 0 = ground arith in
        rw e (v, λ _. (omega arith, empty p none_left))
  ]
    where
      empty_sum : pw.buffered_bytes ≡ 0 → pw.buffered_bytes + length p ≡ length p
      empty_sum b = omega arith

      empty : (q : List ℕ) → length q ≡ 0 → stream writer pw ≡ stream writer pw ++ q
      empty [] h = sym (append-nil (stream writer pw))
      empty (x ∷ q) h = absurd (omega arith)

  -- A failed direct write leaves the buffer as it is.
  write_pages-Accepts :
      (n : ℕ) (p : List ℕ) (pw : PageWriter writer)
      → pw.buffered_bytes ≡ 0
      → pw.page_offset % pw.page_bytes ≡ 0
      → IsFitting writer pw
      → Accepts writer n p pw (write_pages writer n p pw)
  unfolding write_pages
  write_pages-Accepts n p pw b z v = elim (Bool-cases (ltb pw.page_bytes (length p))) [
    | inr e ↦ rw e (write_tail-Accepts n p pw b z (ground arith) v)
    | inl e ↦ elim (Bool-cases (writer.write (take whole p) pw.w).1) [
      | inr bad ↦ rw (e, bad) (v, λ h. absurd (false_true h))
      | inl good ↦
          rw (e, good)
            (subst
              (λ q. Accepts writer n q pw (
                write_tail writer (n + (writer.write (take whole p) pw.w).0) (drop whole p)
                  (record pw { w = (writer.write (take whole p) pw.w).2 })))
              (take-append-drop whole p)
              (Accepts-after writer n (take whole p) (drop whole p) pw
                (record pw { w = (writer.write (take whole p) pw.w).2 }) _ (sent good)
                (subst
                  (λ k.
                    Accepts writer k (drop whole p)
                      (record pw { w = (writer.write (take whole p) pw.w).2 })
                      (write_tail writer (n + (writer.write (take whole p) pw.w).0) (drop whole p)
                        (record pw { w = (writer.write (take whole p) pw.w).2 })))
                  (ap (λ k. n + k) (writer.write_all (take whole p) pw.w good))
                  (write_tail-Accepts _ (drop whole p)
                    (record pw { w = (writer.write (take whole p) pw.w).2 }) b z (short_tail v.0)
                    v))))
    ]
  ]
    where
      whole : ℕ
      whole = length p / pw.page_bytes * pw.page_bytes

      false_true : false ≡ true → ⊥
      false_true h = cc

      sent :
          (writer.write (take whole p) pw.w).1 ≡ true
          → stream writer (record pw { w = (writer.write (take whole p) pw.w).2 })
            ≡ stream writer pw ++ take whole p
      sent good = rw b (
          append-nil _
          ∙ writer.contents-write (take whole p) pw.w good
          ∙ ap (λ c. c ++ take whole p) (sym (append-nil _)))

      short_tail : 0 < pw.page_bytes → length (drop whole p) ≤ pw.page_bytes
      short_tail h =
          omega
            (arith, length-drop whole p, div-add-mod' (length p) pw.page_bytes, mod-lt (length p) h)

  write_flushed-Accepts :
      (n : ℕ) (p : List ℕ) (pw : PageWriter writer)
      → (pw.page_offset + pw.buffered_bytes) % pw.page_bytes ≡ 0
      → IsFitting writer pw
      → Accepts writer n p pw (write_flushed writer n p pw)
  unfolding write_flushed
  write_flushed-Accepts n p pw z v = elim (Bool-cases (flush writer pw).0) [
    | inr bad ↦ rw bad (flush-IsFitting writer pw v, λ h. absurd (false_true h))
    | inl good ↦ rw good (
        subst (λ l. Written l (write_pages writer n p (flush writer pw).1))
          (stream-flush writer pw good)
          (write_pages-Accepts n p (flush writer pw).1 (flush-empties writer pw)
            (flush-aligned writer pw v.0 z) (flush-IsFitting writer pw v)))
  ]
    where
      false_true : false ≡ true → ⊥
      false_true h = cc

      Written : List ℕ → ℕ × Bool × PageWriter writer → Type 0
      Written l r =
          IsFitting writer r.2 × (r.1 ≡ true → (r.0 ≡ n + length p) × (stream writer r.2 ≡ l ++ p))

  buffered-Accepts :
      (p : List ℕ) (pw : PageWriter writer)
      → pw.buffered_bytes + length p ≤ length pw.buf
      → Fit pw.page_offset pw.page_bytes
          (pw.buffered_bytes + length p)
          pw.buf_watermark_bytes
          (length pw.buf)
      → Accepts writer 0 p pw (length p, true, buffer writer p pw)
  buffered-Accepts p pw h v =
      let same : 0 + length p ≡ length p = omega arith in
      subst (λ k. Accepts writer 0 p pw (k, true, buffer writer p pw)) same
        (buffer-Accepts writer p pw h v 0)

  -- Filling up the page, then the rest.
  completed-Accepts :
      (slack : ℕ) (p : List ℕ) (pw : PageWriter writer)
      → slack ≤ length p
      → 0 < slack
      → slack ≡ pw.page_bytes - (pw.page_offset + pw.buffered_bytes) % pw.page_bytes
      → 0 < (pw.page_offset + pw.buffered_bytes) % pw.page_bytes
      → IsFitting writer pw
      → Accepts writer 0 p pw
          (write_flushed writer slack (drop slack p) (buffer writer (take slack p) pw))
  unfolding buffer
  completed-Accepts slack p pw le pos e off v =
      let size : length (take slack p) ≡ slack = omega (arith, length-take slack p) in
      let room = v.3 off in
      let fits : pw.buffered_bytes + length (take slack p) ≤ length pw.buf = omega arith in
      let aligned : (pw.page_offset + (pw.buffered_bytes + length (take slack p))) % pw.page_bytes
          ≡ 0 =
        ap (λ y. y % pw.page_bytes) (omega arith)
        ∙ page_end (pw.page_offset + pw.buffered_bytes) pw.page_bytes v.0 in
      subst
        (λ q.
          Accepts writer 0 q pw
            (write_flushed writer slack (drop slack p) (buffer writer (take slack p) pw)))
        (take-append-drop slack p)
        (Accepts-after writer 0 (take slack p) (drop slack p) pw (buffer writer (take slack p) pw) _
          (stream-buffer writer (take slack p) pw fits)
          (subst
            (λ k.
              Accepts writer k (drop slack p) (buffer writer (take slack p) pw)
                (write_flushed writer slack (drop slack p) (buffer writer (take slack p) pw)))
            (sum slack (length (take slack p)) size)
            (write_flushed-Accepts slack (drop slack p) (buffer writer (take slack p) pw) aligned (
              rw (length-copy_at pw.buffered_bytes (take slack p) pw.buf fits)
                (v.0, v.1, omega arith, λ q. absurd (omega arith))))))
    where
      sum : (a b : ℕ) → b ≡ a → a ≡ 0 + b
      sum a b h = omega arith

  write-Accepts :
      (p : List ℕ) (pw : PageWriter writer)
      → IsFitting writer pw
      → Accepts writer 0 p pw (write writer p pw)
  unfolding write
  write-Accepts p pw v =
      elim (Bool-cases (leb (length p + pw.buffered_bytes) pw.buf_watermark_bytes)) [
        | inl e ↦ rw e (
            buffered-Accepts p pw (ground arith) (
              Fit-small pw.page_offset pw.page_bytes pw.buffered_bytes (length p)
                pw.buf_watermark_bytes (length pw.buf) v (ground arith)))
        | inr e ↦
            elim (Bool-cases (
              pw.page_bytes - (pw.page_offset + pw.buffered_bytes) % pw.page_bytes
              == pw.page_bytes)) [
                | inl full ↦ rw (e, full) (write_flushed-Accepts 0 p pw (on_boundary full) v)
                | inr part ↦
                    elim (Bool-cases (
                      ltb (length p)
                        (pw.page_bytes - (pw.page_offset + pw.buffered_bytes) % pw.page_bytes))) [
                          | inl short ↦
                              rw (e, part, short) (partial (off_boundary part) (ground arith))
                          | inr long ↦
                              rw (e, part, long)
                                (completed-Accepts _ p pw (ground arith) (ground (arith, remainder))
                                  refl (off_boundary part) v)
                        ]
              ]
      ]
    where
      remainder : (pw.page_offset + pw.buffered_bytes) % pw.page_bytes < pw.page_bytes
      remainder = mod-lt (pw.page_offset + pw.buffered_bytes) v.0

      on_boundary :
          (pw.page_bytes - (pw.page_offset + pw.buffered_bytes) % pw.page_bytes == pw.page_bytes)
            ≡ true
          → (pw.page_offset + pw.buffered_bytes) % pw.page_bytes ≡ 0
      on_boundary h = ground (arith, remainder)

      off_boundary :
          (pw.page_bytes - (pw.page_offset + pw.buffered_bytes) % pw.page_bytes == pw.page_bytes)
            ≡ false
          → 0 < (pw.page_offset + pw.buffered_bytes) % pw.page_bytes
      off_boundary h = ground (arith, remainder)

      partial :
          0 < (pw.page_offset + pw.buffered_bytes) % pw.page_bytes
          → length p < pw.page_bytes - (pw.page_offset + pw.buffered_bytes) % pw.page_bytes
          → Accepts writer 0 p pw (length p, true, buffer writer p pw)
      partial off lt =
          let room = v.3 off in
          buffered-Accepts p pw (omega arith) (
            Fit-partial pw.page_offset pw.page_bytes pw.buffered_bytes (length p)
              pw.buf_watermark_bytes (length pw.buf) v off lt)

  -- Whatever the underlying writer does, writing keeps the pending bytes within the buffer, with
  -- room for the rest of the page that they end in.
  pub write-IsFitting :
      (p : List ℕ) (pw : PageWriter writer)
      → IsFitting writer pw
      → IsFitting writer (write writer p pw).2
  write-IsFitting p pw v = (write-Accepts p pw v).0

  -- A write that reports no error has taken all bytes: they stand behind what the underlying
  -- writer had accepted and what was pending.
  pub stream-write :
      (p : List ℕ) (pw : PageWriter writer)
      → IsFitting writer pw
      → (write writer p pw).1 ≡ true
      → ((write writer p pw).0 ≡ length p)
        × (stream writer (write writer p pw).2 ≡ stream writer pw ++ p)
  stream-write p pw v h = let taken = (write-Accepts p pw v).1 h in (omega arith, taken.1)
