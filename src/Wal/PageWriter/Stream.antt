-- ===== src/Wal/PageWriter/Stream.antt =====
-- The bytes of a page writer of pkg/wal/pagewriter.go, accepted and pending, and what buffering and flushing do to them.
use native.Mathlib.Nat.{mod-eq_of_lt}
use indexed_watch.Prelude.{
  ℕ, ◌+◌, ◌%◌, ◌≤◌, ◌<◌, ◌≡◌, refl, ap, sym, ◌∙◌, Bool, true, false, List, ◌++◌, append_assoc,
  append-nil, length, length-append, length-replicate, take, replicate, ◌==◌, if◌then◌else◌, arith,
  Bool-cases, inl, inr,
}
use indexed_watch.Wal.PageWriter.{
  Writer, PageWriter, new_page_writer, flush, buffer, default_page_bytes, default_buffer_bytes,
}
use indexed_watch.Wal.PageWriter.Room.{take-copy_at, length-copy_at, Fit}

module _ (writer : Writer) where
  abbrev pub IsFitting : PageWriter writer → Type 0
  IsFitting pw =
      Fit pw.page_offset pw.page_bytes pw.buffered_bytes pw.buf_watermark_bytes (length pw.buf)

  -- What the underlying writer has accepted, and then what is pending.
  abbrev pub stream : PageWriter writer → List ℕ
  stream pw = writer.contents pw.w ++ take pw.buffered_bytes pw.buf

  pub new_page_writer-IsFitting :
      (w : writer.State) (page_bytes page_offset buffer_size : ℕ)
      → IsFitting (new_page_writer writer w page_bytes page_offset buffer_size)
  unfolding new_page_writer
  new_page_writer-IsFitting w page_bytes page_offset buffer_size =
      sized (if page_bytes == 0 then default_page_bytes else page_bytes)
        (if buffer_size == 0 then default_buffer_bytes else buffer_size) (ground arith)
    where
      sized :
          (m size : ℕ) → 0 < m → Fit page_offset m 0 size (length {A = ℕ} (replicate (size + m) 0))
      sized m size h = (h, length-replicate (size + m) 0, omega arith, λ _. omega arith)

  -- The result of writing `p` after `n` bytes had been taken.
  abbrev pub Accepts : ℕ → List ℕ → PageWriter writer → ℕ × Bool × PageWriter writer → Type 0
  Accepts n p pw r =
      IsFitting r.2 × (r.1 ≡ true → (r.0 ≡ n + length p) × (stream r.2 ≡ stream pw ++ p))

  pub stream-buffer :
      (p : List ℕ) (pw : PageWriter writer)
      → pw.buffered_bytes + length p ≤ length pw.buf
      → stream (buffer writer p pw) ≡ stream pw ++ p
  unfolding buffer
  stream-buffer p pw h =
      rw (take-copy_at pw.buffered_bytes p pw.buf h)
        (sym (append_assoc (writer.contents pw.w) (take pw.buffered_bytes pw.buf) p))

  pub buffer-Accepts :
      (p : List ℕ) (pw : PageWriter writer)
      → pw.buffered_bytes + length p ≤ length pw.buf
      → Fit pw.page_offset pw.page_bytes
          (pw.buffered_bytes + length p)
          pw.buf_watermark_bytes
          (length pw.buf)
      → (n : ℕ) → Accepts n p pw (n + length p, true, buffer writer p pw)
  unfolding buffer
  buffer-Accepts p pw h v n = (fitting, λ _. (refl, stream-buffer p pw h))
    where
      fitting : IsFitting (buffer writer p pw)
      fitting = rw (length-copy_at pw.buffered_bytes p pw.buf h) v

  -- After a flush nothing is pending, whether it failed or not.
  pub flush-empties : (pw : PageWriter writer) → (flush writer pw).1.buffered_bytes ≡ 0
  unfolding flush
  flush-empties pw = ground arith

  pub flush-IsFitting : (pw : PageWriter writer) → IsFitting pw → IsFitting (flush writer pw).1
  unfolding flush
  flush-IsFitting pw v = elim (Bool-cases (pw.buffered_bytes == 0)) [
    | inl e ↦ rw e v
    | inr e ↦ rw e (v.0, v.1, omega arith, λ _. omega arith)
  ]

  pub flush-aligned :
      (pw : PageWriter writer)
      → 0 < pw.page_bytes
      → (pw.page_offset + pw.buffered_bytes) % pw.page_bytes ≡ 0
      → (flush writer pw).1.page_offset % (flush writer pw).1.page_bytes ≡ 0
  unfolding flush
  flush-aligned pw pos h = elim (Bool-cases (pw.buffered_bytes == 0)) [
    | inl e ↦ rw e (ap (λ y. y % pw.page_bytes) (plus_zero pw.page_offset pw.buffered_bytes e) ∙ h)
    | inr e ↦ rw e (ap (λ y. y % pw.page_bytes) h ∙ mod-eq_of_lt pos)
  ]
    where
      plus_zero : (x b : ℕ) → (b == 0) ≡ true → x ≡ x + b
      plus_zero x b e = ground arith

  pub stream-flush :
      (pw : PageWriter writer) → (flush writer pw).0 ≡ true → stream (flush writer pw).1 ≡ stream pw
  unfolding flush
  stream-flush pw h = elim (Bool-cases (pw.buffered_bytes == 0)) [
    | inl e ↦ rw e refl
    | inr e ↦
        rw e
          (append-nil _ ∙ writer.contents-write (take pw.buffered_bytes pw.buf) pw.w (succeeded e))
  ]
    where
      succeeded :
          (pw.buffered_bytes == 0) ≡ false
          → (writer.write (take pw.buffered_bytes pw.buf) pw.w).1 ≡ true
      succeeded e = ground arith

  pub Accepts-after :
      (n : ℕ) (p q : List ℕ) (pw pw' : PageWriter writer) (r : ℕ × Bool × PageWriter writer)
      → stream pw' ≡ stream pw ++ p
      → Accepts (n + length p) q pw' r
      → Accepts n (p ++ q) pw r
  Accepts-after n p q pw pw' r h a = (
    a.0,
    λ e. (
      (a.1 e).0 ∙ simp length-append (omega arith),
      (a.1 e).1 ∙ ap (λ l. l ++ q) h ∙ append_assoc (stream pw) p q,
    ),
  )
