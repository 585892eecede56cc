-- ===== src/Wal/PageWriter/Runs.antt =====
-- Calls of `Write` one after another and a `Flush` at the end, as pkg/wal/encoder.go makes them.
use indexed_watch.Prelude.{
  ℕ, ◌≡◌, ap, sym, ◌∙◌, Bool, true, false, List, [], ◌∷◌, ◌++◌, append_assoc, append-nil, take,
  arith, if◌then◌else◌, Bool-cases, inl, inr,
}
use indexed_watch.Wal.PageWriter.{Writer, PageWriter, flush, write}
use indexed_watch.Wal.PageWriter.Stream.{IsFitting, stream, flush-empties, stream-flush}
use indexed_watch.Wal.PageWriter.Pending.{write-IsFitting, stream-write}

unfoldable pub joined : List (List ℕ) → List ℕ
joined [] = []
joined (p ∷ ps) = p ++ joined ps

module _ (writer : Writer) where
  -- The calls up to the first error; whether there was none.
  unfoldable pub write_each : List (List ℕ) → PageWriter writer → Bool × PageWriter writer
  write_each [] pw = (true, pw)
  write_each (p ∷ ps) pw =
      let rest = write_each ps (write writer p pw).2 in
      if (write writer p pw).1 then rest else (false, (write writer p pw).2)

  stream-write_each :
      (ps : List (List ℕ)) (pw : PageWriter writer)
      → IsFitting writer pw
      → (write_each ps pw).0 ≡ true
      → stream writer (write_each ps pw).1 ≡ stream writer pw ++ joined ps
  unfolding write_each joined
  stream-write_each [] pw v h = sym (append-nil (stream writer pw))
  stream-write_each (p ∷ ps) pw v h = elim (Bool-cases (write writer p pw).1) [
    | inl e ↦ rw e (
        stream-write_each ps (write writer p pw).2 (write-IsFitting writer p pw v) (ground arith)
        ∙ ap (λ s. s ++ joined ps) (stream-write writer p pw v e).1
        ∙ append_assoc (stream writer pw) p (joined ps))
    | inr e ↦ absurd (stopped e)
  ]
    where
      stopped : (write writer p pw).1 ≡ false → ⊥
      stopped e = ground arith

  -- After writes that report no error and a flush that reports none, the underlying writer has
  -- accepted what it had before, what was pending, and all bytes of the writes in order.
  pub contents-write_each :
      (ps : List (List ℕ)) (pw : PageWriter writer)
      → IsFitting writer pw
      → (write_each ps pw).0 ≡ true
      → (flush writer (write_each ps pw).1).0 ≡ true
      → writer.contents (flush writer (write_each ps pw).1).1.w ≡ stream writer pw ++ joined ps
  contents-write_each ps pw v h f =
      let after = (flush writer (write_each ps pw).1).1 in
      let none_pending : take after.buffered_bytes after.buf ≡ [] =
        ap (λ n. take n after.buf) (flush-empties writer (write_each ps pw).1) in
      sym (append-nil (writer.contents after.w))
      ∙ ap (λ l. writer.contents after.w ++ l) (sym none_pending)
      ∙ stream-flush writer (write_each ps pw).1 f
      ∙ stream-write_each ps pw v h
