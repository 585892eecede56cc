-- ===== src/Sstable/Writer/Separators.antt =====
-- The separators of pkg/lsm/sstable/writer.go are not longer than the keys they stand for.
use indexed_watch.Prelude.{
  ℕ, ◌+◌, ◌≤◌, ◌≡◌, List, [], ◌∷◌, some, arith, length, take, length-append, length-take, get_or,
  inl, inr, Option-cases,
}
use indexed_watch.Sstable.Separator.{
  common_prefix, short_separator, successor_from, short_successor,
}
use indexed_watch.Sstable.Block.SharedPrefix.{common_prefix-le}

pub length-short_separator : (a b : List ℕ) → length (short_separator a b) ≤ length a
unfolding short_separator
length-short_separator a b =
    let n = common_prefix a b in
    ground (
      arith,
      common_prefix-le a b,
      length-append (take n a) ((get_or a n 0 + 1) ∷ []),
      length-take n a,
    )

length-successor_from : (a s : List ℕ) → successor_from a ≡ some s → length s ≤ length a
unfolding successor_from
length-successor_from [] s e = cc
length-successor_from (x ∷ a) s e = elim (Option-cases (successor_from a)) [
  | inl n ↦ ground (arith, n, e)
  | inr (t, q) ↦ ground (arith, q, e, length-successor_from a t q)
]

pub length-short_successor : (a : List ℕ) → length (short_successor a) ≤ length a
unfolding short_successor
length-short_successor a = elim (Option-cases (successor_from a)) [
  | inl n ↦ rw (n, short_successor) (omega arith)
  | inr (s, e) ↦ rw (e, short_successor) (length-successor_from a s e)
]
