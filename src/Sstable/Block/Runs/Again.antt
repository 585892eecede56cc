-- ===== src/Sstable/Block/Runs/Again.antt =====
-- An iterator of pkg/lsm/sstable/block.go stays on its block: `First` works after `SeekGE`.
use indexed_watch.Prelude.{
  ℕ, zero, suc, ◌+◌, ◌<◌, ◌≡◌, ap, sym, subst, ◌∙◌, Bool, true, false, Bool-cases, Option-cases,
  inl, inr, some, List, [], arith, length, u32_mod, All,
}
use indexed_watch.Bytes.{compare_bytes, is_neg}
use indexed_watch.Sstable.Block.{
  new_block_writer, finish, BlockIterator, new_block_iterator, read_entry, next, first, seek_scan,
  seek_ge,
}
use indexed_watch.Sstable.Block.Runs.{Entry, add_all, Fits, Runs, at_offset, new-finish, Runs-start}
use indexed_watch.Sstable.Block.Runs.Seek.{
  Ascending, seek_scan-below, seek_scan-reached, seek_ge-scan,
}

-- The parts of an iterator that no operation changes.
pub record Same (it it' : BlockIterator) : Type 0 where
  pub block : it'.block ≡ it.block
  pub restarts : it'.restarts ≡ it.restarts
  pub num_restarts : it'.num_restarts ≡ it.num_restarts

Same-trans : (a b c : BlockIterator) → Same a b → Same b c → Same a c
Same-trans a b c p q = record {
  block = q.block ∙ p.block;
  restarts = q.restarts ∙ p.restarts;
  num_restarts = q.num_restarts ∙ p.num_restarts;
}

read_entry-Same :
    (it : BlockIterator) (s u l : ℕ) (b : Bool) (it' : BlockIterator)
    → read_entry it s u l ≡ some (b, it')
    → Same it it'
unfolding read_entry
read_entry-Same it s u l b it' e = ground arith

pub next-Same :
    (it : BlockIterator) (b : Bool) (it' : BlockIterator) → next it ≡ some (b, it') → Same it it'
unfolding next
next-Same it b it' e = grind (arith, read_entry-Same)

seek_scan-Same :
    (fuel : ℕ) (target : List ℕ) (it : BlockIterator) (b : Bool) (it' : BlockIterator)
    → seek_scan fuel it target ≡ some (b, it')
    → Same it it'
seek_scan-Same zero target it b it' e = unfold seek_scan in ground arith
seek_scan-Same (suc fuel) target it b it' e = elim (Option-cases (next it)) [
  | inl n ↦ unfold seek_scan in absurd (ground (arith, n, e))
  | inr ((false, i), found) ↦
      let s = next-Same it false i found in unfold seek_scan in ground (arith, found, e, s)
  | inr ((true, i), found) ↦ elim (Bool-cases (is_neg (compare_bytes i.key target))) [
    | inl low ↦
        Same-trans it i it' (next-Same it true i found) (
          seek_scan-Same fuel target i b it' (sym (seek_scan-below fuel it i target found low) ∙ e))
    | inr high ↦
        let e' = sym (seek_scan-reached fuel it i target found high) ∙ e in
        let same : i ≡ it' = cc in subst (Same it) same (next-Same it true i found)
  ]
]

-- After a `SeekGE`, `First` and `Next` give all the entries again.
pub first-seek_ge :
    (interval : ℕ) (es : List Entry) (target : List ℕ) (b : Bool) (it : BlockIterator)
    → All Fits es
    → Ascending es
    → length (add_all es (new_block_writer interval)).buf < u32_mod
    → length (add_all es (new_block_writer interval)).restarts < u32_mod
    → 0 < length es
    → seek_ge target (new_block_iterator (finish (add_all es (new_block_writer interval))))
      ≡ some (b, it)
    → Runs es (first it) × (it.block ≡ finish (add_all es (new_block_writer interval)))
unfolding first
first-seek_ge interval es target b it fits up small few h e =
    let w = add_all es (new_block_writer interval) in
    let d = finish w in
    let r = length w.buf in
    let m = length w.restarts in
    let (o, scan, _) = seek_ge-scan interval es fits up small few target h in
    let e' : seek_ge target (at_offset d r m r [] [] false) ≡ some (b, it) =
      ap (seek_ge target) (sym (new-finish w few)) ∙ e in
    let same =
      seek_scan-Same (length d + 1) target (at_offset d r m o [] [] false) b it (sym scan ∙ e') in
    let again : record it { offset = 0; key = [] } ≡ at_offset d r m 0 [] it.val it.valid =
      let p = same.block in let q = same.restarts in let s = same.num_restarts in cc in
    (rw again (Runs-start interval es it.val it.valid fits), same.block)
