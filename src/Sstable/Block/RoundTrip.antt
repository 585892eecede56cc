-- ===== src/Sstable/Block/RoundTrip.antt =====
-- Reading a block of pkg/lsm/sstable/block.go back.
use indexed_watch.Prelude.{
  ℕ, zero, suc, ◌<◌, ◌≡◌, refl, true, false, Option, none, some, List, [], ◌∷◌, arith, length,
  u32_mod, All,
}
use indexed_watch.Sstable.Block.{
  new_block_writer, finish, BlockIterator, new_block_iterator, next, first,
}
use indexed_watch.Sstable.Block.Runs.{Entry, add_all, Fits, Runs, Runs-finish}

-- for it.next() { ... it.key, it.val ... }, with fuel; `none` is a panic or no fuel left.
pub scan : ℕ → BlockIterator → Option (List Entry)
scan zero it = none
scan (suc fuel) it = elim (next it) [
  | none ↦ none
  | some (found, it') ↦ elim found [
    | false ↦ some []
    | true ↦ elim (scan fuel it') [ none ↦ none | some es ↦ some ((it'.key, it'.val) ∷ es) ]
  ]
]

-- The scan from `First` on.
pub read_block : ℕ → List ℕ → Option (List Entry)
unfolding scan
read_block fuel block = scan fuel (record (new_block_iterator block) { offset = 0; key = [] })

scan-Runs :
    (fuel : ℕ) (es : List Entry) (it : BlockIterator)
    → Runs es (next it)
    → length es < fuel
    → scan fuel it ≡ some es
unfolding scan
scan-Runs zero es it r lt = absurd (omega arith)
scan-Runs (suc fuel) [] it (it', e, _) lt = rw (e, scan) refl
scan-Runs (suc fuel) ((k, v) ∷ es) it (it', e, _, ek, ev, r) lt =
    rw (e, scan) (rw (scan-Runs fuel es it' r (omega arith)) (rw (ek, ev) refl))

-- A block that was built by calls of `add` and finished reads back, from its first entry to its
-- end, as the entries in the order of the calls. The restart interval is not 0, keys and values are shorter than 2 ^ 64, there
-- are fewer than 2 ^ 32 restart points, and the fuel exceeds the number of entries.
pub read_block-finish :
    (interval fuel : ℕ) (es : List Entry)
    → 0 < interval
    → All Fits es
    → length (add_all es (new_block_writer interval)).restarts < u32_mod
    → length es < fuel
    → read_block fuel (finish (add_all es (new_block_writer interval))) ≡ some es
unfolding read_block
read_block-finish interval fuel es positive f h lt =
    scan-Runs fuel es _ (unfold first in Runs-finish interval es f h) lt
