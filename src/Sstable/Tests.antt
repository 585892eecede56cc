-- ===== src/Sstable/Tests.antt =====
-- Runs of the keys and the blocks of pkg/lsm/sstable.
use indexed_watch.Prelude.{ℕ, ◌<◌, ◌≡◌, refl, some, List, [], ◌∷◌, length, arith, u32_mod, All}
use indexed_watch.Bytes.{compare_bytes}
use indexed_watch.Bytes.Order.{Lt}
use indexed_watch.Sstable.Separator.{common_prefix}
use indexed_watch.Sstable.Block.{shared_prefix, new_block_writer, add, finish}
use indexed_watch.Sstable.Block.SharedPrefix.{shared_prefix-eq}
use indexed_watch.Sstable.Block.Runs.{Entry, add_all, Fits}
use indexed_watch.Sstable.Block.RoundTrip.{read_block, read_block-finish}

shared_prefix-eq_example :
    shared_prefix (1 ∷ 2 ∷ 3 ∷ []) (1 ∷ 2 ∷ 4 ∷ [])
    ≡ common_prefix (1 ∷ 2 ∷ 3 ∷ []) (1 ∷ 2 ∷ 4 ∷ [])
shared_prefix-eq_example = shared_prefix-eq (1 ∷ 2 ∷ 3 ∷ []) (1 ∷ 2 ∷ 4 ∷ [])

abbrev two_bytes : List ℕ
two_bytes = 1 ∷ 2 ∷ []

in_order : Lt (97 ∷ 98 ∷ 99 ∷ []) (97 ∷ 103 ∷ [])
unfolding compare_bytes
in_order = refl

abbrev three_entries : List Entry
three_entries = (97 ∷ 98 ∷ [], 1 ∷ []) ∷ (97 ∷ 98 ∷ 99 ∷ [], 2 ∷ []) ∷ (98 ∷ [], []) ∷ []

few_restarts : length (add_all three_entries (new_block_writer 2)).restarts < u32_mod
unfolding add_all add
few_restarts = omega arith

all_fit : All Fits three_entries
all_fit =
    ((omega arith, omega arith), ((omega arith, omega arith), ((omega arith, omega arith), tt)))

read_block-finish_example :
    read_block 4 (finish (add_all three_entries (new_block_writer 2))) ≡ some three_entries
read_block-finish_example =
    read_block-finish 2 4 three_entries (omega arith) all_fit few_restarts (omega arith)
