-- ===== src/Sstable/Bloom/Tests.antt =====
-- Runs of the bloom filter of pkg/lsm/sstable/bloom.go. The product with math.Ln2 is taken to two
-- decimals.
use indexed_watch.Prelude.{ℕ, ◌*◌, ◌/◌, ◌≡◌, true, some, List, [], ◌∷◌, arith}
use indexed_watch.Sstable.Bloom.{
  BloomFilter, calc_n_lines, new_bloom_filter_writer, finish, decode_bloom_filter, may_contain,
}
use indexed_watch.Sstable.Bloom.Members.{add_keys, may_contain-added}

abbrev times_ln2 : ℕ → ℕ
times_ln2 b = b * 69 / 100

abbrev u : List ℕ
u = 97 ∷ []

abbrev w : List ℕ
w = 98 ∷ 99 ∷ []

may_contain-added_example :
    (block : List ℕ) × (f : BloomFilter) × (finish times_ln2
        (add_keys (w ∷ u ∷ []) (new_bloom_filter_writer 10))
      ≡ some block)
    × (decode_bloom_filter block ≡ some f)
    × (f.n_lines ≡ calc_n_lines 2 10)
    × (may_contain (some f) u ≡ true)
may_contain-added_example =
    may_contain-added times_ln2 10 (w ∷ []) [] u (unfold calc_n_lines in omega arith)
