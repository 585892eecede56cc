-- ===== src/Lsm/Merge/Tests.antt =====
-- A merge of pkg/lsm/merge_iterator.go.
use indexed_watch.Prelude.{◌≡◌, refl, true, List, [], ◌∷◌, All}
use indexed_watch.Bytes.{compare_bytes}
use indexed_watch.Lsm.SortedMap.{Entries, IsSorted, has_key}
use indexed_watch.Lsm.Merge.{
  less, top, advance_top, skip_or, skip_key, next_from, collect_from, collect, merge,
}
use indexed_watch.Lsm.Merge.Sorted.{InAny, merge-IsSorted}

abbrev two_sources : List Entries
two_sources =
    ((2 ∷ [], 20 ∷ []) ∷ (4 ∷ [], 40 ∷ []) ∷ [])
    ∷ ((1 ∷ [], 1 ∷ []) ∷ (2 ∷ [], 2 ∷ []) ∷ (5 ∷ [], 5 ∷ []) ∷ [])
    ∷ []

two_sources-IsSorted : All IsSorted two_sources
unfolding compare_bytes
two_sources-IsSorted = (((refl, tt), (tt, tt)), (((refl, (refl, tt)), ((refl, tt), (tt, tt))), tt))

-- The first source has the newer value of the common key.
merged :
    merge two_sources
    ≡ (1 ∷ [], 1 ∷ []) ∷ (2 ∷ [], 20 ∷ []) ∷ (4 ∷ [], 40 ∷ []) ∷ (5 ∷ [], 5 ∷ []) ∷ []
unfolding merge collect collect_from next_from skip_key skip_or advance_top top less compare_bytes
merged = refl

merge-IsSorted_example :
    IsSorted (merge two_sources)
    × All (All (λ e. has_key (merge two_sources) e.0 ≡ true)) two_sources
    × All (λ e. InAny e two_sources) (merge two_sources)
merge-IsSorted_example = merge-IsSorted two_sources two_sources-IsSorted
