-- ===== src/Lsm/Merge.antt =====
-- pkg/lsm/merge_iterator.go: the merge of some sources, newest first. A source is the entries that its
-- iterator has not passed; the heap of container/heap shows its least element, which is unique, since
-- equal keys are ordered by the index of their source.
pub mod Top
pub mod Sorted
pub mod Tests
use Prim.Native.Nat.{Ordering}
use indexed_watch.Prelude.{
  ℕ, zero, suc, ◌+◌, Bool, true, false, Option, none, some, List, [], ◌∷◌, length, if◌then◌else◌,
}
use indexed_watch.Bytes.{compare_bytes, is_neg, is_zero}
use indexed_watch.Lsm.SortedMap.{Entries}

-- The lesser of the heads: that of the source before the others, or theirs.
unfoldable pub less : List ℕ × List ℕ → Option (List ℕ × List ℕ) → List ℕ × List ℕ
less e none = e
less e (some d) = if is_neg (compare_bytes d.0 e.0) then d else e

-- The entry at the root of the heap; `none` is an empty heap.
unfoldable pub top : List Entries → Option (List ℕ × List ℕ)
top [] = none
top ([] ∷ ss) = top ss
top ((e ∷ es) ∷ ss) = some (less e (top ss))

-- The iterator at the root, the first one at its key, goes on.
unfoldable pub advance_top : List ℕ → List Entries → List Entries
advance_top key [] = []
advance_top key ([] ∷ ss) = [] ∷ advance_top key ss
advance_top key ((e ∷ es) ∷ ss) =
    let rest = advance_top key ss in
    if is_zero (compare_bytes e.0 key) then es ∷ ss else (e ∷ es) ∷ rest

-- How many entries are left.
abbrev pub count : List Entries → ℕ
count [] = 0
count (s ∷ ss) = length s + count ss

-- The loop of `Next`: as long as the root has the key, one entry is passed in each round, which
-- leads to `rest`.
unfoldable pub skip_or :
    List ℕ → List Entries → List Entries → Option (List ℕ × List ℕ) → List Entries
skip_or prev ss rest none = ss
skip_or prev ss rest (some d) = if is_zero (compare_bytes d.0 prev) then rest else ss

unfoldable pub skip_key : ℕ → List ℕ → List Entries → List Entries
skip_key zero prev ss = ss
skip_key (suc n) prev ss = skip_or prev ss (skip_key n prev (advance_top prev ss)) (top ss)

-- `Next` behind the root that it starts from.
unfoldable pub next_from : List Entries → Option (List ℕ × List ℕ) → List Entries
next_from ss none = ss
next_from ss (some d) = skip_key (count ss) d.0 ss

abbrev pub next : List Entries → List Entries
next ss = next_from ss (top ss)

-- What a caller reads from here on, as long as the iterator is valid.
unfoldable pub collect_from : Entries → Option (List ℕ × List ℕ) → Entries
collect_from rest none = []
collect_from rest (some d) = d ∷ rest

unfoldable pub collect : ℕ → List Entries → Entries
collect zero ss = []
collect (suc n) ss = collect_from (collect n (next ss)) (top ss)

-- What a caller reads from `First` on.
unfoldable pub merge : List Entries → Entries
merge ss = collect (count ss) ss
