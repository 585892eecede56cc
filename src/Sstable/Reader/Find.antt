-- ===== src/Sstable/Reader/Find.antt =====
-- The lookup in a list of entries that `Get` of pkg/lsm/sstable/reader.go amounts to, and its search in one
-- block.
use indexed_watch.Prelude.{
  ℕ, ◌<◌, ◌≡◌, refl, ap, sym, subst, ◌∙◌, Bool, false, Bool-cases, ◌⊎◌, inl, inr, Option, List, [],
  ◌∷◌, ◌++◌, arith, length, if◌then◌else◌, u32_mod, All,
}
use indexed_watch.Bytes.{compare_bytes, is_neg, is_zero}
use indexed_watch.Bytes.Order.{Lt, Lt_trans, compare_bytes_eq, compare_bytes-flip}
use indexed_watch.Sstable.Block.{
  BlockIterator, new_block_writer, finish, new_block_iterator, seek_ge,
}
use indexed_watch.Sstable.Block.Runs.{Entry, add_all, Fits, Runs}
use indexed_watch.Sstable.Block.Runs.Seek.{Ascending, Below, HeadReaches, seek_ge-finish}
use indexed_watch.Sstable.Writer.Order.{Ascending-append}
use indexed_watch.Sstable.Reader.{Result, ok, failed, not_found, get_from_block}

-- The value of the first entry with this key.
pub find : List ℕ → List Entry → Result (List ℕ)
find key [] = failed not_found
find key ((k, v) ∷ es) = if is_zero (compare_bytes k key) then ok v else find key es

pub find-nothing : (key : List ℕ) → find key [] ≡ failed not_found
unfolding find
find-nothing key = refl

find-above :
    (key : List ℕ) (es : List Entry)
    → All (λ (e : Entry). Lt key e.0) es
    → find key es ≡ failed not_found
unfolding find
find-above key [] h = refl
find-above key ((k, v) ∷ es) h = ground (arith, compare_bytes-flip key k, find-above key es h.1)

pub find-below :
    (key : List ℕ) (es fs : List Entry) → All (Below key) es → find key (es ++ fs) ≡ find key fs
unfolding find
find-below key [] fs h = refl
find-below key ((k, v) ∷ es) fs h = ground (arith, find-below key es fs h.1)

pub find-append_above :
    (key : List ℕ) (es fs : List Entry)
    → All (λ (e : Entry). Lt key e.0) fs
    → find key (es ++ fs) ≡ find key es
unfolding find
find-append_above key [] fs h = find-above key fs h
find-append_above key ((k, v) ∷ es) fs h =
    ap (λ x. if is_zero (compare_bytes k key) then ok v else x) (find-append_above key es fs h)

-- Whether there is an entry.
pub find-cases :
    (key : List ℕ) (es : List Entry)
    → (find key es ≡ failed not_found)
      ⊎ ((before : List Entry) × (val : List ℕ) × (after : List Entry) × (es
            ≡ before ++ (key, val) ∷ after))
unfolding find
find-cases key [] = inl refl
find-cases key ((k, v) ∷ es) = elim (Bool-cases (is_zero (compare_bytes k key))) [
  | inl same ↦
      let e = compare_bytes_eq k key (ground arith) in inr ([], v, es, ap (λ x. (x, v) ∷ es) e)
  | inr other ↦ rw other (elim (find-cases key es) [
    | inl n ↦ inl n
    | inr (before, val, after, e) ↦ inr ((k, v) ∷ before, val, after, ap (λ l. (k, v) ∷ l) e)
  ])
]

pub above_all :
    (a b : List ℕ) (es : List Entry)
    → Lt a b
    → All (λ (e : Entry). Lt b e.0) es
    → All (λ (e : Entry). Lt a e.0) es
above_all a b [] l h = tt
above_all a b (e ∷ es) l h = (Lt_trans a b e.0 l h.0, above_all a b es l h.1)

-- A key that the head reaches is the head's, or is below all.
find-reached :
    (key : List ℕ) (e : Entry) (es : List Entry)
    → is_neg (compare_bytes e.0 key) ≡ false
    → All (λ (x : Entry). Lt e.0 x.0) es
    → find key (e ∷ es) ≡ (if is_zero (compare_bytes e.0 key) then ok e.1 else failed not_found)
unfolding find
find-reached key e es h up = elim (Bool-cases (is_zero (compare_bytes e.0 key))) [
  | inl same ↦ rw same refl
  | inr other ↦
      let above : Lt key e.0 = ground (arith, compare_bytes-flip key e.0) in
      rw other (find-above key es (above_all key e.0 es above up))
]

found_in :
    (key : List ℕ) (left : List Entry) (s : Option (Bool × BlockIterator)) (block : List ℕ)
    → seek_ge key (new_block_iterator block) ≡ s
    → HeadReaches key left
    → Ascending left
    → Runs left s
    → get_from_block key block ≡ find key left
unfolding get_from_block find
found_in key [] s block e h up (it, end, _) = rw (e ∙ end) refl
found_in key (x ∷ left) s block e h up (it, found, _, k, v, _) =
    rw (e ∙ found) (rw (k, v) (sym (find-reached key x left h up.0)))

-- The search in a finished block is the lookup in its entries.
pub get_from_block-finish :
    (interval : ℕ) (es : List Entry) (key : List ℕ)
    → All Fits es
    → Ascending es
    → length (add_all es (new_block_writer interval)).buf < u32_mod
    → length (add_all es (new_block_writer interval)).restarts < u32_mod
    → 0 < length es
    → get_from_block key (finish (add_all es (new_block_writer interval))) ≡ find key es
get_from_block-finish interval es key fits up small few h =
    let v = seek_ge-finish interval es key fits up small few h in
    let block = finish (add_all es (new_block_writer interval)) in
    found_in key v.left (seek_ge key (new_block_iterator block)) block refl v.reached
      (Ascending-append v.passed v.left (subst Ascending v.split up)).1 v.runs
    ∙ sym (find-below key v.passed v.left v.below)
    ∙ ap (find key) (sym v.split)
