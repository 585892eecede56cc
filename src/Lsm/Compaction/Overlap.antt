-- ===== src/Lsm/Compaction/Overlap.antt =====
-- The files of the output level of a compaction of pkg/lsm/compaction.go that are not taken.
use indexed_watch.Prelude.{
  ℕ, zero, suc, ◌+◌, ◌-◌, ◌^◌, ◌<◌, ◌≡◌, ◌⊎◌, refl, ap, sym, subst, ◌∙◌, true, false, Option, none,
  some, List, [], ◌∷◌, length, All, In, inl, inr, Bool-cases, arith, if◌then◌else◌, leb, ltb,
}
use indexed_watch.Bytes.{compare_bytes, is_neg, is_pos}
use indexed_watch.Bytes.Order.{
  above_trans, below_trans, not_above_trans, not_below_trans, flip, compare_bytes-flip,
  compare_bytes_self,
}
use indexed_watch.Lsm.InternalKey.{make_internal_key, newer_first}
use indexed_watch.Lsm.VersionEdit.{FileMeta}
use indexed_watch.Lsm.Version.{Levels, level_files, overlapping_files, level_size, num_levels}
use indexed_watch.Lsm.Compaction.{
  smallest_of, largest_of, key_range, bytes_of, compaction_threshold, CompactionPick,
  pick_level_zero, pick_file, largest_file, pick_deeper, target_level_size, pick_compaction,
}

-- A file whose keys are all above the largest or all below the smallest of these keys.
abbrev pub Outside : List ℕ → List ℕ → FileMeta → Type 0
Outside s l f =
    (is_pos (compare_bytes f.smallest_key l) ≡ true)
    ⊎ (is_neg (compare_bytes f.largest_key s) ≡ true)

-- Every file is taken, or else it is outside.
abbrev Covers : List ℕ → List ℕ → List FileMeta → List FileMeta → Type 0
Covers s l taken fs = All (λ f. In f taken ⊎ Outside s l f) fs

Covers-more :
    (s l : List ℕ) (f : FileMeta) (taken fs : List FileMeta)
    → Covers s l taken fs
    → Covers s l (f ∷ taken) fs
Covers-more s l f taken [] h = tt
Covers-more s l f taken (g ∷ fs) h =
    (elim h.0 [ inl i ↦ inl (inr i) | inr o ↦ inr o ], Covers-more s l f taken fs h.1)

passed_over :
    (s l : List ℕ) (f : FileMeta) (fs : List FileMeta)
    → Outside s l f
    → overlapping_files s l (f ∷ fs) ≡ overlapping_files s l fs
unfolding overlapping_files
passed_over s l f fs (inl p) = rw p refl
passed_over s l f fs (inr n) = elim (Bool-cases (is_pos (compare_bytes f.smallest_key l))) [
  | inl p ↦ rw p refl
  | inr p ↦ rw (p, n) refl
]

taken :
    (s l : List ℕ) (f : FileMeta) (fs : List FileMeta)
    → is_pos (compare_bytes f.smallest_key l) ≡ false
    → is_neg (compare_bytes f.largest_key s) ≡ false
    → overlapping_files s l (f ∷ fs) ≡ f ∷ overlapping_files s l fs
unfolding overlapping_files
taken s l f fs p n = rw (p, n) refl

overlapping_files-Covers :
    (s l : List ℕ) (fs : List FileMeta) → Covers s l (overlapping_files s l fs) fs
overlapping_files-Covers s l [] = tt
overlapping_files-Covers s l (f ∷ fs) =
    let rest = overlapping_files-Covers s l fs in
    let skipped = λ (o : Outside s l f).
      subst (λ t. Covers s l t (f ∷ fs)) (sym (passed_over s l f fs o)) (inr o, rest) in
    elim (Bool-cases (is_pos (compare_bytes f.smallest_key l))) [
      | inl p ↦ skipped (inl p)
      | inr p ↦ elim (Bool-cases (is_neg (compare_bytes f.largest_key s))) [
        | inl n ↦ skipped (inr n)
        | inr n ↦
            subst (λ t. Covers s l t (f ∷ fs)) (sym (taken s l f fs p n))
              (inl (inl refl), Covers-more s l f _ fs rest)
      ]
    ]

-- A key that bounds the smallest keys from below, and one that bounds the largest keys from above.
record IsRange (s l : List ℕ) (f : FileMeta) : Type 0 where
  from_below : is_neg (compare_bytes f.smallest_key s) ≡ false
  from_above : is_pos (compare_bytes f.largest_key l) ≡ false

Outside-narrow :
    (s l : List ℕ) (i f : FileMeta)
    → IsRange s l i
    → Outside s l f
    → Outside i.smallest_key i.largest_key f
Outside-narrow s l i f r (inl p) = inl (above_trans f.smallest_key l i.largest_key p r.from_above)
Outside-narrow s l i f r (inr n) = inr (below_trans f.largest_key s i.smallest_key n r.from_below)

Covers-narrow :
    (s l : List ℕ) (i : FileMeta) (t fs : List FileMeta)
    → IsRange s l i
    → Covers s l t fs
    → Covers i.smallest_key i.largest_key t fs
Covers-narrow s l i t [] r h = tt
Covers-narrow s l i t (f ∷ fs) r h = (
  elim h.0 [ inl m ↦ inl m | inr o ↦ inr (Outside-narrow s l i f r o) ],
  Covers-narrow s l i t fs r h.1,
)

-- The smaller one of two keys is below neither, and the larger one above neither.
smaller :
    (x s : List ℕ)
    → (is_neg (compare_bytes x (if is_neg (compare_bytes x s) then x else s)) ≡ false)
      × (is_neg (compare_bytes s (if is_neg (compare_bytes x s) then x else s)) ≡ false)
smaller x s = elim (Bool-cases (is_neg (compare_bytes x s))) [
  | inl n ↦ rw n (ap is_neg (compare_bytes_self x), ground (arith, compare_bytes-flip x s))
  | inr n ↦ rw n (n, ap is_neg (compare_bytes_self s))
]

larger :
    (x l : List ℕ)
    → (is_pos (compare_bytes x (if is_pos (compare_bytes x l) then x else l)) ≡ false)
      × (is_pos (compare_bytes l (if is_pos (compare_bytes x l) then x else l)) ≡ false)
larger x l = elim (Bool-cases (is_pos (compare_bytes x l))) [
  | inl n ↦ rw n (ap is_pos (compare_bytes_self x), ground (arith, compare_bytes-flip x l))
  | inr n ↦ rw n (n, ap is_pos (compare_bytes_self l))
]

smallest_of_bound :
    (s : List ℕ) (fs : List FileMeta)
    → (is_neg (compare_bytes s (bytes_of (smallest_of (some s) fs))) ≡ false)
      × All
          (λ f. is_neg (compare_bytes f.smallest_key (bytes_of (smallest_of (some s) fs))) ≡ false)
          fs
unfolding smallest_of
smallest_of_bound s [] = (ap is_neg (compare_bytes_self s), tt)
smallest_of_bound s (f ∷ fs) =
    let s' : List ℕ = if is_neg (compare_bytes f.smallest_key s) then f.smallest_key else s in
    let (a, b) = smaller f.smallest_key s in
    let (c, d) = smallest_of_bound s' fs in
    (not_below_trans s s' _ b c, (not_below_trans f.smallest_key s' _ a c, d))

largest_of_bound :
    (l : List ℕ) (fs : List FileMeta)
    → (is_pos (compare_bytes l (bytes_of (largest_of (some l) fs))) ≡ false)
      × All
          (λ f. is_pos (compare_bytes f.largest_key (bytes_of (largest_of (some l) fs))) ≡ false)
          fs
unfolding largest_of
largest_of_bound l [] = (ap is_pos (compare_bytes_self l), tt)
largest_of_bound l (f ∷ fs) =
    let l' : List ℕ = if is_pos (compare_bytes f.largest_key l) then f.largest_key else l in
    let (a, b) = larger f.largest_key l in
    let (c, d) = largest_of_bound l' fs in
    (not_above_trans l l' _ b c, (not_above_trans f.largest_key l' _ a c, d))

ranges :
    (s l : List ℕ) (fs : List FileMeta)
    → All (λ f. is_neg (compare_bytes f.smallest_key s) ≡ false) fs
    → All (λ f. is_pos (compare_bytes f.largest_key l) ≡ false) fs
    → All (IsRange s l) fs
ranges s l [] h k = tt
ranges s l (f ∷ fs) h k = (record { from_below = h.0; from_above = k.0 }, ranges s l fs h.1 k.1)

-- The range of some files has all their keys.
key_range-IsRange :
    (fs : List FileMeta) → All (IsRange (bytes_of (key_range fs).0) (bytes_of (key_range fs).1)) fs
unfolding key_range smallest_of largest_of
key_range-IsRange [] = tt
key_range-IsRange (f ∷ fs) =
    let (a, b) = smallest_of_bound f.smallest_key fs in
    let (c, d) = largest_of_bound f.largest_key fs in
    (record { from_below = a; from_above = c }, ranges _ _ fs b d)

-- All inputs of a compaction, against the files of the output level.
abbrev pub Separates : Levels → CompactionPick → Type 0
Separates v p =
    All
      (λ i.
        All (λ f. In f p.overlaps ⊎ Outside i.smallest_key i.largest_key f)
          (level_files v p.output_level))
      p.inputs

Covers-each :
    (s l : List ℕ) (t fs is : List FileMeta)
    → All (IsRange s l) is
    → Covers s l t fs
    → All (λ i. Covers i.smallest_key i.largest_key t fs) is
Covers-each s l t fs [] r h = tt
Covers-each s l t fs (i ∷ is) r h = (Covers-narrow s l i t fs r.0 h, Covers-each s l t fs is r.1 h)

pick_level_zero-Separates : (v : Levels) → Separates v (pick_level_zero v)
unfolding pick_level_zero
pick_level_zero-Separates v =
    let r = key_range (level_files v 0) in
    Covers-each (bytes_of r.0) (bytes_of r.1) _ (level_files v 1) (level_files v 0)
      (key_range-IsRange (level_files v 0))
      (overlapping_files-Covers (bytes_of r.0) (bytes_of r.1) (level_files v 1))

-- What a choice may be.
abbrev Allowed : Levels → Option CompactionPick → Type 0
Allowed v none = Unit
Allowed v (some p) = Separates v p

pick_file-Allowed : (v : Levels) (level : ℕ) (fs : List FileMeta) → Allowed v (pick_file v level fs)
unfolding pick_file
pick_file-Allowed v level [] = tt
pick_file-Allowed v level (f ∷ fs) =
    let pick = largest_file f fs in
    (overlapping_files-Covers pick.smallest_key pick.largest_key (level_files v (level + 1)), tt)

pick_deeper-Allowed : (n : ℕ) (v : Levels) (level : ℕ) → Allowed v (pick_deeper n v level)
unfolding pick_deeper
pick_deeper-Allowed zero v level = tt
pick_deeper-Allowed (suc n) v level =
    elim (Bool-cases (ltb (target_level_size level) (level_size (level_files v level)))) [
      | inl b ↦ rw b (pick_file-Allowed v level (level_files v level))
      | inr b ↦ rw b (pick_deeper-Allowed n v (level + 1))
    ]

pick_compaction-Allowed : (v : Levels) → Allowed v (pick_compaction v)
unfolding pick_compaction
pick_compaction-Allowed v =
    elim (Bool-cases (leb compaction_threshold (length (level_files v 0)))) [
      | inl b ↦ rw b (pick_level_zero-Separates v)
      | inr b ↦ rw b (pick_deeper-Allowed (num_levels - 2) v 1)
    ]

-- Each file of the output level of a compaction is one of its overlaps, or else all its keys are
-- above or all are below those of each input.
pub pick_compaction-Separates :
    (v : Levels) (p : CompactionPick) → pick_compaction v ≡ some p → Separates v p
pick_compaction-Separates v p h = subst (Allowed v) h (pick_compaction-Allowed v)

-- A file whose first key is an older version of the user key of the largest key is passed over, for
-- 56-bit sequence numbers and kinds of one byte.
pub overlapping_files-older :
    (s u : List ℕ) (new old k k' : ℕ) (f : FileMeta) (fs : List FileMeta)
    → f.smallest_key ≡ make_internal_key u old k'
    → old < new
    → new < 2 ^ 56
    → k < 256
    → k' < 256
    → overlapping_files s (make_internal_key u new k) (f ∷ fs)
      ≡ overlapping_files s (make_internal_key u new k) fs
overlapping_files-older s u new old k k' f fs e h b hk hk' =
    passed_over s (make_internal_key u new k) f fs (
      inl (
        ap (λ x. is_pos (compare_bytes x (make_internal_key u new k))) e
        ∙ ap is_pos (
            compare_bytes-flip (make_internal_key u new k) (make_internal_key u old k')
            ∙ ap flip (newer_first u old new k k' h b hk hk'))))
