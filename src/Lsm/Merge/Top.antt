-- ===== src/Lsm/Merge/Top.antt =====
-- The root of the heap of pkg/lsm/merge_iterator.go, and what is left when its iterator goes on.
use indexed_watch.Prelude.{
  ℕ, suc, ◌≡◌, refl, ap, sym, subst, true, false, Option, none, some, List, [], ◌∷◌, All, All-zip,
  Bool-cases, inl, inr, arith, if◌then◌else◌,
}
use indexed_watch.Bytes.{compare_bytes, is_neg, is_zero}
use indexed_watch.Bytes.Order.{
  Lt, Lt_trans, compare_bytes-flip, compare_bytes_eq, compare_bytes_self, not_below_trans,
}
use indexed_watch.Lsm.SortedMap.{Entries, IsSorted}
use indexed_watch.Lsm.Merge.{less, top, advance_top, count}

-- No entry of the sources is below the key, or every one is above it.
abbrev pub AtLeast : List ℕ → List Entries → Type 0
AtLeast key ss = All (All (λ e. is_neg (compare_bytes e.0 key) ≡ false)) ss

abbrev pub Above : List ℕ → List Entries → Type 0
Above key ss = All (All (λ e. Lt key e.0)) ss

pub data Top (ss : List Entries) : Option (List ℕ × List ℕ) → Type 1 where
  all_passed : count ss ≡ 0 → Top ss none
  least :
      (d : List ℕ × List ℕ)
      → AtLeast d.0 ss
      → ((P : List ℕ × List ℕ → Type 0) → All (All P) ss → P d)
      → ((key : List ℕ)
          → is_zero (compare_bytes d.0 key) ≡ true
          → suc (count (advance_top key ss)) ≡ count ss)
      → Top ss (some d)

pub All-map {κ μ} :
    {P : List ℕ × List ℕ → Type κ} {Q : List ℕ × List ℕ → Type μ}
    → ((e : List ℕ × List ℕ) → P e → Q e)
    → (es : Entries) → All P es
    → All Q es
All-map f es h = All-zip (λ e p q. f e p) es h h

pub each {κ μ} :
    {P : List ℕ × List ℕ → Type κ} {Q : List ℕ × List ℕ → Type μ}
    → ((e : List ℕ × List ℕ) → P e → Q e)
    → (ss : List Entries) → All (All P) ss
    → All (All Q) ss
each f [] h = tt
each f (s ∷ ss) h = (All-map f s h.0, each f ss h.1)

pub passed : (P : List ℕ × List ℕ → Type 0) (ss : List Entries) → count ss ≡ 0 → All (All P) ss
passed P [] h = tt
passed P ([] ∷ ss) h = (tt, passed P ss (omega arith))
passed P ((e ∷ es) ∷ ss) h = absurd (omega arith)

pub above-AtLeast : (k x : List ℕ) → Lt k x → is_neg (compare_bytes x k) ≡ false
above-AtLeast k x h = ground (arith, compare_bytes-flip k x)

pub less-Top :
    (e : List ℕ × List ℕ) (es : Entries) (ss : List Entries) (r : Option (List ℕ × List ℕ))
    → IsSorted (e ∷ es)
    → Top ss r
    → Top ((e ∷ es) ∷ ss) (some (less e r))
unfolding less advance_top
less-Top e es ss none v (all_passed c) =
    least e
      (
        (ap is_neg (compare_bytes_self e.0), All-map (λ x l. above-AtLeast e.0 x.0 l) es v.0),
        passed _ ss c,
      )
      (λ P h. h.0.0) (λ key z. rw z (omega arith))
less-Top e es ss (some d) v (least _ a held passes) =
    elim (Bool-cases (is_neg (compare_bytes d.0 e.0))) [
      | inl b ↦ rw b (
          least d
            (
              (
                ground (arith, compare_bytes-flip d.0 e.0),
                All-map (λ x l. above-AtLeast d.0 x.0 (Lt_trans d.0 e.0 x.0 (ground arith) l)) es
                    v.0,
              ),
              a,
            )
            (λ P h. held P h.1) (λ key z. rw (behind key b z) (omega (arith, passes key z))))
      | inr b ↦ rw b (
          least e
            (
              (ap is_neg (compare_bytes_self e.0), All-map (λ x l. above-AtLeast e.0 x.0 l) es v.0),
              each (λ x g. not_below_trans x.0 d.0 e.0 g b) ss a,
            )
            (λ P h. h.0.0) (λ key z. rw z (omega arith)))
    ]
  where
    behind :
        (key : List ℕ)
        → is_neg (compare_bytes d.0 e.0) ≡ true
        → is_zero (compare_bytes d.0 key) ≡ true
        → is_zero (compare_bytes e.0 key) ≡ false
    behind key b z =
        subst (λ k. is_zero (compare_bytes e.0 k) ≡ false) (compare_bytes_eq d.0 key (ground arith))
          (ground (arith, compare_bytes-flip d.0 e.0))

pub empty-Top : (ss : List Entries) (r : Option (List ℕ × List ℕ)) → Top ss r → Top ([] ∷ ss) r
unfolding advance_top
empty-Top ss none (all_passed c) = all_passed (omega (arith, c))
empty-Top ss (some d) (least _ a held passes) =
    least d (tt, a) (λ P h. held P h.1) (λ key z. omega (arith, passes key z))

pub top-Top : (ss : List Entries) → All IsSorted ss → Top ss (top ss)
unfolding top
top-Top [] v = all_passed refl
top-Top ([] ∷ ss) v = empty-Top ss (top ss) (top-Top ss v.1)
top-Top ((e ∷ es) ∷ ss) v = less-Top e es ss (top ss) v.0 (top-Top ss v.1)

pub advance_top-All :
    (P : List ℕ × List ℕ → Type 0) (key : List ℕ) (ss : List Entries)
    → All (All P) ss
    → All (All P) (advance_top key ss)
unfolding advance_top
advance_top-All P key [] h = tt
advance_top-All P key ([] ∷ ss) h = (tt, advance_top-All P key ss h.1)
advance_top-All P key ((e ∷ es) ∷ ss) h = elim (Bool-cases (is_zero (compare_bytes e.0 key))) [
  | inl z ↦ rw z (h.0.1, h.1)
  | inr z ↦ rw z (h.0, advance_top-All P key ss h.1)
]

pub advance_top-IsSorted :
    (key : List ℕ) (ss : List Entries) → All IsSorted ss → All IsSorted (advance_top key ss)
unfolding advance_top
advance_top-IsSorted key [] h = tt
advance_top-IsSorted key ([] ∷ ss) h = (tt, advance_top-IsSorted key ss h.1)
advance_top-IsSorted key ((e ∷ es) ∷ ss) h = elim (Bool-cases (is_zero (compare_bytes e.0 key))) [
  | inl z ↦ rw z (h.0.1, h.1)
  | inr z ↦ rw z (h.0, advance_top-IsSorted key ss h.1)
]

-- What holds of the key's entries and of those that are left holds of all.
pub advance_top-keeps :
    (P : List ℕ × List ℕ → Type 0) (key : List ℕ) (ss : List Entries)
    → ((e : List ℕ × List ℕ) → is_zero (compare_bytes e.0 key) ≡ true → P e)
    → All (All P) (advance_top key ss)
    → All (All P) ss
unfolding advance_top
advance_top-keeps P key [] f h = tt
advance_top-keeps P key ([] ∷ ss) f h = (tt, advance_top-keeps P key ss f h.1)
advance_top-keeps P key ((e ∷ es) ∷ ss) f h = elim (Bool-cases (is_zero (compare_bytes e.0 key))) [
  | inl z ↦
      first_passed (f e z)
        (subst (λ b. All (All P) (if b then es ∷ ss else (e ∷ es) ∷ advance_top key ss)) z h)
  | inr z ↦
      later_passed (advance_top-keeps P key ss f)
        (subst (λ b. All (All P) (if b then es ∷ ss else (e ∷ es) ∷ advance_top key ss)) z h)
]
  where
    first_passed : P e → All (All P) (es ∷ ss) → All (All P) ((e ∷ es) ∷ ss)
    first_passed p h = ((p, h.0), h.1)

    later_passed :
        (All (All P) (advance_top key ss) → All (All P) ss)
        → All (All P) ((e ∷ es) ∷ advance_top key ss)
        → All (All P) ((e ∷ es) ∷ ss)
    later_passed g h = (h.0, g h.1)

pub Top-passes :
    (ss : List Entries) (r : Option (List ℕ × List ℕ))
    → Top ss r
    → (d : List ℕ × List ℕ) (key : List ℕ) → r ≡ some d
    → is_zero (compare_bytes d.0 key) ≡ true
    → suc (count (advance_top key ss)) ≡ count ss
Top-passes ss none t d key e z = absurd (none_some e)
  where
    none_some : none ≡ some d → ⊥
    none_some e = cc
Top-passes ss (some d') (least _ m held passes) d key e z =
    passes key (subst (λ x. is_zero (compare_bytes x.0 key) ≡ true) (sym (inner e)) z)
  where
    inner : some d' ≡ some d → d' ≡ d
    inner e = cc
