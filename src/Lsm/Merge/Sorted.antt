-- ===== src/Lsm/Merge/Sorted.antt =====
-- The order of what pkg/lsm/merge_iterator.go yields from sorted sources, and what it passes over.
use indexed_watch.Prelude.{
  ℕ, zero, suc, ◌≤◌, ◌≡◌, ◌⊎◌, refl, ap, sym, subst, Bool, true, false, Option, none, some, List,
  [], ◌∷◌, All, In, Bool-cases, inl, inr, arith, if◌then◌else◌,
}
use indexed_watch.Bytes.{compare_bytes, is_neg, is_zero}
use indexed_watch.Bytes.Order.{
  Lt, Lt_trans, compare_bytes-flip, compare_bytes_eq, compare_bytes_self,
}
use indexed_watch.Lsm.SortedMap.{Entries, IsSorted, has_key}
use indexed_watch.Lsm.Merge.{
  top, advance_top, count, skip_or, skip_key, next_from, collect_from, collect, merge,
}
use indexed_watch.Lsm.Merge.Top.{
  AtLeast, Above, Top, each, passed, top-Top, advance_top-All, advance_top-IsSorted,
  advance_top-keeps, Top-passes, all_passed, least,
}

-- What passing over a key leaves.
record Passes (prev : List ℕ) (ss ss' : List Entries) : Type 1 where
  above : Above prev ss'
  sorted : All IsSorted ss'
  fewer : count ss' ≤ count ss
  keeps :
      (P : List ℕ × List ℕ → Type 0)
      → ((e : List ℕ × List ℕ) → is_zero (compare_bytes e.0 prev) ≡ true → P e)
      → All (All P) ss'
      → All (All P) ss
  holds : (P : List ℕ × List ℕ → Type 0) → All (All P) ss → All (All P) ss'

Passes-self :
    (prev : List ℕ) (ss : List Entries) → Above prev ss → All IsSorted ss → Passes prev ss ss
Passes-self prev ss a v = record {
  above = a;
  sorted = v;
  fewer = omega arith;
  keeps = λ P f h. h;
  holds = λ P h. h;
}

not_there :
    (d prev x : List ℕ)
    → is_neg (compare_bytes d prev) ≡ false
    → is_zero (compare_bytes d prev) ≡ false
    → is_neg (compare_bytes x d) ≡ false
    → Lt prev x
not_there d prev x h z g = elim (Bool-cases (is_zero (compare_bytes x d))) [
  | inl y ↦
      subst (λ w. Lt prev w) (sym (compare_bytes_eq x d (ground arith)))
        (ground (arith, compare_bytes-flip d prev))
  | inr y ↦
      Lt_trans prev d x (ground (arith, compare_bytes-flip d prev))
        (ground (arith, compare_bytes-flip x d))
]

skip_or-Passes :
    (prev : List ℕ) (ss rest : List Entries) (r : Option (List ℕ × List ℕ))
    → Top ss r
    → AtLeast prev ss
    → All IsSorted ss
    → ((d : List ℕ × List ℕ)
        → r ≡ some d
        → is_zero (compare_bytes d.0 prev) ≡ true
        → Passes prev ss rest)
    → Passes prev ss (skip_or prev ss rest r)
unfolding skip_or
skip_or-Passes prev ss rest none (all_passed c) a v f = Passes-self prev ss (passed _ ss c) v
skip_or-Passes prev ss rest (some d) (least _ m held passes) a v f =
    elim (Bool-cases (is_zero (compare_bytes d.0 prev))) [
      | inl z ↦ rw z (f d refl z)
      | inr z ↦
          rw z (Passes-self prev ss (each (λ x g. not_there d.0 prev x.0 (held _ a) z g) ss m) v)
    ]

skip_key-Passes :
    (n : ℕ) (prev : List ℕ) (ss : List Entries)
    → count ss ≤ n
    → AtLeast prev ss
    → All IsSorted ss
    → Passes prev ss (skip_key n prev ss)
unfolding skip_key
skip_key-Passes zero prev ss h a v = Passes-self prev ss (passed _ ss (omega arith)) v
skip_key-Passes (suc n) prev ss h a v =
    skip_or-Passes prev ss _ (top ss) (top-Top ss v) a v (λ d e z.
      let one : suc (count (advance_top prev ss)) ≡ count ss =
        Top-passes ss (top ss) (top-Top ss v) d prev e z in
      let r =
        skip_key-Passes n prev (advance_top prev ss) (omega (arith, one))
          (advance_top-All _ prev ss a) (advance_top-IsSorted prev ss v) in
      record {
        above = r.above;
        sorted = r.sorted;
        fewer = omega (arith, one, r.fewer);
        keeps = λ P f g. advance_top-keeps P prev ss f (r.keeps P f g);
        holds = λ P g. r.holds P (advance_top-All P prev ss g);
      })

skip_key-count :
    (n : ℕ) (prev : List ℕ) (ss : List Entries) (d : List ℕ × List ℕ)
    → count ss ≤ n
    → AtLeast prev ss
    → All IsSorted ss
    → top ss ≡ some d
    → is_zero (compare_bytes d.0 prev) ≡ true
    → suc (count (skip_key n prev ss)) ≤ count ss
unfolding skip_key skip_or
skip_key-count zero prev ss d h a v e z =
    absurd (omega (arith, Top-passes ss (top ss) (top-Top ss v) d prev e z))
skip_key-count (suc n) prev ss d h a v e z =
    let one = Top-passes ss (top ss) (top-Top ss v) d prev e z in
    let r =
      skip_key-Passes n prev (advance_top prev ss) (omega (arith, one))
        (advance_top-All _ prev ss a) (advance_top-IsSorted prev ss v) in
    subst (λ t. suc (count (skip_or prev ss (skip_key n prev (advance_top prev ss)) t)) ≤ count ss)
      (sym e) (rw z (omega (arith, one, r.fewer)))

-- The rest behind the root.
behind_root :
    (ss : List Entries) (d : List ℕ × List ℕ)
    → AtLeast d.0 ss
    → All IsSorted ss
    → Passes d.0 ss (next_from ss (some d))
unfolding next_from
behind_root ss d a v = skip_key-Passes (count ss) d.0 ss (omega arith) a v

collect_from-All :
    (P : List ℕ × List ℕ → Type 0) (n : ℕ) (ss : List Entries) (r : Option (List ℕ × List ℕ))
    → Top ss r
    → All IsSorted ss
    → All (All P) ss
    → ((ss' : List Entries) → All IsSorted ss' → All (All P) ss' → All P (collect n ss'))
    → All P (collect_from (collect n (next_from ss r)) r)
unfolding collect_from
collect_from-All P n ss none t v h f = tt
collect_from-All P n ss (some d) (least _ a held passes) v h f =
    let r = behind_root ss d a v in (held P h, f _ r.sorted (r.holds P h))

collect-All :
    (P : List ℕ × List ℕ → Type 0) (n : ℕ) (ss : List Entries)
    → All IsSorted ss
    → All (All P) ss
    → All P (collect n ss)
unfolding collect
collect-All P zero ss v h = tt
collect-All P (suc n) ss v h = collect_from-All P n ss (top ss) (top-Top ss v) v h (collect-All P n)

collect_from-IsSorted :
    (n : ℕ) (ss : List Entries) (r : Option (List ℕ × List ℕ))
    → Top ss r
    → All IsSorted ss
    → ((ss' : List Entries) → All IsSorted ss' → IsSorted (collect n ss'))
    → IsSorted (collect_from (collect n (next_from ss r)) r)
unfolding collect_from
collect_from-IsSorted n ss none t v f = tt
collect_from-IsSorted n ss (some d) (least _ a held passes) v f =
    let r = behind_root ss d a v in
    (collect-All (λ x. Lt d.0 x.0) n _ r.sorted r.above, f _ r.sorted)

collect-IsSorted : (n : ℕ) (ss : List Entries) → All IsSorted ss → IsSorted (collect n ss)
unfolding collect
collect-IsSorted zero ss v = tt
collect-IsSorted (suc n) ss v =
    collect_from-IsSorted n ss (top ss) (top-Top ss v) v (collect-IsSorted n)

collect_from-has_key :
    (n : ℕ) (ss : List Entries) (r : Option (List ℕ × List ℕ))
    → top ss ≡ r
    → Top ss r
    → All IsSorted ss
    → count ss ≤ suc n
    → ((ss' : List Entries)
        → All IsSorted ss'
        → count ss' ≤ n
        → All (All (λ e. has_key (collect n ss') e.0 ≡ true)) ss')
    → All (All (λ e. has_key (collect_from (collect n (next_from ss r)) r) e.0 ≡ true)) ss
unfolding collect_from has_key next_from
collect_from-has_key n ss none e (all_passed c) v h f = passed _ ss c
collect_from-has_key n ss (some d) e (least _ a held passes) v h f =
    let r = behind_root ss d a v in
    r.keeps _ (λ x z. rw (same d.0 x.0 z) refl)
      (each (λ x k. or_later d.0 x.0 _ k) _
        (f _ r.sorted (
          omega (
            arith,
            skip_key-count (count ss) d.0 ss d (omega arith) a v e
                (ap is_zero (compare_bytes_self d.0)),
          ))))
  where
    same : (a b : List ℕ) → is_zero (compare_bytes b a) ≡ true → is_zero (compare_bytes a b) ≡ true
    same a b z = ground (arith, compare_bytes-flip b a)

    or_later :
        (a b : List ℕ) (c : Bool)
        → c ≡ true
        → (if is_zero (compare_bytes a b) then true else c) ≡ true
    or_later a b c k = ground arith

collect-has_key :
    (n : ℕ) (ss : List Entries)
    → All IsSorted ss
    → count ss ≤ n
    → All (All (λ e. has_key (collect n ss) e.0 ≡ true)) ss
unfolding collect
collect-has_key zero ss v h = passed _ ss (omega arith)
collect-has_key (suc n) ss v h =
    collect_from-has_key n ss (top ss) refl (top-Top ss v) v h (collect-has_key n)

-- An entry of some source.
abbrev pub InAny : List ℕ × List ℕ → List Entries → Type 0
InAny e [] = ⊥
InAny e (s ∷ ss) = In e s ⊎ InAny e ss

All-In_self :
    (P : List ℕ × List ℕ → Type 0) (es : Entries)
    → ((e : List ℕ × List ℕ) → In e es → P e)
    → All P es
All-In_self P [] f = tt
All-In_self P (e ∷ es) f = (f e (inl refl), All-In_self P es (λ x m. f x (inr m)))

All-InAny :
    (P : List ℕ × List ℕ → Type 0) (ss : List Entries)
    → ((e : List ℕ × List ℕ) → InAny e ss → P e)
    → All (All P) ss
All-InAny P [] f = tt
All-InAny P (s ∷ ss) f = (All-In_self P s (λ e m. f e (inl m)), All-InAny P ss (λ e m. f e (inr m)))

-- The merge of sorted sources is sorted, each key once; it has every key of every source, and each
-- of its entries is one of a source.
pub merge-IsSorted :
    (ss : List Entries)
    → All IsSorted ss
    → IsSorted (merge ss)
      × All (All (λ e. has_key (merge ss) e.0 ≡ true)) ss
      × All (λ e. InAny e ss) (merge ss)
unfolding merge
merge-IsSorted ss v = (
  collect-IsSorted (count ss) ss v,
  collect-has_key (count ss) ss v (omega arith),
  collect-All (λ e. InAny e ss) (count ss) ss v (All-InAny (λ e. InAny e ss) ss (λ e m. m)),
)
