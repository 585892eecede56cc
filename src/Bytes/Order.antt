-- ===== src/Bytes/Order.antt =====
-- The order of byte strings that `compareKeys` of pkg/lsm/version.go computes.
use Prim.Native.Nat.{Ordering}
use indexed_watch.Prelude.{
  ℕ, ◌≡◌, refl, ap, sym, subst, true, false, Bool-cases, inl, inr, List, [], ◌∷◌, ◌++◌, arith,
}
use indexed_watch.Bytes.{compare_bytes, is_neg, is_pos, is_zero}

abbrev pub Lt : List ℕ → List ℕ → Type 0
Lt a b = compare_bytes a b ≡ Ordering.lt

abbrev pub flip : Ordering → Ordering
flip Ordering.lt = Ordering.gt
flip Ordering.eq = Ordering.eq
flip Ordering.gt = Ordering.lt

pub compare_bytes_self : (a : List ℕ) → compare_bytes a a ≡ Ordering.eq
unfolding compare_bytes
compare_bytes_self [] = refl
compare_bytes_self (x ∷ a) = ground (arith, compare_bytes_self a)

pub compare_bytes-flip : (a b : List ℕ) → compare_bytes b a ≡ flip (compare_bytes a b)
unfolding compare_bytes
compare_bytes-flip [] [] = refl
compare_bytes-flip [] (y ∷ b) = refl
compare_bytes-flip (x ∷ a) [] = refl
compare_bytes-flip (x ∷ a) (y ∷ b) = ground (arith, compare_bytes-flip a b)

pub compare_bytes_eq : (a b : List ℕ) → compare_bytes a b ≡ Ordering.eq → a ≡ b
unfolding compare_bytes
compare_bytes_eq [] [] h = refl
compare_bytes_eq [] (y ∷ b) h = cc
compare_bytes_eq (x ∷ a) [] h = cc
compare_bytes_eq (x ∷ a) (y ∷ b) h = ground (arith, compare_bytes_eq a b)

pub Lt_trans : (a b c : List ℕ) → Lt a b → Lt b c → Lt a c
unfolding compare_bytes
Lt_trans [] [] c h k = cc
Lt_trans [] (y ∷ b) [] h k = cc
Lt_trans [] (y ∷ b) (z ∷ c) h k = refl
Lt_trans (x ∷ a) [] c h k = cc
Lt_trans (x ∷ a) (y ∷ b) [] h k = cc
Lt_trans (x ∷ a) (y ∷ b) (z ∷ c) h k = ground (arith, Lt_trans a b c)

-- A common prefix does not matter.
pub compare_bytes-append : (p a b : List ℕ) → compare_bytes (p ++ a) (p ++ b) ≡ compare_bytes a b
unfolding compare_bytes
compare_bytes-append [] a b = refl
compare_bytes-append (x ∷ p) a b = ground (arith, compare_bytes-append p a b)

-- Strings that are not below one another.
pub not_below_trans :
    (x s b : List ℕ)
    → is_neg (compare_bytes x s) ≡ false
    → is_neg (compare_bytes s b) ≡ false
    → is_neg (compare_bytes x b) ≡ false
not_below_trans x s b h k = elim (Bool-cases (is_neg (compare_bytes x b))) [
  | inl l ↦ elim (Bool-cases (is_zero (compare_bytes x s))) [
    | inl z ↦ ground (arith, ap (λ w. compare_bytes w b) (compare_bytes_eq x s (ground arith)))
    | inr z ↦ ground (
      arith,
      compare_bytes-flip x s,
      Lt_trans s x b (ground (arith, compare_bytes-flip x s)) (ground arith),
    )
  ]
  | inr l ↦ l
]

pub above_trans :
    (x l y : List ℕ)
    → is_pos (compare_bytes x l) ≡ true
    → is_pos (compare_bytes y l) ≡ false
    → is_pos (compare_bytes x y) ≡ true
above_trans x l y h k = elim (Bool-cases (is_zero (compare_bytes y l))) [
  | inl z ↦
      subst (λ w. is_pos (compare_bytes x w) ≡ true) (sym (compare_bytes_eq y l (ground arith))) h
  | inr z ↦ ground (
    arith,
    compare_bytes-flip y x,
    Lt_trans y l x (ground arith) (ground (arith, compare_bytes-flip x l)),
  )
]

pub below_trans :
    (x s y : List ℕ)
    → is_neg (compare_bytes x s) ≡ true
    → is_neg (compare_bytes y s) ≡ false
    → is_neg (compare_bytes x y) ≡ true
below_trans x s y h k = elim (Bool-cases (is_zero (compare_bytes y s))) [
  | inl z ↦
      subst (λ w. is_neg (compare_bytes x w) ≡ true) (sym (compare_bytes_eq y s (ground arith))) h
  | inr z ↦ ground (arith, Lt_trans x s y (ground arith) (ground (arith, compare_bytes-flip y s)))
]

pub not_above_trans :
    (x l b : List ℕ)
    → is_pos (compare_bytes x l) ≡ false
    → is_pos (compare_bytes l b) ≡ false
    → is_pos (compare_bytes x b) ≡ false
not_above_trans x l b h k = elim (Bool-cases (is_pos (compare_bytes x b))) [
  | inl n ↦ ground (arith, above_trans x b l n k)
  | inr n ↦ n
]
