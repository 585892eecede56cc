-- ===== src/Sstable/Separator.antt =====
-- `shortSeparator` and `shortSuccessor` of pkg/lsm/sstable/writer.go: the keys of the index block.
use Prim.Native.Nat.{Ordering}
use indexed_watch.Prelude.{
  ℕ, suc, ◌+◌, ◌<◌, ◌≡◌, refl, ◌&&◌, List, [], ◌∷◌, ◌++◌, Option, none, some, arith, length, take,
  get_or, ltb, ◌==◌, if◌then◌else◌, ◌⊎◌, inl, inr, Option-cases,
}
use indexed_watch.Bytes.{compare_bytes}
use indexed_watch.Bytes.Order.{Lt, compare_bytes_self}

-- for shared < n && a[shared] == b[shared] { shared++ }
unfoldable pub common_prefix : List ℕ → List ℕ → ℕ
common_prefix [] b = 0
common_prefix (x ∷ a) [] = 0
common_prefix (x ∷ a) (y ∷ b) = if x == y then suc (common_prefix a b) else 0

-- Where the second key is a proper prefix of the first, Go would index behind its end; keys that rise
-- never are.
unfoldable pub short_separator : List ℕ → List ℕ → List ℕ
short_separator a b =
    let shared = common_prefix a b in
    if shared == length a
    then a
    else if ltb (get_or a shared 0) 0xff && ltb (get_or a shared 0 + 1) (get_or b shared 0)
    then take shared a ++ (get_or a shared 0 + 1) ∷ []
    else a

-- The loop from the last index down: the first byte below 255 that it meets. `none` is the end of
-- the loop. The clauses go through the rest of the key first.
unfoldable pub successor_from : List ℕ → Option (List ℕ)
successor_from [] = none
successor_from (x ∷ a) = elim (successor_from a) [
  | some s ↦ some (x ∷ s)
  | none ↦ if ltb x 0xff then some ((x + 1) ∷ []) else none
]

unfoldable pub short_successor : List ℕ → List ℕ
unfolding successor_from
short_successor a = elim (successor_from a) [ some s ↦ s | none ↦ a ]

-- a ≤ b as byte strings
abbrev pub Le : List ℕ → List ℕ → Type 0
Le a b = (compare_bytes a b ≡ Ordering.lt) ⊎ (compare_bytes a b ≡ Ordering.eq)

short_separator-cons :
    (x : ℕ) (a b : List ℕ) → short_separator (x ∷ a) (x ∷ b) ≡ x ∷ short_separator a b
unfolding short_separator common_prefix
short_separator-cons x a b = ground arith

compare_bytes-cons : (x : ℕ) (a b : List ℕ) → compare_bytes (x ∷ a) (x ∷ b) ≡ compare_bytes a b
unfolding compare_bytes
compare_bytes-cons x a b = ground arith

-- The heads differ.
short_separator-diff :
    (x y : ℕ) (a b : List ℕ)
    → x < y
    → Le (x ∷ a) (short_separator (x ∷ a) (y ∷ b)) × Lt (short_separator (x ∷ a) (y ∷ b)) (y ∷ b)
unfolding short_separator common_prefix compare_bytes
short_separator-diff x y a b h = ground (arith, compare_bytes_self a)

heads : (x y : ℕ) (a b : List ℕ) → Lt (x ∷ a) (y ∷ b) → (x < y) ⊎ ((x ≡ y) × Lt a b)
unfolding compare_bytes
heads x y a b h = ground arith

-- Between two keys in order, the separator is at least the first and below the second.
pub short_separator_bounds :
    (a b : List ℕ) → Lt a b → Le a (short_separator a b) × Lt (short_separator a b) b
short_separator_bounds [] [] h = unfold compare_bytes in absurd (cc h)
short_separator_bounds [] (y ∷ b) h =
    unfold short_separator common_prefix compare_bytes in (inr refl, refl)
short_separator_bounds (x ∷ a) [] h = unfold compare_bytes in absurd (cc h)
short_separator_bounds (x ∷ a) (y ∷ b) h = elim (heads x y a b h) [
  | inl d ↦ short_separator-diff x y a b d
  | inr (e, l) ↦ rw (← e) (
      rw (short_separator-cons x a b, compare_bytes-cons, compare_bytes-cons)
        (short_separator_bounds a b l))
]

successor_from-lt : (a s : List ℕ) → successor_from a ≡ some s → compare_bytes a s ≡ Ordering.lt
unfolding successor_from compare_bytes
successor_from-lt [] s h = cc
successor_from-lt (x ∷ a) s h = elim (Option-cases (successor_from a)) [
  | inl n ↦ ground arith
  | inr (t, e) ↦ ground (arith, successor_from-lt a t e)
]

-- The successor of a key is at least the key.
pub short_successor-le : (a : List ℕ) → Le a (short_successor a)
unfolding short_successor
short_successor-le a = elim (Option-cases (successor_from a)) [
  | inl n ↦ rw (n, short_successor) (inr (compare_bytes_self a))
  | inr (s, e) ↦ rw (e, short_successor) (inl (successor_from-lt a s e))
]
