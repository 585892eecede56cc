-- ===== src/Sstable/Block/SharedPrefix.antt =====
-- `sharedPrefix` of pkg/lsm/sstable/block.go against the plain longest common prefix.
use indexed_watch.Prelude.{
  ℕ, zero, suc, ◌+◌, ◌≤◌, ◌<◌, ◌≡◌, true, List, [], ◌∷◌, arith, length, get_or, take, ltb,
  if◌then◌else◌,
}
use indexed_watch.Sstable.Separator.{common_prefix}
use indexed_watch.Sstable.Block.{same_eight, chunk_loop, byte_loop, shared_prefix}

pub common_prefix-le :
    (a b : List ℕ) → (common_prefix a b ≤ length a) × (common_prefix a b ≤ length b)
unfolding common_prefix
common_prefix-le [] b = omega arith
common_prefix-le (x ∷ a) [] = omega arith
common_prefix-le (x ∷ a) (y ∷ b) = ground (arith, common_prefix-le a b)

-- A common prefix grows by an equal byte, and the longest one cannot.
common_prefix-step :
    (a b : List ℕ) (i : ℕ)
    → i ≤ common_prefix a b
    → i < length a
    → i < length b
    → get_or a i 0 ≡ get_or b i 0
    → i + 1 ≤ common_prefix a b
unfolding common_prefix
common_prefix-step [] b i h p q e = absurd (omega arith)
common_prefix-step (x ∷ a) [] i h p q e = absurd (omega arith)
common_prefix-step (x ∷ a) (y ∷ b) zero h p q e = ground arith
common_prefix-step (x ∷ a) (y ∷ b) (suc i) h p q e = ground (arith, common_prefix-step a b i)

common_prefix-agree : (a b : List ℕ) (i : ℕ) → i < common_prefix a b → get_or a i 0 ≡ get_or b i 0
unfolding common_prefix
common_prefix-agree [] b i h = absurd (omega arith)
common_prefix-agree (x ∷ a) [] i h = absurd (omega arith)
common_prefix-agree (x ∷ a) (y ∷ b) zero h = ground arith
common_prefix-agree (x ∷ a) (y ∷ b) (suc i) h = ground (arith, common_prefix-agree a b i)

byte_loop-eq :
    (fuel : ℕ) (a b : List ℕ) (n i : ℕ)
    → n ≤ length a
    → n ≤ length b
    → common_prefix a b ≤ n
    → i ≤ common_prefix a b
    → n ≤ fuel + i
    → byte_loop fuel a b n i ≡ common_prefix a b
unfolding byte_loop
byte_loop-eq zero a b n i p q c h f = omega arith
byte_loop-eq (suc fuel) a b n i p q c h f =
    ground
      (arith, common_prefix-step a b i, common_prefix-agree a b i, byte_loop-eq fuel a b n (i + 1))

same_eight-at :
    (a b : List ℕ) (i : ℕ)
    → same_eight a b i ≡ true
    → i ≤ common_prefix a b
    → i + 8 ≤ length a
    → i + 8 ≤ length b
    → i + 8 ≤ common_prefix a b
unfolding same_eight
same_eight-at a b i e h p q = ground (
  arith,
  common_prefix-step a b i,
  common_prefix-step a b (i + 1),
  common_prefix-step a b (i + 2),
  common_prefix-step a b (i + 3),
  common_prefix-step a b (i + 4),
  common_prefix-step a b (i + 5),
  common_prefix-step a b (i + 6),
  common_prefix-step a b (i + 7),
)

chunk_loop-le :
    (fuel : ℕ) (a b : List ℕ) (n i : ℕ)
    → n ≤ length a
    → n ≤ length b
    → i ≤ common_prefix a b
    → chunk_loop fuel a b n i ≤ common_prefix a b
unfolding chunk_loop
chunk_loop-le zero a b n i p q h = h
chunk_loop-le (suc fuel) a b n i p q h =
    ground (arith, same_eight-at a b i, chunk_loop-le fuel a b n (i + 8))

-- The routine with its fast path of eight bytes a round finds the longest common prefix.
pub shared_prefix-eq : (a b : List ℕ) → shared_prefix a b ≡ common_prefix a b
unfolding shared_prefix
shared_prefix-eq a b =
    let n = if ltb (length b) (length a) then length b else length a in
    let p : n ≤ length a = ground arith in
    let q : n ≤ length b = ground arith in
    let (c, d) = common_prefix-le a b in
    byte_loop-eq n a b n _ p q (ground arith) (chunk_loop-le n a b n 0 p q (omega arith))
      (omega arith)

pub take-common_prefix : (a b : List ℕ) → take (common_prefix a b) a ≡ take (common_prefix a b) b
unfolding common_prefix
take-common_prefix [] b = ground arith
take-common_prefix (x ∷ a) [] = ground arith
take-common_prefix (x ∷ a) (y ∷ b) = ground (arith, take-common_prefix a b)

pub shared_prefix-le :
    (a b : List ℕ) → (shared_prefix a b ≤ length a) × (shared_prefix a b ≤ length b)
shared_prefix-le a b = rw shared_prefix-eq (common_prefix-le a b)

-- What the two keys share is at the head of both.
pub take-shared_prefix : (a b : List ℕ) → take (shared_prefix a b) a ≡ take (shared_prefix a b) b
take-shared_prefix a b = rw shared_prefix-eq (take-common_prefix a b)
