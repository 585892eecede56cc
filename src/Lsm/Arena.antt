-- ===== src/Lsm/Arena.antt =====
-- pkg/lsm/arena/arena.go: the bump allocator. The atomic counter and the capacity of the buffer
-- are the state; an allocation is one atomic addition, so calls happen one after another.
pub mod Disjoint
use native.Mathlib.Nat.{mod-lt, div-add-mod}
use indexed_watch.Prelude.{
  ℕ, ◌+◌, ◌-◌, ◌%◌, ◌^◌, ◌≤◌, ◌<◌, ◌≡◌, Option, none, some, arith, ltb, if◌then◌else◌, u32_mod,
  u64_mod,
}

pub record Arena : Type 0 where
  pub n : ℕ
  pub capacity : ℕ

abbrev pub max_size : ℕ
max_size = 2 ^ 32 - 1

unfoldable pub new : ℕ → Arena
new len_buf = record { n = 1; capacity = if ltb max_size len_buf then max_size else len_buf }

-- x & ^(alignment - 1), for an alignment that is a power of two: the low bits are cleared.
unfoldable pub align_down : ℕ → ℕ → ℕ
align_down x alignment = x - x % alignment

-- `none` is ErrFull. The counter has moved in either case.
unfoldable pub alloc : ℕ → ℕ → Arena → Option ℕ × Arena
alloc size alignment a =
    let padded = size + alignment - 1 in
    let new_size = (a.n + padded) % u64_mod in
    if ltb a.capacity new_size then (none, record a { n = new_size }) else (
      some (align_down ((new_size % u32_mod + u32_mod - size) % u32_mod) alignment),
      record a { n = new_size },
    )

unfoldable pub size : Arena → ℕ
size a = if ltb a.capacity a.n then a.capacity else a.n % u32_mod

unfoldable pub reset : Arena → Arena
reset a = record a { n = 1 }

-- A call of `Alloc`: its size and alignment are uint32 and the alignment is not 0.
pub record Request : Type 0 where
  pub size : ℕ
  pub alignment : ℕ

pub record IsRequest (q : Request) : Type 0 where
  pub size_fits : q.size < u32_mod
  pub alignment_fits : q.alignment < u32_mod
  pub alignment_positive : 0 < q.alignment

-- The counter does not wrap: each call adds less than 2 ^ 33 to it.
pub record IsValid (a : Arena) : Type 0 where
  pub started : 1 ≤ a.n
  pub capacity_fits : a.capacity ≤ max_size
  pub room : a.n < 2 ^ 63

pub new-IsValid : (k : ℕ) → IsValid (new k)
unfolding new
new-IsValid k = ground arith

aligned :
    (x a : ℕ) → 0 < a → (align_down x a % a ≡ 0) × (align_down x a ≤ x) × (x < align_down x a + a)
unfolding align_down
aligned x a h = (grind (arith, div-add-mod x a), omega arith, omega (arith, mod-lt x h))

-- What a successful call computes: nothing wraps.
alloc_value :
    (q : Request) (a : Arena) (offset : ℕ)
    → IsRequest q
    → IsValid a
    → (alloc q.size q.alignment a).0 ≡ some offset
    → (align_down (a.n + q.alignment - 1) q.alignment ≡ offset)
      × ((alloc q.size q.alignment a).1.n ≡ a.n + q.size + q.alignment - 1)
      × ((alloc q.size q.alignment a).1.n ≤ a.capacity)
unfolding alloc
alloc_value q a offset h v e = (ground arith, ground arith, ground arith)

-- A successful allocation is aligned, does not start at the sentinel 0, and lies between the old
-- counter and the new one, which is within the capacity.
pub alloc_region :
    (q : Request) (a : Arena) (offset : ℕ)
    → IsRequest q
    → IsValid a
    → (alloc q.size q.alignment a).0 ≡ some offset
    → (offset % q.alignment ≡ 0)
      × (a.n ≤ offset)
      × (offset + q.size ≤ (alloc q.size q.alignment a).1.n)
      × ((alloc q.size q.alignment a).1.n ≤ a.capacity)
alloc_region q a offset h v e =
    let (o, n, c) = alloc_value q a offset h v e in
    let (d, l, g) = aligned (a.n + q.alignment - 1) q.alignment h.alignment_positive in
    (rw (← o) d, omega arith, omega arith, c)
