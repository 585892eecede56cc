-- ===== src/Bytes.antt =====
-- Byte strings: the comparison that the skiplist, the tables and the versions share
-- (pkg/lsm/sstable/block.go, pkg/lsm/version.go, pkg/lsm/skiplist/skiplist.go), the equality of
-- pkg/lsm/memtable/memtable.go, and what the program uses of Go's package `strings`.
pub mod Order
pub mod Varint
pub mod Fixed
use Prim.Native.Nat.{Ordering}
use indexed_watch.Prelude.{
  ℕ, ◌≡◌, refl, ◌↔◌, Bool, true, false, ◌&&◌, ◌||◌, List, [], ◌∷◌, arith, length, drop, ltb, ◌==◌,
  if◌then◌else◌, ◌-◌, Bool-cases, inl, inr, ==_iff, ==_self, ap,
}

-- `bytesEqual`: the lengths first, then each byte. Go's `==` on strings is the same test.
bytes_equal_loop : List ℕ → List ℕ → Bool
bytes_equal_loop [] b = true
bytes_equal_loop (x ∷ a) [] = false
bytes_equal_loop (x ∷ a) (y ∷ b) = if x == y then bytes_equal_loop a b else false

unfoldable pub bytes_equal : List ℕ → List ℕ → Bool
unfolding bytes_equal_loop
bytes_equal a b = if length a == length b then bytes_equal_loop a b else false

-- The results -1, 0 and 1 of the source are `lt`, `eq` and `gt`. The loop over the common length
-- is the clause on two bytes; when one side is used up the lengths decide.
unfoldable pub compare_bytes : List ℕ → List ℕ → Ordering
compare_bytes [] [] = Ordering.eq
compare_bytes [] (y ∷ b) = Ordering.lt
compare_bytes (x ∷ a) [] = Ordering.gt
compare_bytes (x ∷ a) (y ∷ b) =
    if ltb x y then Ordering.lt else if ltb y x then Ordering.gt else compare_bytes a b

-- Tests on a comparison's result: `c < 0`, `c <= 0`, `c == 0` and `c > 0`.
abbrev pub is_neg : Ordering → Bool
is_neg Ordering.lt = true
is_neg Ordering.eq = false
is_neg Ordering.gt = false

abbrev pub is_nonpos : Ordering → Bool
is_nonpos Ordering.lt = true
is_nonpos Ordering.eq = true
is_nonpos Ordering.gt = false

abbrev pub is_zero : Ordering → Bool
is_zero Ordering.lt = false
is_zero Ordering.eq = true
is_zero Ordering.gt = false

abbrev pub is_pos : Ordering → Bool
is_pos Ordering.lt = false
is_pos Ordering.eq = false
is_pos Ordering.gt = true

-- Go's strings.HasPrefix, strings.HasSuffix and strings.Contains.
has_prefix : List ℕ → List ℕ → Bool
has_prefix s [] = true
has_prefix [] (y ∷ p) = false
has_prefix (x ∷ s) (y ∷ p) = x == y && has_prefix s p

unfoldable pub has_suffix : List ℕ → List ℕ → Bool
unfolding bytes_equal
has_suffix s p =
    if ltb (length s) (length p) then false else bytes_equal (drop (length s - length p) s) p

unfoldable pub contains : List ℕ → List ℕ → Bool
unfolding has_prefix
contains [] p = has_prefix [] p
contains (x ∷ s) p = has_prefix (x ∷ s) p || contains s p

bytes_equal_loop_iff :
    (a b : List ℕ) → length a ≡ length b → (bytes_equal_loop a b ≡ true) ↔ (a ≡ b)
unfolding bytes_equal_loop
bytes_equal_loop_iff [] [] h = (λ e. refl, λ e. refl)
bytes_equal_loop_iff [] (y ∷ b) h = absurd (omega arith)
bytes_equal_loop_iff (x ∷ a) [] h = absurd (omega arith)
bytes_equal_loop_iff (x ∷ a) (y ∷ b) h =
    let ih = bytes_equal_loop_iff a b (omega arith) in
    (λ e. ground (arith, ih.0), λ e. ground (arith, ih.1))

-- `bytesEqual` decides equality.
pub bytes_equal_iff : (a b : List ℕ) → (bytes_equal a b ≡ true) ↔ (a ≡ b)
unfolding bytes_equal
bytes_equal_iff a b = elim (Bool-cases (length a == length b)) [
  | inl e ↦ rw e (bytes_equal_loop_iff a b ((==_iff _ _).0 e))
  | inr e ↦
      rw e (λ h. cc, λ h. cc (==_self (length a), ap (λ (t : List ℕ). length a == length t) h))
]
