-- ===== src/Bytes/Varint.antt =====
-- What the program uses of Go's package `encoding/binary` for variable-length integers:
-- PutUvarint and Uvarint on uint64, and `varintLen` of pkg/lsm/sstable/format.go.
use indexed_watch.Prelude.{
  ℕ, zero, suc, ◌+◌, ◌*◌, ◌/◌, ◌%◌, ◌^◌, ◌<◌, ◌≤◌, ◌≡◌, refl, List, [], ◌∷◌, ◌++◌, arith, length,
  ltb, if◌then◌else◌, u64_mod,
}

-- Uvarint's value and byte count; its count 0 (input too short); its negative counts (overflow).
pub data Varint : Type 0 where
  value : ℕ → ℕ → Varint
  short overflow : Varint

-- Seven bits a byte, lowest first, the top bit set on all but the last. A uint64 takes at most ten
-- bytes, so the loop makes nine rounds at most before its last byte.
unfoldable pub put_loop : ℕ → ℕ → List ℕ
put_loop zero x = x % 256 ∷ []
put_loop (suc k) x =
    let rest = put_loop k (x / 128) in if ltb x 128 then x ∷ [] else (x % 128 + 128) ∷ rest

unfoldable pub put_uvarint : ℕ → List ℕ
unfolding put_loop
put_uvarint x = put_loop 9 x

unfoldable pub shift_in : ℕ → Varint → Varint
shift_in b (value v n) = value (b % 128 + 128 * v) (n + 1)
shift_in b short = short
shift_in b overflow = overflow

-- The first argument is the number of bytes that may still follow this one.
unfoldable pub get_loop : ℕ → List ℕ → Varint
unfolding shift_in
get_loop k [] = short
get_loop zero (b ∷ []) = if ltb b 2 then value b 1 else if ltb b 128 then overflow else short
get_loop zero (b ∷ c ∷ rest) = if ltb b 2 then value b 1 else overflow
get_loop (suc k) (b ∷ rest) =
    let more = shift_in b (get_loop k rest) in if ltb b 128 then value b 1 else more

unfoldable pub uvarint : List ℕ → Varint
unfolding get_loop
uvarint src = get_loop 9 src

-- `varintLen`
unfoldable pub len_loop : ℕ → ℕ → ℕ
len_loop zero x = 1
len_loop (suc k) x = let more = len_loop k (x / 128) + 1 in if ltb x 128 then 1 else more

unfoldable pub varint_len : ℕ → ℕ
unfolding len_loop
varint_len x = len_loop 9 x

length-put_loop : (k x : ℕ) → length (put_loop k x) ≡ len_loop k x
unfolding put_loop len_loop
length-put_loop zero x = refl
length-put_loop (suc k) x = ground (arith, length-put_loop k (x / 128))

-- `varintLen` is the number of bytes that PutUvarint writes.
pub length-put_uvarint : (x : ℕ) → length (put_uvarint x) ≡ varint_len x
unfolding put_uvarint varint_len
length-put_uvarint x = length-put_loop 9 x

len_loop_bound : (k x : ℕ) → len_loop k x ≤ suc k
unfolding len_loop
len_loop_bound zero x = omega arith
len_loop_bound (suc k) x = ground (arith, len_loop_bound k (x / 128))

-- Ten bytes at most.
pub length-put_uvarint_bound : (x : ℕ) → length (put_uvarint x) ≤ 10
unfolding varint_len
length-put_uvarint_bound x = omega (arith, length-put_uvarint x, len_loop_bound 9 x)

shrinks : (k x : ℕ) → x < 128 ^ suc k * 2 → x / 128 < 128 ^ k * 2
shrinks k x h = omega arith

get_loop-zero : (x : ℕ) (rest : List ℕ) → x < 2 → get_loop 0 (x ∷ rest) ≡ value x 1
unfolding get_loop
get_loop-zero x [] h = ground arith
get_loop-zero x (c ∷ rest) h = ground arith

get_loop-put_loop :
    (k x : ℕ) (rest : List ℕ)
    → x < 128 ^ k * 2
    → get_loop k (put_loop k x ++ rest) ≡ value x (length (put_loop k x))
unfolding put_loop get_loop
get_loop-put_loop zero x rest h = ground (arith, get_loop-zero (x % 256) rest)
get_loop-put_loop (suc k) x rest h =
    ground (arith, shrinks k x h, get_loop-put_loop k (x / 128) rest)

-- Uvarint reads back what PutUvarint wrote of a uint64, and the number of bytes written.
pub uvarint-put_uvarint :
    (x : ℕ) (rest : List ℕ)
    → x < u64_mod
    → uvarint (put_uvarint x ++ rest) ≡ value x (length (put_uvarint x))
unfolding uvarint put_uvarint
uvarint-put_uvarint x rest h = get_loop-put_loop 9 x rest (omega arith)

put_loop_positive : (k x : ℕ) → 0 < length (put_loop k x)
unfolding put_loop
put_loop_positive zero x = omega arith
put_loop_positive (suc k) x = ground arith

pub put_uvarint_positive : (x : ℕ) → 0 < length (put_uvarint x)
unfolding put_uvarint
put_uvarint_positive x = put_loop_positive 9 x
