-- ===== src/Bytes/Fixed.antt =====
-- What the program uses of Go's package `encoding/binary` for fixed-width integers:
-- LittleEndian and BigEndian, 4 and 8 bytes. A read past the end is Go's panic, here `none`.
use native.Mathlib.Nat.{mod-eq_of_lt, mod-lt, div-add-mod}
use indexed_watch.Prelude.{
  ℕ, zero, suc, ◌+◌, ◌*◌, ◌/◌, ◌%◌, ◌^◌, ◌<◌, ◌≡◌, refl, ap, Option, none, some, List, [], ◌∷◌,
  ◌++◌, arith, length, ◌⊎◌, inl, inr, lt→ltb, le→ltb_false, append-nil,
}
use indexed_watch.Bytes.{compare_bytes}
use indexed_watch.Bytes.Order.{Lt}

unfoldable pub le_bytes : ℕ → ℕ → List ℕ
le_bytes zero x = []
le_bytes (suc n) x = x % 256 ∷ le_bytes n (x / 256)

unfoldable pub le_read : ℕ → List ℕ → Option ℕ
le_read zero src = some 0
le_read (suc n) [] = none
le_read (suc n) (b ∷ src) = elim (le_read n src) [ none ↦ none | some v ↦ some (b + 256 * v) ]

-- The top byte first: `n` more follow it.
unfoldable pub be_bytes : ℕ → ℕ → List ℕ
be_bytes zero x = []
be_bytes (suc n) x = x / 256 ^ n % 256 ∷ be_bytes n (x % 256 ^ n)

unfoldable pub be_read : ℕ → List ℕ → Option ℕ
be_read zero src = some 0
be_read (suc n) [] = none
be_read (suc n) (b ∷ src) = elim (be_read n src) [ none ↦ none | some v ↦ some (b * 256 ^ n + v) ]

pub length-le_bytes : (n x : ℕ) → length (le_bytes n x) ≡ n
unfolding le_bytes
length-le_bytes zero x = refl
length-le_bytes (suc n) x = ap suc (length-le_bytes n (x / 256))

pub length-be_bytes : (n x : ℕ) → length (be_bytes n x) ≡ n
unfolding be_bytes
length-be_bytes zero x = refl
length-be_bytes (suc n) x = ap suc (length-be_bytes n (x % 256 ^ n))

pub le_read-le_bytes :
    (n x : ℕ) (rest : List ℕ) → x < 256 ^ n → le_read n (le_bytes n x ++ rest) ≡ some x
unfolding le_read le_bytes
le_read-le_bytes zero x rest h = ground arith
le_read-le_bytes (suc n) x rest h =
    rw (le_read-le_bytes n (x / 256) rest (omega arith), le_read) (ap some (omega arith))

pub le_read_short : (n : ℕ) (src : List ℕ) → length src < n → le_read n src ≡ none
unfolding le_read
le_read_short zero src h = absurd (omega arith)
le_read_short (suc n) [] h = refl
le_read_short (suc n) (b ∷ src) h = rw (le_read_short n src (omega arith), le_read) refl

pow_pos : (n : ℕ) → 0 < 256 ^ n
pow_pos zero = omega arith
pow_pos (suc n) = omega (arith, pow_pos n)

-- The top digit of x in base m, and what it leaves.
digit_lt : (x m : ℕ) → 0 < m → x < 256 * m → x / m < 256
digit_lt x m p h = grind (arith, div-add-mod x m)

top_digit : (n x : ℕ) → x < 256 ^ suc n → x / 256 ^ n % 256 ≡ x / 256 ^ n
top_digit n x h = mod-eq_of_lt (digit_lt x (256 ^ n) (pow_pos n) (omega arith))

rest_lt : (n x : ℕ) → x % 256 ^ n < 256 ^ n
rest_lt n x = omega (arith, pow_pos n, mod-lt x (pow_pos n))

pub be_read-be_bytes :
    (n x : ℕ) (rest : List ℕ) → x < 256 ^ n → be_read n (be_bytes n x ++ rest) ≡ some x
unfolding be_read be_bytes
be_read-be_bytes zero x rest h = ground arith
be_read-be_bytes (suc n) x rest h =
    rw (be_read-be_bytes n (x % 256 ^ n) rest (rest_lt n x), be_read)
      (ap some (rw (top_digit n x h) (omega (arith, div-add-mod x (256 ^ n)))))

digits_lt : (x y m : ℕ) → 0 < m → x < y → (x / m < y / m) ⊎ ((x / m ≡ y / m) × (x % m < y % m))
digits_lt x y m p h = grind (arith, div-add-mod x m, div-add-mod y m, mod-lt x p, mod-lt y p)

-- Big-endian numbers of one width compare as byte strings in the order of the numbers.
pub Lt-be_bytes :
    (n x y : ℕ) (a b : List ℕ) → x < y → y < 256 ^ n → Lt (be_bytes n x ++ a) (be_bytes n y ++ b)
unfolding be_bytes compare_bytes
Lt-be_bytes zero x y a b h k = absurd (omega arith)
Lt-be_bytes (suc n) x y a b h k = elim (digits_lt x y (256 ^ n) (pow_pos n) h) [
  | inl d ↦ rw (top_digit n x (omega arith), top_digit n y k) (rw (lt→ltb _ _ d))
  | inr (e, d) ↦
      rw (top_digit n x (omega arith), top_digit n y k)
        (rw
          (
            le→ltb_false (x / 256 ^ n) (y / 256 ^ n) (omega arith),
            le→ltb_false (y / 256 ^ n) (x / 256 ^ n) (omega arith),
          )
          (Lt-be_bytes n (x % 256 ^ n) (y % 256 ^ n) a b d (rest_lt n y)))
]

pub Lt-be_bytes_all : (n x y : ℕ) → x < y → y < 256 ^ n → Lt (be_bytes n x) (be_bytes n y)
Lt-be_bytes_all n x y h k =
    rw (append-nil (be_bytes n x), append-nil (be_bytes n y)) at (Lt-be_bytes n x y [] [] h k)
