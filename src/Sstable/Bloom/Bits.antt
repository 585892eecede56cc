-- ===== src/Sstable/Bloom/Bits.antt =====
-- Setting and testing single bits of a list of bytes.
use Prim.Native.Nat.{bit_and, bit_or}
use indexed_watch.Prelude.{
  ℕ, zero, suc, ◌+◌, ◌%◌, ◌/◌, ◌^◌, ◌<◌, ◌≡◌, refl, ap, sym, ◌∙◌, Bool, true, false, ◌&&◌, ◌||◌,
  List, [], ◌∷◌, length, length-set, get_or-set, get_or, set, replicate, ltb, ◌==◌, ==_iff, ==_self,
  subst, ltb→lt, if◌then◌else◌, arith, All, IsByte, Bool-cases, inl, inr, u32_mod,
}
use indexed_watch.Sstable.Bloom.{set_bit, test_bit, set_probes, test_probes, cache_line_size}

-- Over a small range, every value is checked by evaluation.
all_below : ℕ → (ℕ → Bool) → Bool
all_below zero p = true
all_below (suc n) p = p n && all_below n p

all_below_lem : (n : ℕ) (p : ℕ → Bool) (x : ℕ) → all_below n p ≡ true → x < n → p x ≡ true
unfolding all_below
all_below_lem zero p x h lt = absurd (omega arith)
all_below_lem (suc n) p x h lt = ground (arith, all_below_lem n p x)

abbrev same : Bool → Bool → Bool
same true b = b
same false true = false
same false false = true

abbrev has_bit : ℕ → ℕ → Bool
has_bit b j = if bit_and b (2 ^ j) == 0 then false else true

abbrev good_byte : ℕ → ℕ → ℕ → Bool
good_byte b i j =
    ltb (bit_or b (2 ^ i)) 256 && same (has_bit (bit_or b (2 ^ i)) j) (has_bit b j || i == j)

table : all_below 256 (λ b. all_below 8 (λ i. all_below 8 (good_byte b i))) ≡ true
unfolding all_below
table = refl

same_lem : (a b : Bool) → same a b ≡ true → a ≡ b
same_lem true b h = sym h
same_lem false true h = cc
same_lem false false h = refl

or_bit :
    (b i j : ℕ)
    → b < 256
    → i < 8
    → j < 8
    → (bit_or b (2 ^ i) < 256) × (has_bit (bit_or b (2 ^ i)) j ≡ (has_bit b j || i == j))
or_bit b i j hb hi hj =
    let row = all_below_lem 256 (λ x. all_below 8 (λ y. all_below 8 (good_byte x y))) b table hb in
    let cell =
      all_below_lem 8 (good_byte b i) j
        (all_below_lem 8 (λ y. all_below 8 (good_byte b y)) i row hi) hj in
    split (bit_or b (2 ^ i)) (has_bit (bit_or b (2 ^ i)) j) (has_bit b j || i == j) cell
  where
    split : (n : ℕ) (a c : Bool) → (ltb n 256 && same a c) ≡ true → (n < 256) × (a ≡ c)
    split n a c h = elim (Bool-cases (ltb n 256)) [
      | inl e ↦ (ltb→lt n 256 e, same_lem a c (ground arith))
      | inr e ↦ absurd (ground arith)
    ]

get_or-IsByte : (buf : List ℕ) (p : ℕ) → All IsByte buf → get_or buf p 0 < 256
get_or-IsByte [] p h = omega arith
get_or-IsByte (b ∷ buf) zero h = h.0
get_or-IsByte (b ∷ buf) (suc p) h = get_or-IsByte buf p h.1

All-set : (buf : List ℕ) (p x : ℕ) → All IsByte buf → x < 256 → All IsByte (set buf p x)
All-set [] p x h lt = tt
All-set (b ∷ buf) zero x h lt = (lt, h.1)
All-set (b ∷ buf) (suc p) x h lt = (h.0, All-set buf p x h.1 lt)

pub All-replicate : (n : ℕ) → All IsByte (replicate n 0)
All-replicate zero = tt
All-replicate (suc n) = (omega arith, All-replicate n)

-- A bit that was set is set, and the others that were set still are.
bit_at_same :
    (p i j : ℕ) (buf : List ℕ)
    → All IsByte buf
    → p < length buf
    → i < 8
    → j < 8
    → test_bit p j (set_bit p i buf) ≡ (test_bit p j buf || i == j)
unfolding test_bit set_bit
bit_at_same p i j buf v h hi hj =
    let here : get_or (set buf p (bit_or (get_or buf p 0) (2 ^ i))) p 0
        ≡ bit_or (get_or buf p 0) (2 ^ i) =
      get_or-set buf p p (bit_or (get_or buf p 0) (2 ^ i)) 0 h ∙ rw (==_self p) refl in
    ap (λ x. has_bit x j) here ∙ (or_bit (get_or buf p 0) i j (get_or-IsByte buf p v) hi hj).1

bit_at_other :
    (p i q j : ℕ) (buf : List ℕ)
    → p < length buf
    → (p == q) ≡ false
    → test_bit q j (set_bit p i buf) ≡ test_bit q j buf
unfolding test_bit set_bit
bit_at_other p i q j buf h e =
    ap (λ x. has_bit x j) (get_or-set buf p q (bit_or (get_or buf p 0) (2 ^ i)) 0 h ∙ rw e refl)

-- A list of bytes that has all the bits of another.
pub record Grows (buf buf' : List ℕ) : Type 0 where
  pub size : length buf' ≡ length buf
  pub bytes : All IsByte buf'
  pub keeps : (q j : ℕ) → j < 8 → test_bit q j buf ≡ true → test_bit q j buf' ≡ true

pub Grows-refl : (buf : List ℕ) → All IsByte buf → Grows buf buf
Grows-refl buf v = record { size = refl; bytes = v; keeps = λ q j h t. t }

pub Grows-trans : (a b c : List ℕ) → Grows a b → Grows b c → Grows a c
Grows-trans a b c g h = record {
  size = h.size ∙ g.size;
  bytes = h.bytes;
  keeps = λ q j l t. h.keeps q j l (g.keeps q j l t);
}

set_bit-Grows :
    (p i : ℕ) (buf : List ℕ) → All IsByte buf → p < length buf → i < 8 → Grows buf (set_bit p i buf)
set_bit-Grows p i buf v h hi = record {
  size = unfold set_bit in length-set buf p (bit_or (get_or buf p 0) (2 ^ i));
  bytes =
      unfold set_bit in
      All-set buf p (bit_or (get_or buf p 0) (2 ^ i)) v
        (or_bit (get_or buf p 0) i 0 (get_or-IsByte buf p v) hi (omega arith)).0;
  keeps = λ q j hj t. elim (Bool-cases (p == q)) [
    | inl e ↦ kept q j hj ((==_iff p q).0 e) t
    | inr e ↦ bit_at_other p i q j buf h e ∙ t
  ];
}
  where
    kept :
        (q j : ℕ) → j < 8 → p ≡ q → test_bit q j buf ≡ true → test_bit q j (set_bit p i buf) ≡ true
    kept q j hj e =
        subst (λ r. test_bit r j buf ≡ true → test_bit r j (set_bit p i buf) ≡ true) e
          (λ t. bit_at_same p i j buf v h hi hj ∙ rw t refl)

set_bit-sets :
    (p i : ℕ) (buf : List ℕ)
    → All IsByte buf
    → p < length buf
    → i < 8
    → test_bit p i (set_bit p i buf) ≡ true
set_bit-sets p i buf v h hi = bit_at_same p i i buf v h hi hi ∙ ground (arith, ==_self i)

pub set_probes-Grows :
    (n h delta off : ℕ) (buf : List ℕ)
    → All IsByte buf
    → off + 63 < length buf
    → Grows buf (set_probes n h delta off buf)
unfolding set_probes
set_probes-Grows zero h delta off buf v r = Grows-refl buf v
set_probes-Grows (suc n) h delta off buf v r =
    let one =
      set_bit-Grows (off + h / 8 % cache_line_size) (h % 8) buf v (omega arith) (omega arith) in
    Grows-trans buf _ _ one (
      set_probes-Grows n ((h + delta) % u32_mod) delta off
        (set_bit (off + h / 8 % cache_line_size) (h % 8) buf) one.bytes (omega (arith, one.size)))

pub test_probes-Grows :
    (n h delta off : ℕ) (buf buf' : List ℕ)
    → Grows buf buf'
    → test_probes n h delta off buf ≡ true
    → test_probes n h delta off buf' ≡ true
unfolding test_probes
test_probes-Grows zero h delta off buf buf' g t = refl
test_probes-Grows (suc n) h delta off buf buf' g t = ground (
  arith,
  g.keeps (off + h / 8 % cache_line_size) (h % 8) (omega arith),
  test_probes-Grows n ((h + delta) % u32_mod) delta off buf buf' g,
)

-- The probes of a hash that was just added all hit.
pub test_probes-set_probes :
    (n h delta off : ℕ) (buf : List ℕ)
    → All IsByte buf
    → off + 63 < length buf
    → test_probes n h delta off (set_probes n h delta off buf) ≡ true
unfolding test_probes set_probes
test_probes-set_probes zero h delta off buf v r = refl
test_probes-set_probes (suc n) h delta off buf v r =
    let p = off + h / 8 % cache_line_size in
    let i = h % 8 in
    let one = set_bit-Grows p i buf v (omega arith) (omega arith) in
    let more =
      set_probes-Grows n ((h + delta) % u32_mod) delta off (set_bit p i buf) one.bytes
        (omega (arith, one.size)) in
    let hit = more.keeps p i (omega arith) (set_bit-sets p i buf v (omega arith) (omega arith)) in
    rw hit (
      test_probes-set_probes n ((h + delta) % u32_mod) delta off (set_bit p i buf) one.bytes
        (omega (arith, one.size)))
