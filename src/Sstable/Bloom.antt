-- ===== src/Sstable/Bloom.antt =====
-- pkg/lsm/sstable/bloom.go: the bloom filter. A byte is a number below 256 and a hash is a uint32.
-- The product with math.Ln2, a float, is a parameter.
pub mod Bits
pub mod Members
pub mod Tests
use Prim.Native.Nat.{bit_and, bit_or, bit_xor}
use indexed_watch.Prelude.{
  ℕ, zero, suc, ◌+◌, ◌-◌, ◌*◌, ◌/◌, ◌%◌, ◌^◌, Bool, true, false, ◌||◌, Option, none, some, List, [],
  ◌∷◌, ◌++◌, length, take, drop, get_or, set, replicate, ltb, ◌==◌, if◌then◌else◌, u32_mod,
}
use indexed_watch.Bytes.Fixed.{le_bytes, le_read}

abbrev pub cache_line_size : ℕ
cache_line_size = 64

abbrev pub cache_line_bits : ℕ
cache_line_bits = 512

abbrev pub seed : ℕ
seed = 0xbc9f1d34

abbrev pub m : ℕ
m = 0xc6a4a793

-- uint32(int8(b))
unfoldable pub sign_extend : ℕ → ℕ
sign_extend b = if ltb b 128 then b else b + (u32_mod - 256)

-- One round of the loop over words of four bytes.
unfoldable pub mix_word : ℕ → ℕ → ℕ
mix_word h w = let x = (h + w) % u32_mod * m % u32_mod in bit_xor x (x / 2 ^ 16)

-- The last case of the switch, into which the others fall through.
unfoldable pub mix_last : ℕ → ℕ → ℕ
mix_last h b = let x = (h + sign_extend b) % u32_mod * m % u32_mod in bit_xor x (x / 2 ^ 24)

unfoldable pub hash_words : ℕ → List ℕ → ℕ
hash_words h [] = h
hash_words h (a ∷ []) = mix_last h a
hash_words h (a ∷ b ∷ []) = mix_last ((h + sign_extend b * 2 ^ 8 % u32_mod) % u32_mod) a
hash_words h (a ∷ b ∷ c ∷ []) =
    mix_last
      (((h + sign_extend c * 2 ^ 16 % u32_mod) % u32_mod + sign_extend b * 2 ^ 8 % u32_mod)
        % u32_mod)
      a
hash_words h (a ∷ b ∷ c ∷ d ∷ rest) =
    hash_words (mix_word h (a + 256 * (b + 256 * (c + 256 * d)))) rest

unfoldable pub bloom_hash : List ℕ → ℕ
bloom_hash key = hash_words (bit_xor seed (length key * m % u32_mod)) key

-- (h >> 17) | (h << 15)
unfoldable pub delta_of : ℕ → ℕ
delta_of h = bit_or (h / 2 ^ 17) (h * 2 ^ 15 % u32_mod)

unfoldable pub calc_n_lines : ℕ → ℕ → ℕ
calc_n_lines num_keys bits_per_key =
    let n_lines = (num_keys * bits_per_key + cache_line_bits - 1) / cache_line_bits in
    let at_least_one = if ltb n_lines 1 then 1 else n_lines in
    if at_least_one % 2 == 0 then at_least_one + 1 else at_least_one

-- buf[at] |= 1 << bit
unfoldable pub set_bit : ℕ → ℕ → List ℕ → List ℕ
set_bit at bit buf = set buf at (bit_or (get_or buf at 0) (2 ^ bit))

-- data[at] & (1 << bit) != 0
unfoldable pub test_bit : ℕ → ℕ → List ℕ → Bool
test_bit at bit data_bytes = if bit_and (get_or data_bytes at 0) (2 ^ bit) == 0 then false else true

-- The inner loop of `finish`: the number of probes, the hash, the delta and the line's offset.
unfoldable pub set_probes : ℕ → ℕ → ℕ → ℕ → List ℕ → List ℕ
set_probes zero h delta off buf = buf
set_probes (suc n) h delta off buf =
    set_probes n ((h + delta) % u32_mod) delta off
      (set_bit (off + h / 8 % cache_line_size) (h % 8) buf)

-- The loop of `mayContain`.
unfoldable pub test_probes : ℕ → ℕ → ℕ → ℕ → List ℕ → Bool
test_probes zero h delta off buf = true
test_probes (suc n) h delta off buf =
    let rest = test_probes n ((h + delta) % u32_mod) delta off buf in
    if test_bit (off + h / 8 % cache_line_size) (h % 8) buf then rest else false

abbrev pub line_off : ℕ → ℕ → ℕ
line_off h n_lines = h % n_lines * cache_line_size

unfoldable pub add_hashes : ℕ → ℕ → List ℕ → List ℕ → List ℕ
add_hashes num_probes n_lines [] buf = buf
add_hashes num_probes n_lines (h ∷ hs) buf =
    add_hashes num_probes n_lines hs (set_probes num_probes h (delta_of h) (line_off h n_lines) buf)

pub record BloomFilterWriter : Type 0 where
  pub hashes : List ℕ
  pub bits_per_key : ℕ

unfoldable pub new_bloom_filter_writer : ℕ → BloomFilterWriter
new_bloom_filter_writer bits_per_key = record { hashes = []; bits_per_key = bits_per_key }

unfoldable pub add_key : List ℕ → BloomFilterWriter → BloomFilterWriter
add_key key w = record w { hashes = w.hashes ++ bloom_hash key ∷ [] }

unfoldable pub reset : BloomFilterWriter → BloomFilterWriter
reset w = record w { hashes = [] }

pub record BloomFilter : Type 0 where
  pub data_bytes : List ℕ
  pub num_probes : ℕ
  pub n_lines : ℕ

-- int(float64(bitsPerKey) * math.Ln2), between 1 and 30
unfoldable pub calc_num_probes : (ℕ → ℕ) → ℕ → ℕ
calc_num_probes times_ln2 bits_per_key =
    let n = times_ln2 bits_per_key in if ltb n 1 then 1 else if ltb 30 n then 30 else n

-- The filter's bytes, and behind them the five bytes of the trailer; `none` is nil.
unfoldable pub finish : (ℕ → ℕ) → BloomFilterWriter → Option (List ℕ)
finish times_ln2 w =
    let num_probes = calc_num_probes times_ln2 w.bits_per_key in
    let n_lines = calc_n_lines (length w.hashes) w.bits_per_key in
    if length w.hashes == 0
    then none
    else some (
        add_hashes num_probes (n_lines % u32_mod) w.hashes (replicate (n_lines * cache_line_size) 0)
        ++ num_probes % 256 ∷ le_bytes 4 (n_lines % u32_mod))

unfoldable pub decode_bloom_filter : List ℕ → Option BloomFilter
decode_bloom_filter block =
    let filter_data = take (length block - 5) block in
    if ltb (length block) 5 then none else elim (le_read 4 (drop (length block - 4) block)) [
      | none ↦ none
      | some n_lines ↦
          if length filter_data == n_lines * cache_line_size
          then some (record {
            data_bytes = filter_data;
            num_probes = get_or block (length block - 5) 0;
            n_lines = n_lines;
          })
          else none
    ]

-- A nil filter, or one without lines, holds every key.
unfoldable pub may_contain : Option BloomFilter → List ℕ → Bool
may_contain none key = true
may_contain (some f) key =
    let h = bloom_hash key in
    if f.n_lines == 0
    then true
    else test_probes f.num_probes h (delta_of h) (line_off h f.n_lines) f.data_bytes
