-- ===== src/Sstable/Bloom/Members.antt =====
-- What `mayContain` of pkg/lsm/sstable/bloom.go says of the keys that were added.
use native.Mathlib.Nat.{mod-lt, mod-eq_of_lt}
use indexed_watch.Prelude.{
  ℕ, suc, ◌+◌, ◌-◌, ◌*◌, ◌%◌, ◌<◌, ◌≡◌, refl, ap, sym, ◌∙◌, subst, true, false, some, List, [], ◌∷◌,
  ◌++◌, append_assoc, append-nil, length, length-append, length-replicate, take, drop, take_front,
  drop_front, get_or, replicate, ltb, ◌==◌, arith, All, IsByte, u32_mod,
}
use indexed_watch.Bytes.Fixed.{le_bytes, le_read, le_read-le_bytes, length-le_bytes}
use indexed_watch.Sstable.Bloom.{
  bloom_hash, delta_of, calc_n_lines, calc_num_probes, cache_line_size, line_off, test_probes,
  add_hashes, BloomFilterWriter, new_bloom_filter_writer, add_key, BloomFilter, finish,
  decode_bloom_filter, may_contain,
}
use indexed_watch.Sstable.Bloom.Bits.{
  Grows, Grows-refl, Grows-trans, set_probes-Grows, test_probes-Grows, test_probes-set_probes,
  All-replicate,
}

-- Calls of `addKey` in order.
unfoldable pub add_keys : List (List ℕ) → BloomFilterWriter → BloomFilterWriter
add_keys [] w = w
add_keys (key ∷ keys) w = add_keys keys (add_key key w)

hash_all : List (List ℕ) → List ℕ
hash_all [] = []
hash_all (key ∷ keys) = bloom_hash key ∷ hash_all keys

add_keys-hashes :
    (keys : List (List ℕ)) (w : BloomFilterWriter)
    → add_keys keys w ≡ record { hashes = w.hashes ++ hash_all keys; bits_per_key = w.bits_per_key }
unfolding add_keys hash_all add_key
add_keys-hashes [] w =
    ap (λ l. record { hashes = l; bits_per_key = w.bits_per_key }) (sym (append-nil w.hashes))
add_keys-hashes (key ∷ keys) w =
    add_keys-hashes keys (record w { hashes = w.hashes ++ bloom_hash key ∷ [] })
    ∙ ap (λ l. record { hashes = l; bits_per_key = w.bits_per_key })
        (append_assoc w.hashes (bloom_hash key ∷ []) (hash_all keys))

length-hash_all : (keys : List (List ℕ)) → length (hash_all keys) ≡ length keys
unfolding hash_all
length-hash_all [] = refl
length-hash_all (key ∷ keys) = ap suc (length-hash_all keys)

module _ (n lines : ℕ) (some_lines : 0 < lines) where
  room : (h size : ℕ) → size ≡ lines * cache_line_size → line_off h lines + 63 < size
  room h size e = omega (arith, mod-lt h some_lines)

  abbrev Hits : ℕ → List ℕ → Type 0
  Hits h buf = test_probes n h (delta_of h) (line_off h lines) buf ≡ true

  add_hashes-Grows :
      (hs buf : List ℕ)
      → All IsByte buf
      → length buf ≡ lines * cache_line_size
      → Grows buf (add_hashes n lines hs buf)
  unfolding add_hashes
  add_hashes-Grows [] buf v e = Grows-refl buf v
  add_hashes-Grows (h ∷ hs) buf v e =
      let one =
        set_probes-Grows n h (delta_of h) (line_off h lines) buf v (room h (length buf) e) in
      Grows-trans buf _ _ one (add_hashes-Grows hs _ one.bytes (one.size ∙ e))

  add_hashes-Hits :
      (before : List ℕ) (h : ℕ) (after buf : List ℕ)
      → All IsByte buf
      → length buf ≡ lines * cache_line_size
      → Hits h (add_hashes n lines (before ++ h ∷ after) buf)
  unfolding add_hashes
  add_hashes-Hits [] h after buf v e =
      let one =
        set_probes-Grows n h (delta_of h) (line_off h lines) buf v (room h (length buf) e) in
      test_probes-Grows n h (delta_of h) (line_off h lines) _ _
        (add_hashes-Grows after _ one.bytes (one.size ∙ e))
        (test_probes-set_probes n h (delta_of h) (line_off h lines) buf v (room h (length buf) e))
  add_hashes-Hits (b ∷ before) h after buf v e =
      let one =
        set_probes-Grows n b (delta_of b) (line_off b lines) buf v (room b (length buf) e) in
      add_hashes-Hits before h after _ one.bytes (one.size ∙ e)

get_or_front : (xs ys : List ℕ) (y : ℕ) → get_or (xs ++ y ∷ ys) (length xs) 0 ≡ y
get_or_front [] ys y = refl
get_or_front (x ∷ xs) ys y = get_or_front xs ys y

decode_parts :
    (block bytes : List ℕ) (probes lines : ℕ)
    → ltb (length block) 5 ≡ false
    → le_read 4 (drop (length block - 4) block) ≡ some lines
    → take (length block - 5) block ≡ bytes
    → (length bytes == lines * cache_line_size) ≡ true
    → get_or block (length block - 5) 0 ≡ probes
    → decode_bloom_filter block
      ≡ some (record { data_bytes = bytes; num_probes = probes; n_lines = lines })
unfolding decode_bloom_filter
decode_parts block bytes probes lines size counted front whole probe =
    rw (size, decode_bloom_filter) (rw counted (rw front (rw (whole, probe) refl)))

-- The filter's bytes with their trailer are decoded into the filter.
decode-trailer :
    (bytes : List ℕ) (probes lines : ℕ)
    → lines < u32_mod
    → length bytes ≡ lines * cache_line_size
    → decode_bloom_filter (bytes ++ probes ∷ le_bytes 4 lines)
      ≡ some (record { data_bytes = bytes; num_probes = probes; n_lines = lines })
decode-trailer bytes probes lines h e =
    let block = bytes ++ probes ∷ le_bytes 4 lines in
    let size : length block ≡ length bytes + 5 =
      omega (arith, length-append bytes (probes ∷ le_bytes 4 lines), length-le_bytes 4 lines) in
    let front : take (length block - 5) block ≡ bytes =
      take_front (length block - 5) bytes _ (omega arith) in
    let shorter : block ≡ (bytes ++ probes ∷ []) ++ le_bytes 4 lines =
      sym (append_assoc bytes (probes ∷ []) (le_bytes 4 lines)) in
    let back : drop (length block - 4) block ≡ le_bytes 4 lines =
      ap (drop (length block - 4)) shorter
      ∙ drop_front (length block - 4) (bytes ++ probes ∷ []) (le_bytes 4 lines)
          (omega (arith, length-append bytes (probes ∷ []))) in
    let probe : get_or block (length block - 5) 0 ≡ probes =
      ap (λ i. get_or block i 0) (omega arith) ∙ get_or_front bytes (le_bytes 4 lines) probes in
    decode_parts block bytes probes lines (ground arith)
      (ap (le_read 4) (back ∙ sym (append-nil (le_bytes 4 lines)))
        ∙ le_read-le_bytes 4 lines [] (omega arith))
      front (ground arith) probe

calc_n_lines_positive : (keys bits : ℕ) → 0 < calc_n_lines keys bits
unfolding calc_n_lines
calc_n_lines_positive keys bits = ground arith

calc_num_probes_small : (f : ℕ → ℕ) (bits : ℕ) → calc_num_probes f bits < 256
unfolding calc_num_probes
calc_num_probes_small f bits = ground arith

finish-hashes :
    (times_ln2 : ℕ → ℕ) (bits : ℕ) (hs : List ℕ)
    → 0 < length hs
    → calc_n_lines (length hs) bits < u32_mod
    → finish times_ln2 (record { hashes = hs; bits_per_key = bits })
      ≡ some (
          add_hashes
            (calc_num_probes times_ln2 bits)
            (calc_n_lines (length hs) bits)
            hs
            (replicate (calc_n_lines (length hs) bits * cache_line_size) 0)
          ++ calc_num_probes times_ln2 bits ∷ le_bytes 4 (calc_n_lines (length hs) bits))
unfolding finish
finish-hashes times_ln2 bits hs pos h =
    let nonempty : (length hs == 0) ≡ false = ground arith in
    let lines : calc_n_lines (length hs) bits % u32_mod ≡ calc_n_lines (length hs) bits =
      omega arith in
    let probes : calc_num_probes times_ln2 bits % 256 ≡ calc_num_probes times_ln2 bits =
      mod-eq_of_lt (calc_num_probes_small times_ln2 bits) in
    rw (nonempty, lines, probes) refl

hash_all-append :
    (before after : List (List ℕ)) (key : List ℕ)
    → hash_all (before ++ key ∷ after) ≡ hash_all before ++ bloom_hash key ∷ hash_all after
unfolding hash_all
hash_all-append [] after key = refl
hash_all-append (b ∷ before) after key =
    ap (λ l. bloom_hash b ∷ l) (hash_all-append before after key)

-- The filter that is built of some keys, whatever their number and the bits for each, as long as
-- its lines can be counted by a uint32, is decoded, and holds each of the keys.
pub may_contain-added :
    (times_ln2 : ℕ → ℕ) (bits : ℕ) (before after : List (List ℕ)) (key : List ℕ)
    → calc_n_lines (length (before ++ key ∷ after)) bits < u32_mod
    → (block : List ℕ) × (f : BloomFilter) × (finish times_ln2
          (add_keys (before ++ key ∷ after) (new_bloom_filter_writer bits))
        ≡ some block)
      × (decode_bloom_filter block ≡ some f)
      × (f.n_lines ≡ calc_n_lines (length (before ++ key ∷ after)) bits)
      × (may_contain (some f) key ≡ true)
unfolding new_bloom_filter_writer
may_contain-added times_ln2 bits before after key h =
    let keys = before ++ key ∷ after in
    let hs = hash_all keys in
    let count = length-hash_all keys in
    let lines = calc_n_lines (length hs) bits in
    let probes = calc_num_probes times_ln2 bits in
    let empty : List ℕ = replicate (lines * cache_line_size) 0 in
    let bytes = add_hashes probes lines hs empty in
    let some_lines = calc_n_lines_positive (length hs) bits in
    let size : length empty ≡ lines * cache_line_size =
      length-replicate (lines * cache_line_size) 0 in
    let fits : lines < u32_mod = subst (λ k. calc_n_lines k bits < u32_mod) (sym count) h in
    let nonempty : 0 < length hs = omega (arith, length-append before (key ∷ after)) in
    let grown =
      add_hashes-Grows probes lines some_lines hs empty (All-replicate (lines * cache_line_size))
        size in
    let hits =
      add_hashes-Hits probes lines some_lines (hash_all before) (bloom_hash key) (hash_all after)
        empty (All-replicate (lines * cache_line_size)) size in
    (
      bytes ++ probes ∷ le_bytes 4 lines,
      record { data_bytes = bytes; num_probes = probes; n_lines = lines },
      ap (finish times_ln2) (add_keys-hashes keys (new_bloom_filter_writer bits))
          ∙ finish-hashes times_ln2 bits hs nonempty fits,
      decode-trailer bytes probes lines fits (grown.size ∙ size),
      ap (λ k. calc_n_lines k bits) count,
      holds lines probes bytes some_lines (
          subst
            (λ l. Hits probes lines some_lines (bloom_hash key) (add_hashes probes lines l empty))
            (sym (hash_all-append before after key)) hits),
    )
  where
    holds :
        (lines probes : ℕ) (bytes : List ℕ)
        → 0 < lines
        → test_probes probes
            (bloom_hash key)
            (delta_of (bloom_hash key))
            (line_off (bloom_hash key) lines)
            bytes
          ≡ true
        → may_contain
            (some (record { data_bytes = bytes; num_probes = probes; n_lines = lines }))
            key
          ≡ true
    holds lines probes bytes pos t =
        unfold may_contain in (let nonzero : (lines == 0) ≡ false = ground arith in rw nonzero t)
