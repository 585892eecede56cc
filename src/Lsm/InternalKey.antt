-- ===== src/Lsm/InternalKey.antt =====
-- pkg/lsm/memtable/internalkey.go: a user key with an 8-byte trailer that holds the inverted
-- sequence number and kind.
pub mod Plain
use Prim.Native.Nat.{Ordering}
use indexed_watch.Prelude.{
  ℕ, ◌+◌, ◌-◌, ◌*◌, ◌%◌, ◌/◌, ◌^◌, ◌<◌, ◌≡◌, ◌∙◌, sym, ap, false, Option, none, some, List, [], ◌∷◌,
  ◌++◌, arith, ltb, if◌then◌else◌, u64_mod, take, drop, length, length-append, take-length_append,
  drop-length_append, lt→ltb, le→ltb_false, append_assoc, append-nil,
}
use indexed_watch.Bytes.{compare_bytes}
use indexed_watch.Bytes.Order.{Lt, compare_bytes-append}
use indexed_watch.Bytes.Fixed.{
  be_bytes, be_read, length-be_bytes, be_read-be_bytes, Lt-be_bytes_all,
}

abbrev pub kind_set : ℕ
kind_set = 1

abbrev pub kind_delete : ℕ
kind_delete = 0

abbrev pub trailer_size : ℕ
trailer_size = 8

-- ^((seqNum << 8) | uint64(kind)). The shifted number has its low byte clear and the kind is a
-- byte, so that | is +; ^ is the difference to 2 ^ 64 - 1.
unfoldable pub trailer : ℕ → ℕ → ℕ
trailer seq_num kind = u64_mod - 1 - (seq_num * 256 % u64_mod + kind)

unfoldable pub make_internal_key : List ℕ → ℕ → ℕ → List ℕ
make_internal_key user_key seq_num kind = user_key ++ be_bytes 8 (trailer seq_num kind)

unfoldable pub invert : Option ℕ → ℕ
invert none = 0
invert (some t) = u64_mod - 1 - t

-- The results: user key, sequence number, kind.
unfoldable pub parse_internal_key : List ℕ → List ℕ × ℕ × ℕ
unfolding invert
parse_internal_key ikey =
    if ltb (length ikey) trailer_size
    then (ikey, 0, 0)
    else let split = length ikey - trailer_size in
      let val = invert (be_read 8 (drop split ikey)) in (take split ikey, val / 256, val % 256)

unfoldable pub user_key : List ℕ → List ℕ
user_key ikey =
    if ltb (length ikey) trailer_size then ikey else take (length ikey - trailer_size) ikey

trailer_value :
    (seq kind : ℕ)
    → seq < 2 ^ 56
    → kind < 256
    → invert (be_read 8 (be_bytes 8 (trailer seq kind))) ≡ seq * 256 + kind
trailer_value seq kind h k =
    rw (be_read_all (trailer seq kind) (unfold trailer in omega arith))
      (unfold invert trailer in omega arith)
  where
    be_read_all : (t : ℕ) → t < 256 ^ 8 → be_read 8 (be_bytes 8 t) ≡ some t
    be_read_all t b = ap (be_read 8) (sym (append-nil (be_bytes 8 t))) ∙ be_read-be_bytes 8 t [] b

module _ (u : List ℕ) (seq kind : ℕ) where
  pub length-make : length (make_internal_key u seq kind) ≡ length u + 8
  unfolding make_internal_key
  length-make = length-append u _ ∙ ap (λ n. length u + n) (length-be_bytes 8 (trailer seq kind))

  split-make : length (make_internal_key u seq kind) - 8 ≡ length u
  split-make = omega (arith, length-make)

  long-make : ltb (length (make_internal_key u seq kind)) 8 ≡ false
  long-make = le→ltb_false _ _ (omega (arith, length-make))

  -- `UserKey` takes the trailer off again.
  pub user_key-make : user_key (make_internal_key u seq kind) ≡ u
  unfolding user_key
  user_key-make = rw long-make (rw split-make (unfold make_internal_key in take-length_append u _))

  -- Parsing an internal key gives back the parts that it was made of, for a 56-bit sequence
  -- number and a kind of one byte.
  pub parse-make :
      seq < 2 ^ 56 → kind < 256 → parse_internal_key (make_internal_key u seq kind) ≡ (u, seq, kind)
  unfolding parse_internal_key
  parse-make h k = rw long-make (
      rw split-make (
        unfold make_internal_key in
        rw
          (
            take-length_append u (be_bytes 8 (trailer seq kind)),
            drop-length_append u (be_bytes 8 (trailer seq kind)),
            trailer_value seq kind h k,
          )
          (ground arith)))

-- Of two keys of one user key, the one with the larger sequence number, or with the same one and
-- the larger kind, sorts first.
pub larger_first :
    (u : List ℕ) (s t k l : ℕ)
    → s * 256 + k < t * 256 + l
    → t < 2 ^ 56
    → k < 256
    → l < 256
    → Lt (make_internal_key u t l) (make_internal_key u s k)
unfolding make_internal_key
larger_first u s t k l h b hk hl =
    compare_bytes-append u _ _
    ∙ Lt-be_bytes_all 8 (trailer t l) (trailer s k) (unfold trailer in omega arith)
        (unfold trailer in omega arith)

-- Of two versions of one user key the newer one sorts first.
pub newer_first :
    (u : List ℕ) (old new k k' : ℕ)
    → old < new
    → new < 2 ^ 56
    → k < 256
    → k' < 256
    → Lt (make_internal_key u new k) (make_internal_key u old k')
newer_first u old new k k' h b hk hk' = larger_first u old new k' k (omega arith) b hk' hk

-- A user key that goes on with a byte other than 255 sorts before the key that it extends, as
-- long as the sequence number of the shorter key is below 2 ^ 48.
pub extension_first :
    (u w : List ℕ) (c seq seq' k k' : ℕ)
    → c < 255
    → seq < 2 ^ 48
    → k < 256
    → Lt (make_internal_key (u ++ c ∷ w) seq' k') (make_internal_key u seq k)
unfolding make_internal_key be_bytes compare_bytes
extension_first u w c seq seq' k k' hc hs hk =
    rw append_assoc (compare_bytes-append u _ _ ∙ top_byte_first)
  where
    top : trailer seq k / 256 ^ 7 % 256 ≡ 255
    top = unfold trailer in omega arith

    top_byte_first :
        compare_bytes (c ∷ (w ++ be_bytes 8 (trailer seq' k'))) (be_bytes 8 (trailer seq k))
        ≡ Ordering.lt
    top_byte_first = rw top (rw (lt→ltb c 255 hc))
