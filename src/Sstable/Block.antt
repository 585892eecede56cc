-- ===== src/Sstable/Block.antt =====
-- pkg/lsm/sstable/block.go: blocks of key-value entries with prefix compression. Offsets and
-- lengths are Go ints, here numbers; `none` is a panic on a slice that is out of range.
pub mod SharedPrefix
pub mod Runs
pub mod RoundTrip
use Prim.Native.Nat.{Ordering}
use indexed_watch.Prelude.{
  ℕ, zero, suc, ◌+◌, ◌-◌, ◌*◌, ◌/◌, ◌%◌, ◌≡◌, Bool, true, false, ◌&&◌, not, Option, none, some,
  List, [], ◌∷◌, ◌++◌, length, take, drop, get_or, leb, ltb, ◌==◌, if◌then◌else◌, u32_mod, min,
}
use indexed_watch.Bytes.{compare_bytes, is_neg}
use indexed_watch.Bytes.Varint.{Varint, value, short, overflow, put_uvarint, uvarint}
use indexed_watch.Bytes.Fixed.{le_bytes, le_read}

-- The fast path of `sharedPrefix`: eight bytes at a time while they agree.
same_eight : List ℕ → List ℕ → ℕ → Bool
same_eight a b i =
    get_or a i 0 == get_or b i 0
    && get_or a (i + 1) 0 == get_or b (i + 1) 0
    && get_or a (i + 2) 0 == get_or b (i + 2) 0
    && get_or a (i + 3) 0 == get_or b (i + 3) 0
    && get_or a (i + 4) 0 == get_or b (i + 4) 0
    && get_or a (i + 5) 0 == get_or b (i + 5) 0
    && get_or a (i + 6) 0 == get_or b (i + 6) 0
    && get_or a (i + 7) 0 == get_or b (i + 7) 0

chunk_loop : ℕ → List ℕ → List ℕ → ℕ → ℕ → ℕ
chunk_loop zero a b n i = i
chunk_loop (suc fuel) a b n i =
    let next = chunk_loop fuel a b n (i + 8) in
    if leb (i + 8) n && same_eight a b i then next else i

byte_loop : ℕ → List ℕ → List ℕ → ℕ → ℕ → ℕ
byte_loop zero a b n i = i
byte_loop (suc fuel) a b n i =
    let next = byte_loop fuel a b n (i + 1) in
    if ltb i n && get_or a i 0 == get_or b i 0 then next else i

-- Neither loop makes more than n rounds.
unfoldable pub shared_prefix : List ℕ → List ℕ → ℕ
unfolding chunk_loop byte_loop same_eight
shared_prefix a b =
    let n = if ltb (length b) (length a) then length b else length a in
    byte_loop n a b n (chunk_loop n a b n 0)

pub record BlockWriter : Type 0 where
  pub buf : List ℕ
  pub restarts : List ℕ
  pub n_entries : ℕ
  pub restart_interval : ℕ
  pub prev_key : List ℕ

unfoldable pub reset : BlockWriter → BlockWriter
reset w = record w { buf = []; restarts = []; n_entries = 0; prev_key = [] }

abbrev pub new_block_writer : ℕ → BlockWriter
new_block_writer interval = record {
  buf = [];
  restarts = [];
  n_entries = 0;
  restart_interval = interval;
  prev_key = [];
}

-- The bytes of one entry.
unfoldable pub entry_bytes : ℕ → List ℕ → List ℕ → List ℕ
entry_bytes shared key val =
    put_uvarint shared
    ++ (put_uvarint (length key - shared) ++ (put_uvarint (length val) ++ (drop shared key ++ val)))

unfoldable pub add : List ℕ → List ℕ → BlockWriter → BlockWriter
add key val w =
    let restart = w.n_entries % w.restart_interval == 0 in
    let shared = if restart then 0 else shared_prefix w.prev_key key in
    record w {
      buf = w.buf ++ entry_bytes shared key val;
      restarts = if restart then w.restarts ++ (length w.buf % u32_mod) ∷ [] else w.restarts;
      n_entries = w.n_entries + 1;
      prev_key = key;
    }

unfoldable pub restart_bytes : List ℕ → List ℕ
restart_bytes [] = []
restart_bytes (r ∷ rs) = le_bytes 4 r ++ restart_bytes rs

unfoldable pub finish : BlockWriter → List ℕ
finish w = w.buf ++ (restart_bytes w.restarts ++ le_bytes 4 (length w.restarts % u32_mod))

unfoldable pub estimated_size : BlockWriter → ℕ
estimated_size w = length w.buf + length w.restarts * 4 + 4

-- The field `err` of the source is never assigned, so that `Valid` is `valid`.
pub record BlockIterator : Type 0 where
  pub block : List ℕ
  pub restarts : ℕ
  pub num_restarts : ℕ
  pub offset : ℕ
  pub key : List ℕ
  pub val : List ℕ
  pub valid : Bool

abbrev empty_iterator : BlockIterator
empty_iterator = record {
  block = [];
  restarts = 0;
  num_restarts = 0;
  offset = 0;
  key = [];
  val = [];
  valid = false;
}

-- A count too large for the block makes `restarts` negative in Go; no entry is read then.
unfoldable pub iterator_over : List ℕ → Option ℕ → BlockIterator
iterator_over block none = empty_iterator
iterator_over block (some m) =
    let restarts = length block - 4 - m * 4 in
    record {
      block = block;
      restarts = restarts;
      num_restarts = m;
      offset = restarts;
      key = [];
      val = [];
      valid = false;
    }

unfoldable pub new_block_iterator : List ℕ → BlockIterator
unfolding iterator_over
new_block_iterator block =
    if ltb (length block) 4
    then empty_iterator
    else iterator_over block (le_read 4 (drop (length block - 4) block))

-- xs[off : off + n], where `off` does not pass the end
unfoldable pub slice : List ℕ → ℕ → ℕ → Option (List ℕ)
slice xs off n = if leb n (length (drop off xs)) then some (take n (drop off xs)) else none

-- The end of `next`: rebuild the key and cut out the value. A shared length beyond the key is a
-- panic here, where Go slices up to the capacity of the key's buffer; in a block that `add` wrote it
-- does not occur.
unfoldable pub read_entry : BlockIterator → ℕ → ℕ → ℕ → Option (Bool × BlockIterator)
read_entry it shared unshared value_len =
    if ltb (length it.key) shared then none else elim (slice it.block it.offset unshared) [
      | none ↦ none
      | some suffix ↦ elim (slice it.block (it.offset + unshared) value_len) [
        | none ↦ none
        | some val ↦ some (
          true,
          record it {
            offset = it.offset + unshared + value_len;
            key = take shared it.key ++ suffix;
            val = val;
            valid = true;
          },
        )
      ]
    ]

abbrev stop : BlockIterator → Option (Bool × BlockIterator)
stop it = some (false, record it { valid = false })

unfoldable pub next : BlockIterator → Option (Bool × BlockIterator)
next it = if leb it.restarts it.offset then stop it else elim (uvarint (drop it.offset it.block)) [
  | short ↦ stop it
  | overflow ↦ stop it
  | value shared n₁ ↦ elim (uvarint (drop (it.offset + n₁) it.block)) [
    | short ↦ stop (record it { offset = it.offset + n₁ })
    | overflow ↦ stop (record it { offset = it.offset + n₁ })
    | value unshared n₂ ↦ elim (uvarint (drop (it.offset + n₁ + n₂) it.block)) [
      | short ↦ stop (record it { offset = it.offset + n₁ + n₂ })
      | overflow ↦ stop (record it { offset = it.offset + n₁ + n₂ })
      | value value_len n₃ ↦
          read_entry (record it { offset = it.offset + n₁ + n₂ + n₃ }) shared unshared value_len
    ]
  ]
]

unfoldable pub first : BlockIterator → Option (Bool × BlockIterator)
first it = next (record it { offset = 0; key = [] })

unfoldable pub get_restart : BlockIterator → ℕ → Option ℕ
get_restart it i =
    if ltb (length it.block) (4 + it.num_restarts * 4)
    then none
    else le_read 4 (drop (it.restarts + i * 4) it.block)

-- The counts of `Uvarint` are added unasked: 0 for a short input, a panic for a negative one.
count_of : Varint → Option (ℕ × ℕ)
count_of (value v n) = some (v, n)
count_of short = some (0, 0)
count_of overflow = none

infixl 5 ◌>>=◌
abbrev ◌>>=◌ {ℓ κ} : {A : Type ℓ} {B : Type κ} → Option A → (A → Option B) → Option B
none >>= f = none
some a >>= f = f a

unfoldable pub decode_key_at : BlockIterator → ℕ → Option (List ℕ)
unfolding count_of
decode_key_at it offset = do
  (_, n₁) ← count_of (uvarint (drop offset it.block))
  (unshared, n₂) ← count_of (uvarint (drop (offset + n₁) it.block))
  (_, n₃) ← count_of (uvarint (drop (offset + n₁ + n₂) it.block))
  slice it.block (offset + n₁ + n₂ + n₃) unshared

-- The binary search over the restart points; hi - lo falls in each round.
unfoldable pub restart_search : ℕ → BlockIterator → List ℕ → ℕ → ℕ → Option ℕ
restart_search zero it target lo hi = some lo
restart_search (suc fuel) it target lo hi = elim (ltb lo hi) [
  | false ↦ some lo
  | true ↦ do
    let mid = lo + (hi - lo) / 2
    at ← get_restart it mid
    key ← decode_key_at it at
    elim (is_neg (compare_bytes key target)) [
      | true ↦ restart_search fuel it target (mid + 1) hi
      | false ↦ restart_search fuel it target lo mid
    ]
]

-- The linear scan of `SeekGE`; each entry takes three bytes at least.
unfoldable pub seek_scan : ℕ → BlockIterator → List ℕ → Option (Bool × BlockIterator)
seek_scan zero it target = some (false, record it { valid = false })
seek_scan (suc fuel) it target = do
  (found, it') ← next it
  elim found [
    | false ↦ some (false, record it' { valid = false })
    | true ↦ elim (is_neg (compare_bytes it'.key target)) [
      | true ↦ seek_scan fuel it' target
      | false ↦ some (true, it')
    ]
  ]

unfoldable pub seek_ge : List ℕ → BlockIterator → Option (Bool × BlockIterator)
seek_ge target it = do
  lo ← restart_search (it.num_restarts + 1) it target 0 it.num_restarts
  at ← get_restart it (lo - 1)
  seek_scan (length it.block + 1) (record it { offset = at; key = [] }) target
