-- ===== src/Sstable/Block/Runs.antt =====
-- What an iterator of pkg/lsm/sstable/block.go gives on a block that was written by `add` and `finish`.
pub mod Points
pub mod Seek
pub mod Again
use indexed_watch.Prelude.{
  ℕ, zero, suc, ◌+◌, ◌-◌, ◌*◌, ◌%◌, ◌≤◌, ◌<◌, ◌≡◌, refl, ap, sym, ◌∙◌, Bool, true, false, Option,
  none, some, List, [], ◌∷◌, ◌++◌, append_assoc, append-nil, arith, length, length-append,
  length-drop, take, drop, drop-length_append, take-length_append, take-append-drop, leb, ◌==◌,
  if◌then◌else◌, u32_mod, u64_mod, All, le→ltb_false,
}
use indexed_watch.Bytes.Varint.{
  value, put_uvarint, uvarint, uvarint-put_uvarint, put_uvarint_positive,
}
use indexed_watch.Bytes.Fixed.{le_bytes, le_read, length-le_bytes, le_read-le_bytes}
use indexed_watch.Sstable.Block.{
  BlockWriter, new_block_writer, shared_prefix, entry_bytes, add, restart_bytes, finish,
  BlockIterator, new_block_iterator, slice, read_entry, next, first,
}
use indexed_watch.Sstable.Block.SharedPrefix.{take-shared_prefix, shared_prefix-le}

abbrev pub Entry : Type 0
Entry = List ℕ × List ℕ

-- Calls of `add` in order.
unfoldable pub add_all : List Entry → BlockWriter → BlockWriter
add_all [] w = w
add_all ((k, v) ∷ es) w = add_all es (add k v w)

abbrev pub Fits : Entry → Type 0
Fits e = (length e.0 < u64_mod) × (length e.1 < u64_mod)

drop-nil {ℓ} : {A : Type ℓ} (n : ℕ) → drop {A = A} n [] ≡ []
drop-nil zero = refl
drop-nil (suc n) = refl

drop-add {ℓ} : {A : Type ℓ} (m n : ℕ) (xs : List A) → drop (m + n) xs ≡ drop n (drop m xs)
drop-add zero n xs = ground arith
drop-add (suc m) n [] = drop-nil (suc m + n) ∙ sym (drop-nil n)
drop-add (suc m) n (x ∷ xs) =
    let e : suc m + n ≡ suc (m + n) = omega arith in ap (λ k. drop k (x ∷ xs)) e ∙ drop-add m n xs

-- What stands at an offset of the block, and what follows a part of it.
drop_past : (o : ℕ) (d p rest : List ℕ) → drop o d ≡ p ++ rest → drop (o + length p) d ≡ rest
drop_past o d p rest h =
    drop-add o (length p) d ∙ ap (drop (length p)) h ∙ drop-length_append p rest

uvarint_at :
    (o x : ℕ) (d rest : List ℕ)
    → x < u64_mod
    → drop o d ≡ put_uvarint x ++ rest
    → uvarint (drop o d) ≡ value x (length (put_uvarint x))
uvarint_at o x d rest h e = ap uvarint e ∙ uvarint-put_uvarint x rest h

pub slice_at :
    (o n : ℕ) (d p rest : List ℕ) → n ≡ length p → drop o d ≡ p ++ rest → slice d o n ≡ some p
unfolding slice
slice_at o n d p rest e h =
    rw (h, e)
      (rw (le→leb (length p) (length (p ++ rest)) (omega (arith, length-append p rest)))
        (ap some (take-length_append p rest)))
  where
    le→leb : (a b : ℕ) → a ≤ b → leb a b ≡ true
    le→leb a b q = ground arith

module _ (d : List ℕ) (r m : ℕ) where
  abbrev at_offset : ℕ → List ℕ → List ℕ → Bool → BlockIterator
  at_offset o k v b = record {
    block = d;
    restarts = r;
    num_restarts = m;
    offset = o;
    key = k;
    val = v;
    valid = b;
  }

  -- The key is the shared head of the previous key and the suffix in the block.
  rebuilt :
      (shared : ℕ) (prev key : List ℕ)
      → take shared prev ≡ take shared key
      → take shared prev ++ drop shared key ≡ key
  rebuilt shared prev key t = rw t (take-append-drop shared key)

  read_entry-at :
      (o shared : ℕ) (prev key val v rest : List ℕ) (b : Bool)
      → drop o d ≡ drop shared key ++ (val ++ rest)
      → shared ≤ length prev
      → take shared prev ≡ take shared key
      → read_entry (at_offset o prev v b) shared (length key - shared) (length val)
        ≡ some (true, at_offset (o + (length key - shared) + length val) key val true)
  unfolding read_entry
  read_entry-at o shared prev key val v rest b e p t =
      let n : length key - shared ≡ length (drop shared key) = sym (length-drop shared key) in
      ground (
        arith,
        le→ltb_false (length prev) shared p,
        rebuilt shared prev key t,
        slice_at o (length key - shared) d (drop shared key) (val ++ rest) n e,
        slice_at (o + (length key - shared)) (length val) d val rest refl
            (ap (λ k. drop (o + k) d) n ∙ drop_past o d (drop shared key) (val ++ rest) e),
      )

  next-entry :
      (o shared : ℕ) (prev key val v rest : List ℕ) (b : Bool)
      → drop o d ≡ entry_bytes shared key val ++ rest
      → o < r
      → shared ≤ length prev
      → shared ≤ length key
      → take shared prev ≡ take shared key
      → Fits (key, val)
      → next (at_offset o prev v b)
        ≡ some (true, at_offset (o + length (entry_bytes shared key val)) key val true)
  unfolding next entry_bytes
  next-entry o shared prev key val v rest b e lt p q t f =
      let p₁ = put_uvarint shared in
      let p₂ = put_uvarint (length key - shared) in
      let p₃ = put_uvarint (length val) in
      let s = drop shared key in
      let d₁ : drop o d ≡ p₁ ++ (p₂ ++ (p₃ ++ (s ++ (val ++ rest)))) = e ∙ simp append_assoc in
      let d₂ = drop_past o d p₁ _ d₁ in
      let d₃ = drop_past (o + length p₁) d p₂ _ d₂ in
      let d₄ = drop_past (o + length p₁ + length p₂) d p₃ _ d₃ in
      let total : o + length p₁ + length p₂ + length p₃ + (length key - shared) + length val
          ≡ o + length (p₁ ++ (p₂ ++ (p₃ ++ (s ++ val)))) =
        rw
          (
            length-append p₁,
            length-append p₂,
            length-append p₃,
            length-append s,
            length-drop shared key,
          )
          (omega arith) in
      ground (
        arith,
        uvarint_at o shared d _ (omega arith) d₁,
        uvarint_at (o + length p₁) (length key - shared) d _ (omega arith) d₂,
        uvarint_at (o + length p₁ + length p₂) (length val) d _ f.1 d₃,
        read_entry-at (o + length p₁ + length p₂ + length p₃) shared prev key val v rest b d₄ p t,
        total,
      )

  next-end :
      (o : ℕ) (prev v : List ℕ) (b : Bool)
      → r ≤ o
      → next (at_offset o prev v b) ≡ some (false, at_offset o prev v false)
  unfolding next
  next-end o prev v b h = ground arith

-- What `add` takes from the previous key.
shared_of : BlockWriter → List ℕ → ℕ
shared_of w key = if w.n_entries % w.restart_interval == 0 then 0 else shared_prefix w.prev_key key

shared_of_facts :
    (w : BlockWriter) (key : List ℕ)
    → (shared_of w key ≤ length w.prev_key)
      × (shared_of w key ≤ length key)
      × (take (shared_of w key) w.prev_key ≡ take (shared_of w key) key)
unfolding shared_of
shared_of_facts w key =
    let (p, q) = shared_prefix-le w.prev_key key in
    (ground arith, ground arith, ground (arith, take-shared_prefix w.prev_key key))

add_buf :
    (k v : List ℕ) (w : BlockWriter) → (add k v w).buf ≡ w.buf ++ entry_bytes (shared_of w k) k v
unfolding add shared_of
add_buf k v w = refl

add_prev : (k v : List ℕ) (w : BlockWriter) → (add k v w).prev_key ≡ k
unfolding add
add_prev k v w = refl

-- The bytes that the calls append.
pub body : BlockWriter → List Entry → List ℕ
body w [] = []
body w ((k, v) ∷ es) = entry_bytes (shared_of w k) k v ++ body (add k v w) es

add_all_buf : (es : List Entry) (w : BlockWriter) → (add_all es w).buf ≡ w.buf ++ body w es
unfolding add_all body
add_all_buf [] w = sym (append-nil w.buf)
add_all_buf ((k, v) ∷ es) w =
    add_all_buf es (add k v w)
    ∙ ap (λ b. b ++ body (add k v w) es) (add_buf k v w)
    ∙ append_assoc w.buf _ _

entry_positive : (s : ℕ) (k v : List ℕ) → 0 < length (entry_bytes s k v)
unfolding entry_bytes
entry_positive s k v = rw length-append (omega (arith, put_uvarint_positive s))

-- What the calls of `next` give: these entries, and then the end.
abbrev pub Runs : List Entry → Option (Bool × BlockIterator) → Type 0
Runs [] s = (it : BlockIterator) × (s ≡ some (false, it)) × (it.valid ≡ false)
Runs (e ∷ es) s =
    (it : BlockIterator) × (s ≡ some (true, it))
    × (it.valid ≡ true)
    × (it.key ≡ e.0)
    × (it.val ≡ e.1)
    × Runs es (next it)

Runs-body :
    (es : List Entry) (d : List ℕ) (r m o : ℕ) (w : BlockWriter) (prev v rest : List ℕ) (b : Bool)
    → prev ≡ w.prev_key
    → drop o d ≡ body w es ++ rest
    → r ≡ o + length (body w es)
    → All Fits es
    → Runs es (next (at_offset d r m o prev v b))
unfolding body
Runs-body [] d r m o w prev v rest b pe e re f = (_, next-end d r m o prev v b (omega arith), refl)
Runs-body ((k, x) ∷ es) d r m o w prev v rest b pe e re f =
    let sh = shared_of w k in
    let E = entry_bytes sh k x in
    let B = body (add k x w) es in
    let (p, q, t) = shared_of_facts w k in
    let e₁ : drop o d ≡ E ++ (B ++ rest) = e ∙ append_assoc E B rest in
    let total : r ≡ o + length E + length B = re ∙ rw length-append (omega arith) in
    let here =
      next-entry d r m o sh prev k x v (B ++ rest) b e₁ (omega (arith, entry_positive sh k x))
        (rw pe p) q (rw pe t) f.0 in
    let later =
      Runs-body es d r m (o + length E) (add k x w) k x rest true (sym (add_prev k x w))
        (drop_past o d E (B ++ rest) e₁) total f.1 in
    (_, here, refl, refl, refl, later)

drop_all : (n : ℕ) (xs ys : List ℕ) → n ≡ length xs → drop n (xs ++ ys) ≡ ys
drop_all n xs ys h = rw h (drop-length_append xs ys)

length-restart_bytes : (rs : List ℕ) → length (restart_bytes rs) ≡ length rs * 4
unfolding restart_bytes
length-restart_bytes [] = refl
length-restart_bytes (r ∷ rs) =
    length-append (le_bytes 4 r) (restart_bytes rs)
    ∙ omega (arith, length-le_bytes 4 r, length-restart_bytes rs)

pub length-finish : (w : BlockWriter) → length (finish w) ≡ length w.buf + length w.restarts * 4 + 4
unfolding finish
length-finish w =
    let tail = le_bytes 4 (length w.restarts % u32_mod) in
    length-append w.buf (restart_bytes w.restarts ++ tail)
    ∙ omega (
      arith,
      length-append (restart_bytes w.restarts) tail,
      length-restart_bytes w.restarts,
      length-le_bytes 4 (length w.restarts % u32_mod),
    )

-- The last four bytes are the number of restart points.
count-finish :
    (w : BlockWriter)
    → length w.restarts < u32_mod
    → le_read 4 (drop (length (finish w) - 4) (finish w)) ≡ some (length w.restarts)
count-finish w h =
    let R = restart_bytes w.restarts in
    let L = le_bytes 4 (length w.restarts % u32_mod) in
    let split : finish w ≡ (w.buf ++ R) ++ L = unfold finish in sym (append_assoc w.buf R L) in
    let at : length (finish w) - 4 ≡ length (w.buf ++ R) =
      omega (arith, length-finish w, length-append w.buf R, length-restart_bytes w.restarts) in
    let last : drop (length (finish w) - 4) (finish w) ≡ L =
      ap (drop (length (finish w) - 4)) split ∙ drop_all _ (w.buf ++ R) L at in
    let small : length w.restarts % u32_mod ≡ length w.restarts = omega arith in
    ap (le_read 4) (last ∙ sym (append-nil L))
    ∙ le_read-le_bytes 4 (length w.restarts % u32_mod) [] (omega arith)
    ∙ ap some small

-- The iterator over a finished block ends where the restart array begins.
new-finish :
    (w : BlockWriter)
    → length w.restarts < u32_mod
    → new_block_iterator (finish w)
      ≡ at_offset (finish w) (length w.buf) (length w.restarts) (length w.buf) [] [] false
unfolding new_block_iterator
new-finish w h =
    let base : length (finish w) - 4 - length w.restarts * 4 ≡ length w.buf =
      omega (arith, length-finish w) in
    rw (le→ltb_false (length (finish w)) 4 (omega (arith, length-finish w)))
      (rw (count-finish w h) (rw base refl))

-- From the start of a finished block on.
Runs-start :
    (interval : ℕ) (es : List Entry) (v : List ℕ) (b : Bool)
    → All Fits es
    → let w = add_all es (new_block_writer interval) in
      Runs es (next (at_offset (finish w) (length w.buf) (length w.restarts) 0 [] v b))
Runs-start interval es v b f =
    let w = add_all es (new_block_writer interval) in
    let tail = restart_bytes w.restarts ++ le_bytes 4 (length w.restarts % u32_mod) in
    let buf : w.buf ≡ body (new_block_writer interval) es =
      add_all_buf es (new_block_writer interval) in
    Runs-body es (finish w) (length w.buf) (length w.restarts) 0 (new_block_writer interval) [] v
      tail b refl (unfold finish in ap (λ x. x ++ tail) buf) (ap length buf ∙ omega arith) f

-- The calls of `First` and `Next` on a finished block give the entries in the order of `add`.
pub Runs-finish :
    (interval : ℕ) (es : List Entry)
    → All Fits es
    → length (add_all es (new_block_writer interval)).restarts < u32_mod
    → Runs es (first (new_block_iterator (finish (add_all es (new_block_writer interval)))))
unfolding first
Runs-finish interval es f h =
    rw (new-finish (add_all es (new_block_writer interval)) h) (Runs-start interval es [] false f)

add_restarts :
    (k v : List ℕ) (w : BlockWriter) → length (add k v w).restarts ≤ length w.restarts + 1
unfolding add
add_restarts k v w = ground (arith, length-append w.restarts ((length w.buf % u32_mod) ∷ []))

-- No call of `add` makes more than one restart point.
pub add_all_restarts :
    (es : List Entry) (w : BlockWriter)
    → length (add_all es w).restarts ≤ length w.restarts + length es
unfolding add_all
add_all_restarts [] w = omega arith
add_all_restarts ((k, v) ∷ es) w =
    omega (arith, add_restarts k v w, add_all_restarts es (add k v w))

pub add_all-snoc :
    (es : List Entry) (k v : List ℕ) (w : BlockWriter)
    → add_all (es ++ (k, v) ∷ []) w ≡ add k v (add_all es w)
unfolding add_all
add_all-snoc [] k v w = refl
add_all-snoc ((j, u) ∷ es) k v w = add_all-snoc es k v (add j u w)

pub add_all_entries :
    (es : List Entry) (w : BlockWriter) → (add_all es w).n_entries ≡ w.n_entries + length es
unfolding add_all add
add_all_entries [] w = omega arith
add_all_entries ((k, v) ∷ es) w = add_all_entries es (add k v w) ∙ omega arith
