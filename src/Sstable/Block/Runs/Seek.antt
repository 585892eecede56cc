-- ===== src/Sstable/Block/Runs/Seek.antt =====
-- `SeekGE` on a finished block of pkg/lsm/sstable/block.go.
use indexed_watch.Prelude.{
  ℕ, zero, suc, ◌+◌, ◌-◌, ◌*◌, ◌/◌, ◌%◌, ◌≤◌, ◌<◌, ◌≡◌, refl, ap, sym, subst, ◌∙◌, Bool, true,
  false, Bool-cases, inl, inr, Option, some, List, [], ◌∷◌, ◌++◌, append_assoc, arith, length,
  length-append, drop, drop-length_append, drop_front, get_or, ltb, if◌then◌else◌, u32_mod, All,
  All-append-split, le→ltb_false,
}
use indexed_watch.Bytes.{compare_bytes, is_neg}
use indexed_watch.Bytes.Order.{Lt, Lt_trans}
use indexed_watch.Bytes.Varint.{put_uvarint}
use indexed_watch.Bytes.Fixed.{le_bytes, length-le_bytes, le_read-le_bytes}
use indexed_watch.Sstable.Block.{
  BlockWriter, new_block_writer, entry_bytes, add, restart_bytes, finish, BlockIterator,
  new_block_iterator, next, get_restart, decode_key_at, restart_search, seek_scan, seek_ge,
}
use indexed_watch.Sstable.Block.Runs.{
  Entry, add_all, Fits, Runs, body, shared_of, at_offset, drop-add, drop_past, uvarint_at, slice_at,
  next-entry, Runs-body, add_all_buf, add_prev, entry_positive, Runs-start, length-finish,
  new-finish,
}
use indexed_watch.Sstable.Block.Runs.Points.{Point, all_Point, first_point}

-- The keys of the entries rise.
abbrev pub Ascending : List Entry → Type 0
Ascending [] = Unit
Ascending (e ∷ es) = All (λ (x : Entry). Lt e.0 x.0) es × Ascending es

abbrev pub Below : List ℕ → Entry → Type 0
Below target e = is_neg (compare_bytes e.0 target) ≡ true

abbrev pub HeadReaches : List ℕ → List Entry → Type 0
HeadReaches target [] = Unit
HeadReaches target (e ∷ es) = is_neg (compare_bytes e.0 target) ≡ false

-- The iterator stands at the first entry that is not below the target, or at the end.
pub record Sought (es : List Entry) (target : List ℕ) (s : Option (Bool × BlockIterator))
    : Type 0 where
  pub passed : List Entry
  pub left : List Entry
  pub split : es ≡ passed ++ left
  pub below : All (Below target) passed
  pub reached : HeadReaches target left
  pub runs : Runs left s

Sought-cons :
    (e : Entry) (es : List Entry) (target : List ℕ) (s : Option (Bool × BlockIterator))
    → Below target e
    → Sought es target s
    → Sought (e ∷ es) target s
Sought-cons e es target s h v = record {
  passed = e ∷ v.passed;
  left = v.left;
  split = ap (λ l. e ∷ l) v.split;
  below = (h, v.below);
  reached = v.reached;
  runs = v.runs;
}

Sought-append :
    (pre es : List Entry) (target : List ℕ) (s : Option (Bool × BlockIterator))
    → All (Below target) pre
    → Sought es target s
    → Sought (pre ++ es) target s
Sought-append [] es target s h v = v
Sought-append (e ∷ pre) es target s h v =
    Sought-cons e (pre ++ es) target s h.0 (Sought-append pre es target s h.1 v)

-- The three ways of a round of the linear scan.
seek_scan-end :
    (fuel : ℕ) (it it' : BlockIterator) (target : List ℕ)
    → next it ≡ some (false, it')
    → seek_scan (suc fuel) it target ≡ some (false, record it' { valid = false })
unfolding seek_scan
seek_scan-end fuel it it' target e = ground arith

pub seek_scan-below :
    (fuel : ℕ) (it it' : BlockIterator) (target : List ℕ)
    → next it ≡ some (true, it')
    → is_neg (compare_bytes it'.key target) ≡ true
    → seek_scan (suc fuel) it target ≡ seek_scan fuel it' target
unfolding seek_scan
seek_scan-below fuel it it' target e h = ground arith

pub seek_scan-reached :
    (fuel : ℕ) (it it' : BlockIterator) (target : List ℕ)
    → next it ≡ some (true, it')
    → is_neg (compare_bytes it'.key target) ≡ false
    → seek_scan (suc fuel) it target ≡ some (true, it')
unfolding seek_scan
seek_scan-reached fuel it it' target e h = ground arith

-- The linear scan.
seek_scan-Runs :
    (fuel : ℕ) (es : List Entry) (target : List ℕ) (it : BlockIterator)
    → Runs es (next it)
    → length es < fuel
    → Sought es target (seek_scan fuel it target)
seek_scan-Runs zero es target it run h = absurd (omega arith)
seek_scan-Runs (suc fuel) [] target it (it', e, _) h = record {
  passed = [];
  left = [];
  split = refl;
  below = tt;
  reached = tt;
  runs = (_, seek_scan-end fuel it it' target e, refl);
}
seek_scan-Runs (suc fuel) (e ∷ es) target it (it', found, good, k, v, run) h =
    elim (Bool-cases (is_neg (compare_bytes e.0 target))) [
      | inl low ↦
          subst (Sought (e ∷ es) target)
            (sym (
              seek_scan-below fuel it it' target found
                (ap (λ x. is_neg (compare_bytes x target)) k ∙ low)))
            (Sought-cons e es target (seek_scan fuel it' target) low
              (seek_scan-Runs fuel es target it' run (omega arith)))
      | inr high ↦ record {
        passed = [];
        left = e ∷ es;
        split = refl;
        below = tt;
        reached = high;
        runs = (
          it',
          seek_scan-reached fuel it it' target found
              (ap (λ x. is_neg (compare_bytes x target)) k ∙ high),
          good,
          k,
          v,
          run,
        );
      }
    ]

-- From this offset on the block gives the entries that are left, and those before are below the
-- target.
pub record Start (d : List ℕ) (r m : ℕ) (es : List Entry) (target : List ℕ) (o : ℕ) : Type 0 where
  pub pre : List Entry
  pub post : List Entry
  pub split : es ≡ pre ++ post
  pub below : All (Below target) pre
  pub runs : Runs post (next (at_offset d r m o [] [] false))

pre_below :
    (pre : List Entry) (e : Entry) (post : List Entry) (target : List ℕ)
    → Ascending (pre ++ e ∷ post)
    → Below target e
    → All (Below target) pre
pre_below [] e post target up h = tt
pre_below (x ∷ pre) e post target up h = (
  ground (arith, Lt_trans x.0 e.0 target (middle pre e post x up.0) (ground arith)),
  pre_below pre e post target up.1 h,
)
  where
    middle :
        (pre : List Entry) (e : Entry) (post : List Entry) (x : Entry)
        → All (λ (y : Entry). Lt x.0 y.0) (pre ++ e ∷ post)
        → Lt x.0 e.0
    middle [] e post x h = h.0
    middle (y ∷ pre) e post x h = middle pre e post x h.1

-- The restart array.
restart_bytes-at :
    (rs tail : List ℕ) (j : ℕ)
    → j < length rs
    → (rest : List ℕ) × (drop (j * 4) (restart_bytes rs ++ tail)
        ≡ le_bytes 4 (get_or rs j 0) ++ rest)
unfolding restart_bytes
restart_bytes-at [] tail j h = absurd (omega arith)
restart_bytes-at (r ∷ rs) tail zero h =
    (restart_bytes rs ++ tail, append_assoc (le_bytes 4 r) (restart_bytes rs) tail)
restart_bytes-at (r ∷ rs) tail (suc j) h =
    let (rest, e) = restart_bytes-at rs tail j (omega arith) in
    let n : suc j * 4 ≡ 4 + j * 4 = omega arith in
    (
      rest,
      ap (λ k. drop k ((le_bytes 4 r ++ restart_bytes rs) ++ tail)) n
          ∙ drop-add 4 (j * 4) ((le_bytes 4 r ++ restart_bytes rs) ++ tail)
          ∙ ap (λ l. drop (j * 4) (drop 4 l)) (append_assoc (le_bytes 4 r) (restart_bytes rs) tail)
          ∙ ap (drop (j * 4))
              (drop_front 4 (le_bytes 4 r) (restart_bytes rs ++ tail) (sym (length-le_bytes 4 r)))
          ∙ e,
    )

All-get_or {κ} :
    (P : ℕ → Type κ) (xs : List ℕ) (j : ℕ) → All P xs → j < length xs → P (get_or xs j 0)
All-get_or P [] j h lt = absurd (omega arith)
All-get_or P (x ∷ xs) zero h lt = h.0
All-get_or P (x ∷ xs) (suc j) h lt = All-get_or P xs j h.1 (omega arith)

-- An entry takes a byte at least.
length-body : (es : List Entry) (w : BlockWriter) → length es ≤ length (body w es)
unfolding body
length-body [] w = omega arith
length-body ((k, v) ∷ es) w = omega (
  arith,
  length-append (entry_bytes (shared_of w k) k v) (body (add k v w) es),
  entry_positive (shared_of w k) k v,
  length-body es (add k v w),
)

pub add_all_size :
    (interval : ℕ) (es : List Entry)
    → length es ≤ length (add_all es (new_block_writer interval)).buf
add_all_size interval es = omega (
  arith,
  length-body es (new_block_writer interval),
  ap (length {0}) (add_all_buf es (new_block_writer interval)),
)

-- A round of the binary search.
restart_search-step :
    (fuel : ℕ) (it : BlockIterator) (target key : List ℕ) (lo hi o : ℕ) (low : Bool)
    → ltb lo hi ≡ true
    → get_restart it (lo + (hi - lo) / 2) ≡ some o
    → decode_key_at it o ≡ some key
    → is_neg (compare_bytes key target) ≡ low
    → restart_search (suc fuel) it target lo hi ≡ (
        if low
        then restart_search fuel it target (lo + (hi - lo) / 2 + 1) hi
        else restart_search fuel it target lo (lo + (hi - lo) / 2))
unfolding restart_search
restart_search-step fuel it target key lo hi o true more at k c = ground arith
restart_search-step fuel it target key lo hi o false more at k c = ground arith

-- A block that fits into 32 bits, with rising keys.
module _ (interval : ℕ) (es : List Entry) (fits : All Fits es) (up : Ascending es)
    (small : length (add_all es (new_block_writer interval)).buf < u32_mod)
    (few : length (add_all es (new_block_writer interval)).restarts < u32_mod) where
  abbrev pub written : BlockWriter
  written = add_all es (new_block_writer interval)

  abbrev pub over : BlockIterator
  over =
      at_offset (finish written) (length written.buf) (length written.restarts) (length written.buf)
        [] [] false

  abbrev tail : List ℕ
  tail = restart_bytes written.restarts ++ le_bytes 4 (length written.restarts % u32_mod)

  Point-at : (j : ℕ) → j < length written.restarts → Point interval es (get_or written.restarts j 0)
  Point-at j h = All-get_or (Point interval es) written.restarts j (all_Point interval es) h

  get_restart-at :
      (j : ℕ)
      → j < length written.restarts
      → get_restart over j ≡ some (get_or written.restarts j 0)
  unfolding get_restart
  get_restart-at j h =
      let rs = written.restarts in
      let B = written.buf in
      let L = le_bytes 4 (length rs % u32_mod) in
      let (rest, e) = restart_bytes-at rs L j h in
      let here : drop (length B + j * 4) (finish written) ≡ le_bytes 4 (get_or rs j 0) ++ rest =
        unfold finish in
        drop-add (length B) (j * 4) (B ++ tail)
        ∙ ap (drop (j * 4)) (drop-length_append B tail)
        ∙ e in
      let p = Point-at j h in
      rw
        (le→ltb_false (length (finish written)) (4 + length rs * 4)
          (omega (arith, length-finish written)))
        (rw here (le_read-le_bytes 4 (get_or rs j 0) rest (omega (arith, p.at))))

  -- The block from a restart point on.
  bytes_at :
      (o : ℕ) (p : Point interval es o)
      → (o ≡ length p.before)
        × (drop o (finish written)
            ≡ entry_bytes 0 p.entry.0 p.entry.1
              ++ (body (add p.entry.0 p.entry.1 (add_all p.pre (new_block_writer interval))) p.post
                  ++ tail))
        × (length written.buf
            ≡ o
              + length (entry_bytes 0 p.entry.0 p.entry.1)
              + length (
                  body
                    (add p.entry.0 p.entry.1 (add_all p.pre (new_block_writer interval)))
                    p.post))
  unfolding finish body
  bytes_at o p =
      let E = entry_bytes 0 p.entry.0 p.entry.1 in
      let R = body (add p.entry.0 p.entry.1 (add_all p.pre (new_block_writer interval))) p.post in
      let whole : written.buf ≡ p.before ++ (E ++ R) =
        add_all_buf es (new_block_writer interval) ∙ p.bytes in
      let total : length written.buf ≡ length p.before + (length E + length R) =
        ap length whole
        ∙ length-append p.before (E ++ R)
        ∙ ap (λ n. length p.before + n) (length-append E R) in
      let at : o ≡ length p.before = omega (arith, p.at, total, small) in
      (
        at,
        ap (λ b. drop o (b ++ tail)) whole
            ∙ ap (drop o) (append_assoc p.before (E ++ R) tail)
            ∙ drop_front o p.before ((E ++ R) ++ tail) at
            ∙ append_assoc E R tail,
        omega (arith, total, at),
      )

  Point-Fits : (o : ℕ) (p : Point interval es o) → Fits p.entry × All Fits p.post
  Point-Fits o p =
      let (_, f) = All-append-split Fits p.pre (p.entry ∷ p.post) (subst (All Fits) p.split fits) in
      f

  Point-Start :
      (target : List ℕ) (o : ℕ) (p : Point interval es o)
      → Below target p.entry
      → Start (finish written) (length written.buf) (length written.restarts) es target o
  Point-Start target o p low =
      let (key, val) = p.entry in
      let E = entry_bytes 0 key val in
      let w' = add key val (add_all p.pre (new_block_writer interval)) in
      let R = body w' p.post in
      let d = finish written in
      let r = length written.buf in
      let m = length written.restarts in
      let (at, bytes, total) = bytes_at o p in
      let (f, g) = Point-Fits o p in
      record {
        pre = p.pre;
        post = p.entry ∷ p.post;
        split = p.split;
        below = pre_below p.pre p.entry p.post target (subst Ascending p.split up) low;
        runs = (
          _,
          next-entry d r m o 0 [] key val [] (R ++ tail) false bytes
              (omega (arith, total, entry_positive 0 key val)) (omega arith) (omega arith) refl f,
          refl,
          refl,
          refl,
          Runs-body p.post d r m (o + length E) w' key val tail true
              (sym (add_prev key val (add_all p.pre (new_block_writer interval))))
              (drop_past o d E (R ++ tail) bytes) total g,
        );
      }

  decode_key_at-Point : (o : ℕ) (p : Point interval es o) → decode_key_at over o ≡ some p.entry.0
  unfolding decode_key_at entry_bytes
  decode_key_at-Point o p =
      let (key, val) = p.entry in
      let d = finish written in
      let p₁ = put_uvarint 0 in
      let p₂ = put_uvarint (length key - 0) in
      let p₃ = put_uvarint (length val) in
      let (at, bytes, total) = bytes_at o p in
      let (f, g) = Point-Fits o p in
      let rest = body (add key val (add_all p.pre (new_block_writer interval))) p.post ++ tail in
      let d₁ : drop o d ≡ p₁ ++ (p₂ ++ (p₃ ++ (key ++ (val ++ rest)))) =
        bytes ∙ simp append_assoc in
      let d₂ = drop_past o d p₁ _ d₁ in
      let d₃ = drop_past (o + length p₁) d p₂ _ d₂ in
      let d₄ = drop_past (o + length p₁ + length p₂) d p₃ _ d₃ in
      rw (uvarint_at o 0 d _ (omega arith) d₁) (
        rw (uvarint_at (o + length p₁) (length key - 0) d _ (omega arith) d₂) (
          rw (uvarint_at (o + length p₁ + length p₂) (length val) d _ f.1 d₃) (
            slice_at (o + length p₁ + length p₂ + length p₃) (length key - 0) d key _ (omega arith)
              d₄)))

  -- Where the linear scan of this search may begin.
  abbrev Begin : List ℕ → ℕ → Type 0
  Begin target lo =
      (o : ℕ) × (get_restart over (lo - 1) ≡ some o)
      × Start (finish written) (length written.buf) (length written.restarts) es target o

  middle_in : (lo hi : ℕ) → lo < hi → (lo ≤ lo + (hi - lo) / 2) × (lo + (hi - lo) / 2 < hi)
  middle_in lo hi h = (omega arith, omega arith)

  restart_search-Begin :
      (fuel : ℕ) (target : List ℕ) (lo hi : ℕ)
      → hi ≤ length written.restarts
      → Begin target lo
      → (found : ℕ) × (restart_search fuel over target lo hi ≡ some found) × Begin target found
  unfolding restart_search
  restart_search-Begin zero target lo hi h b = (lo, refl, b)
  restart_search-Begin (suc fuel) target lo hi h b = elim (Bool-cases (ltb lo hi)) [
    | inr done ↦ (lo, rw (done, restart_search) refl, b)
    | inl more ↦
        let mid = lo + (hi - lo) / 2 in
        let (_, within) = middle_in lo hi (ground arith) in
        let o = get_or written.restarts mid 0 in
        let p = Point-at mid (omega arith) in
        let at = get_restart-at mid (omega arith) in
        let key = decode_key_at-Point o p in
        elim (Bool-cases (is_neg (compare_bytes p.entry.0 target))) [
          | inl low ↦
              let pred : mid + 1 - 1 ≡ mid = omega arith in
              let (found, e, b') =
                restart_search-Begin fuel target (mid + 1) hi h
                  (o, ap (get_restart over) pred ∙ at, Point-Start target o p low) in
              (
                found,
                restart_search-step fuel over target p.entry.0 lo hi o true more at key low ∙ e,
                b',
              )
          | inr high ↦
              let (found, e, b') = restart_search-Begin fuel target lo mid (omega arith) b in
              (
                found,
                restart_search-step fuel over target p.entry.0 lo hi o false more at key high ∙ e,
                b',
              )
        ]
  ]

  -- `SeekGE` is a linear scan from a good start.
  pub seek_ge-scan :
      (target : List ℕ)
      → 0 < length es
      → (o : ℕ) × (seek_ge target over
          ≡ seek_scan
              (length (finish written) + 1)
              (at_offset
                (finish written)
                (length written.buf)
                (length written.restarts)
                o
                []
                []
                false)
              target)
        × Start (finish written) (length written.buf) (length written.restarts) es target o
  unfolding seek_ge
  seek_ge-scan target some_entry =
      let rs = written.restarts in
      let d = finish written in
      let r = length written.buf in
      let (a, z) = first_point interval es some_entry in
      let from_start : Start d r (length rs) es target 0 = record {
        pre = [];
        post = es;
        split = refl;
        below = tt;
        runs = Runs-start interval es [] false fits;
      } in
      let (found, e, (o, at, s)) =
        restart_search-Begin (length rs + 1) target 0 (length rs) (omega arith)
          (0, get_restart-at 0 a ∙ ap some z, from_start) in
      (o, rw e (rw at refl), s)

  -- It stands at the first entry that is not below the target.
  seek_ge-over : (target : List ℕ) → 0 < length es → Sought es target (seek_ge target over)
  seek_ge-over target some_entry =
      let d = finish written in
      let (o, e, s) = seek_ge-scan target some_entry in
      let it = at_offset d (length written.buf) (length written.restarts) o [] [] false in
      let scan = seek_scan-Runs (length d + 1) s.post target it s.runs (
        omega (
          arith,
          ap (length {0}) s.split,
          length-append s.pre s.post,
          length-body es (new_block_writer interval),
          ap (length {0}) (add_all_buf es (new_block_writer interval)),
          length-finish written,
        )) in
      rw e (
        subst (λ l. Sought l target (seek_scan (length d + 1) it target)) (sym s.split)
          (Sought-append s.pre s.post target _ s.below scan))

-- `SeekGE` on a block that was built by calls of `add` and finished stands at the first entry whose
-- key is not below the target, from which `Next` gives the entries that follow, or reports the end
-- if there is none. The keys rise, there is an entry, keys and values are shorter than 2 ^ 64 bytes,
-- and the entries' bytes and the restart points fit into 32 bits.
pub seek_ge-finish :
    (interval : ℕ) (es : List Entry) (target : List ℕ)
    → All Fits es
    → Ascending es
    → length (add_all es (new_block_writer interval)).buf < u32_mod
    → length (add_all es (new_block_writer interval)).restarts < u32_mod
    → 0 < length es
    → Sought es target
        (seek_ge target (new_block_iterator (finish (add_all es (new_block_writer interval)))))
seek_ge-finish interval es target fits up small few h =
    let w = add_all es (new_block_writer interval) in
    subst (λ it. Sought es target (seek_ge target it)) (sym (new-finish w few))
      (seek_ge-over interval es fits up small few target h)
