-- ===== src/Sstable/Reader/Lookup.antt =====
-- `findDataBlock` of pkg/lsm/sstable/reader.go: the index entry whose block has the key, if any has.
use indexed_watch.Prelude.{
  ℕ, zero, suc, ◌+◌, ◌<◌, ◌≤◌, ◌≡◌, refl, ap, sym, subst, ◌∙◌, true, false, Bool-cases, inl, inr,
  some, List, [], ◌∷◌, ◌++◌, append-nil, append_assoc, arith, length, All, All-append-split,
}
use indexed_watch.Bytes.{compare_bytes, is_neg, is_zero}
use indexed_watch.Bytes.Order.{Lt, Lt_trans, compare_bytes_eq, compare_bytes-flip}
use indexed_watch.Sstable.Block.{BlockIterator, next}
use indexed_watch.Sstable.Block
use indexed_watch.Sstable.Block.Runs.{Entry, Runs}
use indexed_watch.Sstable.Block.Runs.Seek.{Ascending, Below}
use indexed_watch.Sstable.Format.{Platform, encode}
use indexed_watch.Sstable.Writer.Order.{NotAbove, Parted}
use indexed_watch.Sstable.Writer.Chunks.{Chunk, IsChunk, index_entries, entries_of}
use indexed_watch.Sstable.Reader.{failed, not_found, last_entry, seek_last}
use indexed_watch.Sstable.Reader.Find.{find, find-below, find-append_above}

Lt-NotAbove : (a b c : List ℕ) → Lt a b → NotAbove b c → Lt a c
Lt-NotAbove a b c h k = elim (Bool-cases (is_zero (compare_bytes b c))) [
  | inl z ↦ subst (Lt a) (compare_bytes_eq b c (ground arith)) h
  | inr n ↦ Lt_trans a b c h (ground arith)
]

NotAbove-below :
    (a s key : List ℕ)
    → NotAbove a s
    → is_neg (compare_bytes s key) ≡ true
    → is_neg (compare_bytes a key) ≡ true
NotAbove-below a s key h k = elim (Bool-cases (is_zero (compare_bytes a s))) [
  | inl z ↦
      subst (λ x. is_neg (compare_bytes x key) ≡ true) (sym (compare_bytes_eq a s (ground arith))) k
  | inr n ↦ ground (arith, Lt_trans a s key (ground arith) (ground arith))
]

reached-Lt : (key s x : List ℕ) → is_neg (compare_bytes s key) ≡ false → Lt s x → Lt key x
reached-Lt key s x h l = elim (Bool-cases (is_zero (compare_bytes s key))) [
  | inl z ↦ subst (λ y. Lt y x) (compare_bytes_eq s key (ground arith)) l
  | inr n ↦ Lt_trans key s x (ground (arith, compare_bytes-flip s key)) l
]

-- The separators rise.
below_separator :
    (s sep : List ℕ) (es : List Entry)
    → 0 < length es
    → All (λ (e : Entry). Lt s e.0) es
    → All (λ (e : Entry). NotAbove e.0 sep) es
    → Lt s sep
below_separator s sep [] h l n = absurd (omega arith)
below_separator s sep (e ∷ es) h l n = Lt-NotAbove s e.0 sep l.0 n.0

later_separators :
    (p : Platform) (interval : ℕ) (file : List ℕ) (s : List ℕ) (cs : List Chunk)
    → All (IsChunk p interval file) cs
    → Parted cs []
    → All (λ (e : Entry). Lt s e.0) (entries_of cs ++ [])
    → All (λ (e : Entry). Lt s e.0) (index_entries cs)
later_separators p interval file s [] v q h = tt
later_separators p interval file s (c ∷ cs) v q h =
    let P = λ (e : Entry). Lt s e.0 in
    let (a, b) =
      All-append-split P c.entries (entries_of cs ++ [])
        (subst (All P) (append_assoc c.entries (entries_of cs) []) h) in
    (
      below_separator s c.separator c.entries v.0.nonempty a q.0,
      later_separators p interval file s cs v.1 q.2 b,
    )

pub index_Ascending :
    (p : Platform) (interval : ℕ) (file : List ℕ) (cs : List Chunk)
    → All (IsChunk p interval file) cs
    → Parted cs []
    → Ascending (index_entries cs)
index_Ascending p interval file [] v q = tt
index_Ascending p interval file (c ∷ cs) v q = (
  later_separators p interval file c.separator cs v.1 q.2 q.1,
  index_Ascending p interval file cs v.1 q.2,
)

-- The chunk of an index entry.
pub record At (cs : List Chunk) (passed : List Entry) (e : Entry) : Type 0 where
  pub before : List Chunk
  pub chunk : Chunk
  pub after : List Chunk
  pub split : cs ≡ before ++ chunk ∷ after
  pub passed_are : passed ≡ index_entries before
  pub entry_is : e ≡ (chunk.separator, encode chunk.handle)

pub index-At :
    (cs : List Chunk) (passed : List Entry) (e : Entry) (left : List Entry)
    → index_entries cs ≡ passed ++ e ∷ left
    → At cs passed e
index-At [] [] e left h = absurd (cc)
index-At [] (x ∷ passed) e left h = absurd (cc)
index-At (c ∷ cs) [] e left h = record {
  before = [];
  chunk = c;
  after = cs;
  split = refl;
  passed_are = refl;
  entry_is = cc;
}
index-At (c ∷ cs) (x ∷ passed) e left h =
    let r = index-At cs passed e left (cc) in
    let same : (c.separator, encode c.handle) ≡ x = cc in
    record {
      before = c ∷ r.before;
      chunk = r.chunk;
      after = r.after;
      split = ap (λ l. c ∷ l) r.split;
      passed_are = ap (λ l. x ∷ l) r.passed_are ∙ ap (λ y. y ∷ index_entries r.before) (sym same);
      entry_is = r.entry_is;
    }

all_below :
    (es : List Entry) (s key : List ℕ)
    → All (λ (e : Entry). NotAbove e.0 s) es
    → is_neg (compare_bytes s key) ≡ true
    → All (Below key) es
all_below [] s key h k = tt
all_below (e ∷ es) s key h k = (NotAbove-below e.0 s key h.0 k, all_below es s key h.1 k)

-- Chunks whose separators are below the key do not have it.
pub find-passed :
    (cs rest : List Chunk) (key : List ℕ)
    → Parted (cs ++ rest) []
    → All (Below key) (index_entries cs)
    → find key (entries_of (cs ++ rest)) ≡ find key (entries_of rest)
find-passed [] rest key p h = refl
find-passed (c ∷ cs) rest key p h =
    find-below key c.entries (entries_of (cs ++ rest)) (all_below c.entries c.separator key p.0 h.0)
    ∙ find-passed cs rest key p.2 h.1

all_reached :
    (key s : List ℕ) (es : List Entry)
    → is_neg (compare_bytes s key) ≡ false
    → All (λ (e : Entry). Lt s e.0) es
    → All (λ (e : Entry). Lt key e.0) es
all_reached key s [] h l = tt
all_reached key s (e ∷ es) h l = (reached-Lt key s e.0 h l.0, all_reached key s es h l.1)

Parted-suffix : (cs rest : List Chunk) → Parted (cs ++ rest) [] → Parted rest []
Parted-suffix [] rest p = p
Parted-suffix (c ∷ cs) rest p = Parted-suffix cs rest p.2

-- The first chunk whose separator is not below the key has it, if any has.
pub find-At :
    (cs : List Chunk) (passed : List Entry) (e : Entry) (key : List ℕ) (a : At cs passed e)
    → Parted cs []
    → All (Below key) passed
    → is_neg (compare_bytes e.0 key) ≡ false
    → find key (entries_of cs) ≡ find key a.chunk.entries
find-At cs passed e key a p h r =
    let c = a.chunk in
    let p' = subst (λ l. Parted l []) a.split p in
    let q = Parted-suffix a.before (c ∷ a.after) p' in
    let sep : is_neg (compare_bytes c.separator key) ≡ false =
      subst (λ (x : Entry). is_neg (compare_bytes x.0 key) ≡ false) a.entry_is r in
    ap (λ l. find key (entries_of l)) a.split
    ∙ find-passed a.before (c ∷ a.after) key p' (subst (All (Below key)) a.passed_are h)
    ∙ find-append_above key c.entries (entries_of a.after) (
        all_reached key c.separator (entries_of a.after) sep
          (subst (All (λ (x : Entry). Lt c.separator x.0)) (append-nil (entries_of a.after)) q.1))

-- The loop to the end leaves an iterator that is not valid.
last_entry-Runs :
    (fuel : ℕ) (es : List Entry) (it : BlockIterator)
    → Runs es (next it)
    → length es < fuel
    → (it' : BlockIterator) × (last_entry fuel it ≡ some it') × (it'.valid ≡ false)
unfolding last_entry
last_entry-Runs zero es it run h = absurd (omega arith)
last_entry-Runs (suc fuel) [] it (it', e, invalid) h = (it', rw (e, last_entry) refl, invalid)
last_entry-Runs (suc fuel) (x ∷ es) it (it', e, _, _, _, run) h =
    let (last, found, invalid) = last_entry-Runs fuel es it' run (omega arith) in
    (last, rw (e, last_entry) found, invalid)

-- Where no separator reaches the key, the search for the last index entry finds none.
pub seek_last-Runs :
    (es : List Entry) (it : BlockIterator)
    → Runs es (Block.first it)
    → ((it' : BlockIterator) → Block.first it ≡ some (true, it') → length es ≤ length it'.block)
    → seek_last it ≡ failed not_found
unfolding seek_last
seek_last-Runs [] it (it', e, _) fuel = rw e refl
seek_last-Runs (x ∷ es) it (it', e, _, _, _, run) fuel =
    let (last, found, invalid) =
      last_entry-Runs (length it'.block + 1) es it' run (omega (arith, fuel it' e)) in
    rw e (rw found (rw invalid refl))
