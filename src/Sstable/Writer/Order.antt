-- ===== src/Sstable/Writer/Order.antt =====
-- The separators of pkg/lsm/sstable/writer.go between the data blocks, for keys that rise.
use indexed_watch.Prelude.{
  ℕ, ◌<◌, ◌≡◌, refl, ap, sym, subst, ◌∙◌, false, Option, none, some, List, [], ◌∷◌, ◌++◌,
  append_assoc, append-nil, length, arith, All, All-append, All-append-split, ◌⊎◌, inl, inr,
}
use indexed_watch.Bytes.{compare_bytes, is_pos}
use indexed_watch.Bytes.Order.{Lt, Lt_trans, not_above_trans}
use indexed_watch.Sstable.Block.{BlockWriter, add}
use indexed_watch.Sstable.Block.Runs.{Entry, add_all}
use indexed_watch.Sstable.Block.Runs.Seek.{Ascending}
use indexed_watch.Sstable.Separator.{
  Le, short_separator, short_separator_bounds, short_successor, short_successor-le,
}
use indexed_watch.Sstable.Writer.Chunks.{Chunk, entries_of, entries_of-snoc}
use indexed_watch.Sstable.Writer.State.{held_entries, sealed}

abbrev pub NotAbove : List ℕ → List ℕ → Type 0
NotAbove a b = is_pos (compare_bytes a b) ≡ false

-- A separator is not below the keys of its chunk, and below all keys that follow.
abbrev pub Parted : List Chunk → List Entry → Type 0
Parted [] rest = Unit
Parted (c ∷ cs) rest =
    All (λ (e : Entry). NotAbove e.0 c.separator) c.entries
    × All (λ (e : Entry). Lt c.separator e.0) (entries_of cs ++ rest)
    × Parted cs rest

-- The last of the entries has this key.
pub record Ends (es : List Entry) (key : List ℕ) : Type 0 where
  pub front : List Entry
  pub val : List ℕ
  pub split : es ≡ front ++ (key, val) ∷ []

abbrev pub HeldEnds : Option Chunk → List ℕ → Type 0
HeldEnds none key = Unit
HeldEnds (some c) key = Ends c.entries key

pub record Ordered (es : List Entry) (done : List Chunk) (held : Option Chunk) (cur : List Entry)
    (pending : List ℕ) : Type 0 where
  pub parted : Parted done (held_entries held ++ cur)
  pub ends : HeldEnds held pending
  pub above :
      (key : List ℕ)
      → All (λ (e : Entry). Lt e.0 key) es
      → All (λ (c : Chunk). Lt c.separator key) done

pub Ascending-append : (es fs : List Entry) → Ascending (es ++ fs) → Ascending es × Ascending fs
Ascending-append [] fs h = (tt, h)
Ascending-append (e ∷ es) fs h =
    let (a, b) = Ascending-append es fs h.1 in
    (((All-append-split (λ (x : Entry). Lt e.0 x.0) es fs h.0).0, a), b)

pub Ascending-last :
    (es : List Entry) (key val : List ℕ)
    → Ascending (es ++ (key, val) ∷ [])
    → All (λ (e : Entry). Lt e.0 key) es
Ascending-last [] key val h = tt
Ascending-last (e ∷ es) key val h = (
  (All-append-split (λ (x : Entry). Lt e.0 x.0) es ((key, val) ∷ []) h.0).1.0,
  Ascending-last es key val h.1,
)

pub Parted-add :
    (cs : List Chunk) (rest : List Entry) (key val : List ℕ)
    → Parted cs rest
    → All (λ (c : Chunk). Lt c.separator key) cs
    → Parted cs (rest ++ (key, val) ∷ [])
Parted-add [] rest key val p h = tt
Parted-add (c ∷ cs) rest key val p h =
    let P = λ (e : Entry). Lt c.separator e.0 in
    (
      p.0,
      subst (All P) (append_assoc (entries_of cs) rest ((key, val) ∷ []))
          (All-append P (entries_of cs ++ rest) ((key, val) ∷ []) p.1 (h.0, tt)),
      Parted-add cs rest key val p.2 h.1,
    )

-- The chunk that waits gets its separator.
pub Parted-snoc :
    (cs : List Chunk) (c : Chunk)
    → Parted cs (c.entries ++ [])
    → All (λ (e : Entry). NotAbove e.0 c.separator) c.entries
    → Parted (cs ++ c ∷ []) []
Parted-snoc [] c p h = (h, tt, tt)
Parted-snoc (d ∷ cs) c p h =
    let same : entries_of cs ++ (c.entries ++ []) ≡ entries_of (cs ++ c ∷ []) ++ [] =
      ap (λ l. entries_of cs ++ l) (append-nil c.entries)
      ∙ sym (entries_of-snoc cs c)
      ∙ sym (append-nil (entries_of (cs ++ c ∷ []))) in
    (p.0, subst (All (λ (e : Entry). Lt d.separator e.0)) same p.1, Parted-snoc cs c p.2 h)

Lt→NotAbove : (a b : List ℕ) → Lt a b → NotAbove a b
Lt→NotAbove a b h = ap is_pos h

Le→NotAbove : (a b : List ℕ) → Le a b → NotAbove a b
Le→NotAbove a b (inl h) = ap is_pos h
Le→NotAbove a b (inr h) = ap is_pos h

NotAbove-all :
    (es : List Entry) (key sep : List ℕ)
    → All (λ (e : Entry). NotAbove e.0 key) es
    → NotAbove key sep
    → All (λ (e : Entry). NotAbove e.0 sep) es
NotAbove-all [] key sep h k = tt
NotAbove-all (e ∷ es) key sep h k =
    (not_above_trans e.0 key sep h.0 k, NotAbove-all es key sep h.1 k)

all-NotAbove :
    (es : List Entry) (key : List ℕ)
    → All (λ (e : Entry). Lt e.0 key) es
    → All (λ (e : Entry). NotAbove e.0 key) es
all-NotAbove [] key h = tt
all-NotAbove (e ∷ es) key h = (Lt→NotAbove e.0 key h.0, all-NotAbove es key h.1)

-- A key that is not below the last key of a chunk is above no key of it.
pub Ends-NotAbove :
    (es : List Entry) (key sep : List ℕ)
    → Ends es key
    → Ascending es
    → Le key sep
    → All (λ (e : Entry). NotAbove e.0 sep) es
Ends-NotAbove es key sep v up h =
    let P = λ (e : Entry). NotAbove e.0 sep in
    let up' = subst Ascending v.split up in
    let le = Le→NotAbove key sep h in
    subst (All P) (sym v.split) (
      All-append P v.front ((key, v.val) ∷ [])
        (NotAbove-all v.front key sep
          (all-NotAbove v.front key (Ascending-last v.front key v.val up')) le)
        (le, tt))

-- The previous key of a block writer is the last one that was added.
pub add_all-Ends :
    (es : List Entry) (w : BlockWriter) → 0 < length es → Ends es (add_all es w).prev_key
unfolding add_all add
add_all-Ends [] w h = absurd (omega arith)
add_all-Ends ((k, v) ∷ []) w h = record { front = []; val = v; split = refl }
add_all-Ends ((k, v) ∷ (j, u) ∷ es) w h =
    let r = add_all-Ends ((j, u) ∷ es) (add k v w) (omega arith) in
    record { front = (k, v) ∷ r.front; val = r.val; split = ap (λ l. (k, v) ∷ l) r.split }

held_Ascending :
    (es : List Entry) (done : List Chunk) (c : Chunk) (cur : List Entry)
    → es ≡ entries_of done ++ (c.entries ++ cur)
    → Ascending es
    → Ascending c.entries
held_Ascending es done c cur e up =
    (Ascending-append c.entries cur
      (Ascending-append (entries_of done) (c.entries ++ cur) (subst Ascending e up)).1).0

-- A chunk that waits gets a separator that is not below its last key.
sealed_Parted :
    (es : List Entry) (done : List Chunk) (c : Chunk) (pending sep : List ℕ)
    → Ordered es done (some c) [] pending
    → Ascending c.entries
    → Le pending sep
    → Parted (done ++ record c { separator = sep } ∷ []) []
sealed_Parted es done c pending sep o up h =
    Parted-snoc done (record c { separator = sep }) o.parted
      (Ends-NotAbove c.entries pending sep o.ends up h)

-- An entry comes behind all others; the chunk that waits gets its separator.
pub add-Ordered :
    (es : List Entry) (done : List Chunk) (held : Option Chunk) (cur : List Entry)
    (pending key val q : List ℕ)
    → (held ≡ none) ⊎ (cur ≡ [])
    → es ≡ entries_of done ++ (held_entries held ++ cur)
    → Ordered es done held cur pending
    → Ascending (es ++ (key, val) ∷ [])
    → Ordered
        (es ++ (key, val) ∷ [])
        (sealed done (short_separator pending key) held)
        none
        (cur ++ (key, val) ∷ [])
        q
add-Ordered es done none cur pending key val q alt e o up =
    let P = λ (k : List ℕ) (x : Entry). Lt x.0 k in
    record {
      parted = Parted-add done cur key val o.parted (o.above key (Ascending-last es key val up));
      ends = tt;
      above = λ k h. o.above k (All-append-split (P k) es ((key, val) ∷ []) h).0;
    }
add-Ordered es done (some c) cur pending key val q (inl n) e o up = absurd (cc)
add-Ordered es done (some c) cur pending key val q (inr n) e o up =
    let P = λ (k : List ℕ) (x : Entry). Lt x.0 k in
    let S = λ (k : List ℕ) (d : Chunk). Lt d.separator k in
    let sep = short_separator pending key in
    let c' = record c { separator = sep } in
    let o' : Ordered es done (some c) [] pending =
      subst (λ l. Ordered es done (some c) l pending) n o in
    let below_key = Ascending-last es key val up in
    let last : Lt pending key =
      let in_es : es ≡ entries_of done ++ (c.entries ++ cur) = e in
      let at =
        (All-append-split (P key) (entries_of done) (c.entries ++ cur)
          (subst (All (P key)) in_es below_key)).1 in
      let at_c = (All-append-split (P key) c.entries cur at).0 in
      (All-append-split (P key) o.ends.front ((pending, o.ends.val) ∷ [])
        (subst (All (P key)) o.ends.split at_c)).1.0 in
    let (ge, lt) = short_separator_bounds pending key last in
    let parted =
      sealed_Parted es done c pending sep o'
        (held_Ascending es done c cur e (Ascending-append es ((key, val) ∷ []) up).0) ge in
    record {
      parted =
          subst (λ l. Parted (done ++ c' ∷ []) (l ++ (key, val) ∷ [])) (sym n)
            (Parted-add (done ++ c' ∷ []) [] key val parted
              (All-append (S key) done (c' ∷ []) (o.above key below_key) (lt, tt)));
      ends = tt;
      above = λ k h.
          let (old, new) = All-append-split (P k) es ((key, val) ∷ []) h in
          All-append (S k) done (c' ∷ []) (o.above k old) (Lt_trans sep key k lt new.0, tt);
    }

pub flush-Ordered :
    (es : List Entry) (done : List Chunk) (c : Chunk) (q pending : List ℕ)
    → Ordered es done none c.entries q
    → Ends c.entries pending
    → Ordered es done (some c) [] pending
flush-Ordered es done c q pending o ends = record {
  parted = subst (Parted done) (sym (append-nil c.entries)) o.parted;
  ends = ends;
  above = o.above;
}

-- The last chunk.
pub finish-Parted :
    (es : List Entry) (done : List Chunk) (held : Option Chunk) (pending : List ℕ)
    → es ≡ entries_of done ++ (held_entries held ++ [])
    → Ordered es done held [] pending
    → Ascending es
    → Parted (sealed done (short_successor pending) held) []
finish-Parted es done none pending e o up = o.parted
finish-Parted es done (some c) pending e o up =
    sealed_Parted es done c pending (short_successor pending) o (held_Ascending es done c [] e up)
      (short_successor-le pending)
