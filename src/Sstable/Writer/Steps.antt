-- ===== src/Sstable/Writer/Steps.antt =====
-- The calls of `Add` of pkg/lsm/sstable/writer.go, and the end of its data.
use indexed_watch.Prelude.{
  ℕ, ◌<◌, ◌≡◌, refl, ap, sym, subst, ◌∙◌, Bool, Option, none, some, List, [], ◌∷◌, ◌++◌,
  append_assoc, append-nil, length, length-append, arith, u64_mod, ◌⊎◌, inl, inr, leb, ◌==◌,
  if◌then◌else◌, Bool-cases, Option-cases, All,
}
use indexed_watch.Sstable.Block.{new_block_writer, estimated_size}
use indexed_watch.Sstable.Block.Runs.{Entry, add_all_entries, Fits}
use indexed_watch.Sstable.Separator.{short_separator, short_successor}
use indexed_watch.Sstable.Format.{Platform, BlockHandle}
use indexed_watch.Sstable.Writer.{
  WriterOptions, with_defaults, Writer, new_writer, write_block, flush_data_block, add_index_entry,
  add_pending, add_entry, flush_if_full, add, finish_data, out_of_order, store_key,
}
use indexed_watch.Sstable.Writer.Calls.{add_entries}
use indexed_watch.Sstable.Writer.Chunks.{Chunk}
use indexed_watch.Sstable.Writer.Separators.{length-short_separator, length-short_successor}
use indexed_watch.Sstable.Block.Runs.Seek.{Ascending}
use indexed_watch.Sstable.Writer.Order.{
  Parted, Ends, Ordered, Ascending-append, add_all-Ends, add-Ordered, flush-Ordered, finish-Parted,
}
use indexed_watch.Sstable.Writer.State.{
  Wrote, new_writer-Wrote, sealed, add_pending-Wrote, add_entry-Wrote, flush-Wrote, chunk_of,
}

-- A chunk waits only while the open block is empty.
pub record Writing (p : Platform) (o : WriterOptions) (es : List Entry) (w : Writer) : Type 0 where
  pub done : List Chunk
  pub held : Option Chunk
  pub cur : List Entry
  pub wrote : Wrote p es done held cur w
  pub alternate : (held ≡ none) ⊎ (cur ≡ [])
  pub opts : w.opts ≡ with_defaults o
  pub ordered : Ascending es → Ordered es done held cur w.pending_key

pub new_writer-Writing : (p : Platform) (o : WriterOptions) → Writing p o [] (new_writer o)
new_writer-Writing p o = record {
  done = [];
  held = none;
  cur = [];
  wrote = new_writer-Wrote p o;
  alternate = inl refl;
  opts = unfold new_writer in refl;
  ordered = λ up. record { parted = tt; ends = tt; above = λ key h. tt };
}

add_pending_opts :
    (sep : List ℕ) (h : Option BlockHandle) (w : Writer) → (add_pending sep h w).opts ≡ w.opts
unfolding add_pending add_index_entry
add_pending_opts sep none w = refl
add_pending_opts sep (some h) w = refl

add_entry_opts : (k v : List ℕ) (w : Writer) → (add_entry k v w).opts ≡ w.opts
unfolding add_entry
add_entry_opts k v w = refl

flush_opts : (p : Platform) (w : Writer) → (flush_data_block p w).opts ≡ w.opts
unfolding flush_data_block write_block
flush_opts p w = refl

set_prev_key-Writing :
    (p : Platform) (o : WriterOptions) (es : List Entry) (w : Writer) (q : Option (List ℕ))
    → Writing p o es w
    → Writing p o es (record w { prev_key = q })
set_prev_key-Writing p o es w q v = record {
  done = v.done;
  held = v.held;
  cur = v.cur;
  wrote = record {
    at = v.wrote.at;
    chunks = v.wrote.chunks;
    waiting = v.wrote.waiting;
    pending = v.wrote.pending;
    index = v.wrote.index;
    current = v.wrote.current;
    entries = v.wrote.entries;
    short_pending = v.wrote.short_pending;
    short_prev = v.wrote.short_prev;
    bloom = v.wrote.bloom;
  };
  alternate = v.alternate;
  opts = v.opts;
  ordered = v.ordered;
}

-- The index entry that was pending is in the index block.
settled :
    (p : Platform) (es : List Entry) (done : List Chunk) (held : Option Chunk) (cur : List Entry)
    (sep : List ℕ) (w : Writer)
    → Wrote p es done held cur w
    → length sep < u64_mod
    → Wrote p es (sealed done sep held) none cur (add_pending sep w.pending_handle w)
settled p es done held cur sep w v short =
    subst (λ h. Wrote p es (sealed done sep held) none cur (add_pending sep h w)) (sym v.pending)
      (add_pending-Wrote p es done held cur sep w v short)

flushed :
    (p : Platform) (es : List Entry) (done : List Chunk) (cur : List Entry) (w : Writer)
    (q : List ℕ)
    → Wrote p es done none cur w
    → 0 < length cur
    → Ordered es done none cur q
    → Ordered es done (some (chunk_of p cur w)) [] (flush_data_block p w).pending_key
unfolding flush_data_block
flushed p es done cur w q v h o =
    flush-Ordered es done (chunk_of p cur w) q w.data_block.prev_key o (
      subst (λ b. Ends cur b.prev_key) (sym v.current)
        (add_all-Ends cur (new_block_writer w.opts.restart_interval) h))

flush_if_full-Writing :
    (p : Platform) (o : WriterOptions) (es : List Entry) (done : List Chunk) (cur : List Entry)
    (w : Writer)
    → Wrote p es done none cur w
    → 0 < length cur
    → w.opts ≡ with_defaults o
    → (Ascending es → Ordered es done none cur w.pending_key)
    → Writing p o es (flush_if_full p w)
unfolding flush_if_full
flush_if_full-Writing p o es done cur w v h e ord =
    elim (Bool-cases (leb w.opts.block_size (estimated_size w.data_block))) [
      | inl full ↦
          subst (λ b. Writing p o es (if b then flush_data_block p w else w)) (sym full)
            (record {
              done = done;
              held = some (chunk_of p cur w);
              cur = [];
              wrote = flush-Wrote p es done cur w v h;
              alternate = inr refl;
              opts = flush_opts p w ∙ e;
              ordered = λ up. flushed p es done cur w w.pending_key v h (ord up);
            })
      | inr room ↦
          subst (λ b. Writing p o es (if b then flush_data_block p w else w)) (sym room)
            (record {
              done = done;
              held = none;
              cur = cur;
              wrote = v;
              alternate = inl refl;
              opts = e;
              ordered = ord;
            })
    ]

-- An entry that `add` takes.
add-Writing :
    (p : Platform) (o : WriterOptions) (es : List Entry) (key val : List ℕ) (w w' : Writer)
    → Writing p o es w
    → length key < u64_mod
    → add p key val w ≡ some w'
    → Writing p o (es ++ (key, val) ∷ []) w'
unfolding add
add-Writing p o es key val w w' v short e =
    let sep = short_separator w.pending_key key in
    let w₁ = add_pending sep w.pending_handle w in
    let sep_short : length sep < u64_mod =
      omega (arith, length-short_separator w.pending_key key, v.wrote.short_pending) in
    let v₁ = settled p es v.done v.held v.cur sep w v.wrote sep_short in
    let v₂ = add_entry-Wrote p es (sealed v.done sep v.held) v.cur key val w₁ v₁ short in
    let v₃ =
      flush_if_full-Writing p o (es ++ (key, val) ∷ []) (sealed v.done sep v.held)
        (v.cur ++ (key, val) ∷ []) (add_entry key val w₁) v₂
        (omega (arith, length-append v.cur ((key, val) ∷ [])))
        (add_entry_opts key val w₁ ∙ add_pending_opts sep w.pending_handle w ∙ v.opts)
        (λ up.
          add-Ordered es v.done v.held v.cur w.pending_key key val
            (add_entry key val w₁).pending_key v.alternate v.wrote.entries
            (v.ordered (Ascending-append es ((key, val) ∷ []) up).0) up) in
    let after = record (flush_if_full p (add_entry key val w₁)) {
      prev_key = store_key w.prev_key key;
    } in
    let taken : after ≡ w' = elim (Bool-cases (out_of_order key w.prev_key)) [
      | inl bad ↦ absurd (cc (rw bad at e))
      | inr good ↦ let e' = rw good at e in cc
    ] in
    subst (Writing p o (es ++ (key, val) ∷ [])) taken (
      set_prev_key-Writing p o (es ++ (key, val) ∷ []) (flush_if_full p (add_entry key val w₁))
        (store_key w.prev_key key) v₃)

-- All the calls of `add`.
pub add_entries-Writing :
    (p : Platform) (o : WriterOptions) (es fs : List Entry) (w w' : Writer)
    → Writing p o es w
    → All Fits fs
    → add_entries p fs w ≡ some w'
    → Writing p o (es ++ fs) w'
unfolding add_entries
add_entries-Writing p o es [] w w' v f e =
    let same : w ≡ w' = cc in
    subst (Writing p o (es ++ [])) same (subst (λ l. Writing p o l w) (sym (append-nil es)) v)
add_entries-Writing p o es ((k, x) ∷ fs) w w' v f e = elim (Option-cases (add p k x w)) [
  | inl n ↦ absurd (cc (rw (n, add_entries) at e))
  | inr (w₁, q) ↦
      subst (λ l. Writing p o l w') (append_assoc es ((k, x) ∷ []) fs)
        (add_entries-Writing p o (es ++ (k, x) ∷ []) fs w₁ w'
          (add-Writing p o es k x w w₁ v f.0.0 q) f.1 (rw (q, add_entries) at e))
]

open_entries :
    (p : Platform) (es : List Entry) (done : List Chunk) (held : Option Chunk) (cur : List Entry)
    (w : Writer)
    → Wrote p es done held cur w
    → w.data_block.n_entries ≡ length cur
open_entries p es done held cur w v =
    ap (λ b. b.n_entries) v.current
    ∙ add_all_entries cur (new_block_writer w.opts.restart_interval)
    ∙ omega arith

nil_of_length : (es : List Entry) → length es ≡ 0 → es ≡ []
nil_of_length [] h = refl
nil_of_length (e ∷ es) h = absurd (omega arith)

-- The rest of the data: all entries are in chunks that the index block names.
pub record Finished (p : Platform) (o : WriterOptions) (es : List Entry) (w : Writer) : Type 0 where
  pub done : List Chunk
  pub wrote : Wrote p es done none [] w
  pub opts : w.opts ≡ with_defaults o
  pub parted : Ascending es → Parted done []

last_entry :
    (p : Platform) (o : WriterOptions) (es : List Entry) (done : List Chunk) (held : Option Chunk)
    (w : Writer)
    → Wrote p es done held [] w
    → w.opts ≡ with_defaults o
    → (Ascending es → Ordered es done held [] w.pending_key)
    → Finished p o es (add_pending (short_successor w.pending_key) w.pending_handle w)
last_entry p o es done held w v e ord =
    let sep = short_successor w.pending_key in
    record {
      done = sealed done sep held;
      wrote =
          settled p es done held [] sep w v
            (omega (arith, length-short_successor w.pending_key, v.short_pending));
      opts = add_pending_opts sep w.pending_handle w ∙ e;
      parted = λ up. finish-Parted es done held w.pending_key v.entries (ord up) up;
    }

pub finish_data-Finished :
    (p : Platform) (o : WriterOptions) (es : List Entry) (w : Writer)
    → Writing p o es w
    → Finished p o es (finish_data p w)
unfolding finish_data
finish_data-Finished p o es w v =
    let count = open_entries p es v.done v.held v.cur w v.wrote in
    let end = λ (x : Writer). add_pending (short_successor x.pending_key) x.pending_handle x in
    let goal = λ (b : Bool). Finished p o es (end (if b then w else flush_data_block p w)) in
    elim (Bool-cases (w.data_block.n_entries == 0)) [
      | inl empty ↦
          let none_open : v.cur ≡ [] = nil_of_length v.cur (sym count ∙ ground arith) in
          subst goal (sym empty) (
            last_entry p o es v.done v.held w
              (subst (λ l. Wrote p es v.done v.held l w) none_open v.wrote) v.opts
              (λ up.
                subst (λ l. Ordered es v.done v.held l w.pending_key) none_open (v.ordered up)))
      | inr filled ↦
          let some_open : 0 < length v.cur = ground arith in
          let idle : v.held ≡ none = elim v.alternate [
            | inl n ↦ n
            | inr n ↦ absurd (omega (arith, ap (length {0}) n))
          ] in
          let wrote : Wrote p es v.done none v.cur w =
            subst (λ h. Wrote p es v.done h v.cur w) idle v.wrote in
          subst goal (sym filled) (
            last_entry p o es v.done (some (chunk_of p v.cur w)) (flush_data_block p w)
              (flush-Wrote p es v.done v.cur w wrote some_open) (flush_opts p w ∙ v.opts)
              (λ up.
                flushed p es v.done v.cur w w.pending_key wrote some_open
                  (subst (λ h. Ordered es v.done h v.cur w.pending_key) idle (v.ordered up))))
    ]
