-- ===== src/Sstable/Writer/Accepts.antt =====
-- Which calls of `Add` of pkg/lsm/sstable/writer.go succeed.
use indexed_watch.Prelude.{
  ℕ, ◌≡◌, refl, ap, sym, subst, ◌∙◌, false, Option, none, some, List, [], ◌∷◌, All,
}
use indexed_watch.Bytes.{is_nonpos}
use indexed_watch.Bytes.Order.{Lt, flip, compare_bytes-flip}
use indexed_watch.Sstable.Block.Runs.{Entry}
use indexed_watch.Sstable.Block.Runs.Seek.{Ascending}
use indexed_watch.Sstable.Format.{Platform}
use indexed_watch.Sstable.Writer.{
  WriterOptions, Writer, TableMeta, new_writer, out_of_order, store_key, add, close, add_pending,
  add_entry, flush_if_full,
}
use indexed_watch.Sstable.Separator.{short_separator}
use indexed_watch.Sstable.Writer.Calls.{add_entries, write_table}

-- The keys are above the previous one, if there is one.
abbrev Above : Option (List ℕ) → List Entry → Type 0
Above none es = Unit
Above (some prev) es = All (λ (e : Entry). Lt prev e.0) es

in_order :
    (q : Option (List ℕ)) (e : Entry) (es : List Entry)
    → Above q (e ∷ es)
    → out_of_order e.0 q ≡ false
in_order none e es h = refl
in_order (some prev) e es h = ap is_nonpos (compare_bytes-flip prev e.0 ∙ ap flip h.0)

Above-store_key :
    (q : Option (List ℕ)) (e : Entry) (es : List Entry)
    → All (λ (x : Entry). Lt e.0 x.0) es
    → Above (store_key q e.0) es
Above-store_key none ([], v) es h = tt
Above-store_key none (b ∷ k, v) es h = h
Above-store_key (some prev) e es h = h

add-some :
    (p : Platform) (key val : List ℕ) (w : Writer)
    → out_of_order key w.prev_key ≡ false
    → (w' : Writer) × (add p key val w ≡ some w') × (w'.prev_key ≡ store_key w.prev_key key)
unfolding add
add-some p key val w good =
    let w₁ = add_pending (short_separator w.pending_key key) w.pending_handle w in
    let w₂ = flush_if_full p (add_entry key val w₁) in
    (record w₂ { prev_key = store_key w.prev_key key }, rw good refl, refl)

add_entries-some :
    (p : Platform) (es : List Entry) (w : Writer)
    → Above w.prev_key es
    → Ascending es
    → (w' : Writer) × (add_entries p es w ≡ some w')
unfolding add_entries
add_entries-some p [] w a up = (w, refl)
add_entries-some p ((k, v) ∷ es) w a up =
    let (w₁, e, q) = add-some p k v w (in_order w.prev_key (k, v) es a) in
    let next = subst (λ x. Above x es) (sym q) (Above-store_key w.prev_key (k, v) es up.0) in
    let (w', e') = add_entries-some p es w₁ next up.1 in (w', rw (e, add_entries) e')

-- A table is written without an error, whatever its options, if the keys rise.
pub write_table-Ascending :
    (p : Platform) (o : WriterOptions) (es : List Entry)
    → Ascending es
    → (result : TableMeta × Writer) × (write_table p o es ≡ some result)
unfolding write_table
write_table-Ascending p o es up =
    let (w, e) = add_entries-some p es (new_writer o) (unfold new_writer in tt) up in
    (close p w, rw (e, write_table) refl)
