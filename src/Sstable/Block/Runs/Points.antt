-- ===== src/Sstable/Block/Runs/Points.antt =====
-- The restart points of a block of pkg/lsm/sstable/block.go: what stands at each of them.
use native.Mathlib.Nat.{zero-mod}
use indexed_watch.Prelude.{
  ℕ, ◌%◌, ◌<◌, ◌≡◌, refl, ap, sym, subst, ◌∙◌, Bool, true, false, Bool-cases, inl, inr, List, [],
  ◌∷◌, ◌++◌, append_assoc, append-nil, arith, length, get_or, ◌==◌, if◌then◌else◌, u32_mod, All,
  All-append,
}
use indexed_watch.Sstable.Block.{BlockWriter, new_block_writer, entry_bytes, add, shared_prefix}
use indexed_watch.Sstable.Block.Runs.{Entry, add_all, add_all-snoc, body, shared_of, add_all_buf}

-- What stands at a restart point: an entry with its whole key. Offsets are uint32.
pub record Point (interval : ℕ) (es : List Entry) (o : ℕ) : Type 0 where
  pub pre : List Entry
  pub entry : Entry
  pub post : List Entry
  pub before : List ℕ
  pub split : es ≡ pre ++ entry ∷ post
  pub at : length before % u32_mod ≡ o
  pub bytes :
      body (new_block_writer interval) es
      ≡ before
        ++ (entry_bytes 0 entry.0 entry.1
            ++ body (add entry.0 entry.1 (add_all pre (new_block_writer interval))) post)

body-snoc :
    (es : List Entry) (k v : List ℕ) (w : BlockWriter)
    → body w (es ++ (k, v) ∷ []) ≡ body w es ++ entry_bytes (shared_of (add_all es w) k) k v
unfolding body add_all
body-snoc [] k v w = append-nil (entry_bytes (shared_of w k) k v)
body-snoc ((j, u) ∷ es) k v w =
    ap (λ l. entry_bytes (shared_of w j) j u ++ l) (body-snoc es k v (add j u w))
    ∙ sym (append_assoc (entry_bytes (shared_of w j) j u) (body (add j u w) es) _)

add_all-append :
    (es fs : List Entry) (w : BlockWriter) → add_all (es ++ fs) w ≡ add_all fs (add_all es w)
unfolding add_all
add_all-append [] fs w = refl
add_all-append ((k, v) ∷ es) fs w = add_all-append es fs (add k v w)

-- One more entry behind a point.
Point-snoc :
    (interval : ℕ) (es : List Entry) (o : ℕ) (k v : List ℕ)
    → Point interval es o
    → Point interval (es ++ (k, v) ∷ []) o
Point-snoc interval es o k v p =
    let w = new_block_writer interval in
    let w' = add p.entry.0 p.entry.1 (add_all p.pre w) in
    let more = entry_bytes (shared_of (add_all es w) k) k v in
    let E = entry_bytes 0 p.entry.0 p.entry.1 in
    let same : add_all es w ≡ add_all p.post w' =
      ap (λ l. add_all l w) p.split
      ∙ add_all-append p.pre (p.entry ∷ p.post) w
      ∙ (unfold add_all in refl) in
    let last : body w' (p.post ++ (k, v) ∷ []) ≡ body w' p.post ++ more =
      body-snoc p.post k v w'
      ∙ ap (λ x. body w' p.post ++ entry_bytes (shared_of x k) k v) (sym same) in
    record {
      pre = p.pre;
      entry = p.entry;
      post = p.post ++ (k, v) ∷ [];
      before = p.before;
      split =
          ap (λ l. l ++ (k, v) ∷ []) p.split ∙ append_assoc p.pre (p.entry ∷ p.post) ((k, v) ∷ []);
      at = p.at;
      bytes =
          body-snoc es k v w
          ∙ ap (λ l. l ++ more) p.bytes
          ∙ append_assoc p.before (E ++ body w' p.post) more
          ∙ ap (λ l. p.before ++ l)
              (append_assoc E (body w' p.post) more ∙ ap (λ l. E ++ l) (sym last));
    }

-- The point that a call of `add` makes.
new-Point :
    (interval : ℕ) (es : List Entry) (k v : List ℕ)
    → shared_of (add_all es (new_block_writer interval)) k ≡ 0
    → Point interval
        (es ++ (k, v) ∷ [])
        (length (add_all es (new_block_writer interval)).buf % u32_mod)
unfolding body
new-Point interval es k v whole =
    let w = new_block_writer interval in
    record {
      pre = es;
      entry = (k, v);
      post = [];
      before = body w es;
      split = refl;
      at = ap (λ b. length b % u32_mod) (sym (add_all_buf es w));
      bytes =
          body-snoc es k v w
          ∙ ap (λ n. body w es ++ entry_bytes n k v) whole
          ∙ ap (λ l. body w es ++ l) (sym (append-nil (entry_bytes 0 k v)));
    }

All-map {ℓ κ μ} :
    {A : Type ℓ} (P : A → Type κ) (Q : A → Type μ)
    → ((a : A) → P a → Q a)
    → (xs : List A) → All P xs
    → All Q xs
All-map P Q f [] h = tt
All-map P Q f (x ∷ xs) h = (f x h.0, All-map P Q f xs h.1)

points_after :
    (interval : ℕ) (es : List Entry) (k v : List ℕ)
    → All (Point interval es) (add_all es (new_block_writer interval)).restarts
    → All
        (Point interval (es ++ (k, v) ∷ []))
        (add k v (add_all es (new_block_writer interval))).restarts
unfolding add
points_after interval es k v h =
    let w = add_all es (new_block_writer interval) in
    let Q = Point interval (es ++ (k, v) ∷ []) in
    let old : All Q w.restarts =
      All-map (Point interval es) Q (λ o p. Point-snoc interval es o k v p) w.restarts h in
    let rs = λ (b : Bool). if b then w.restarts ++ (length w.buf % u32_mod) ∷ [] else w.restarts in
    elim (Bool-cases (w.n_entries % w.restart_interval == 0)) [
      | inl now ↦
          let whole : shared_of w k ≡ 0 =
            unfold shared_of in ap (λ b. if b then 0 else shared_prefix w.prev_key k) now in
          subst (λ b. All Q (rs b)) (sym now)
            (All-append Q w.restarts ((length w.buf % u32_mod) ∷ []) old
              (new-Point interval es k v whole, tt))
      | inr later ↦ subst (λ b. All Q (rs b)) (sym later) old
    ]

points_from :
    (interval : ℕ) (es fs : List Entry)
    → All (Point interval es) (add_all es (new_block_writer interval)).restarts
    → All (Point interval (es ++ fs)) (add_all (es ++ fs) (new_block_writer interval)).restarts
points_from interval es [] h =
    subst (λ l. All (Point interval l) (add_all l (new_block_writer interval)).restarts)
      (sym (append-nil es)) h
points_from interval es ((k, v) ∷ fs) h =
    let w = new_block_writer interval in
    let one : All (Point interval (es ++ (k, v) ∷ [])) (add_all (es ++ (k, v) ∷ []) w).restarts =
      subst (λ x. All (Point interval (es ++ (k, v) ∷ [])) x.restarts) (sym (add_all-snoc es k v w))
        (points_after interval es k v h) in
    subst (λ l. All (Point interval l) (add_all l w).restarts) (append_assoc es ((k, v) ∷ []) fs)
      (points_from interval (es ++ (k, v) ∷ []) fs one)

-- All restart points of a block.
pub all_Point :
    (interval : ℕ) (es : List Entry)
    → All (Point interval es) (add_all es (new_block_writer interval)).restarts
unfolding add_all
all_Point interval es = points_from interval [] es tt

-- The first entry is at the first restart point.
restarts_zero :
    (es : List Entry) (w : BlockWriter)
    → 0 < length w.restarts
    → get_or w.restarts 0 0 ≡ 0
    → (0 < length (add_all es w).restarts) × (get_or (add_all es w).restarts 0 0 ≡ 0)
unfolding add_all add
restarts_zero [] w h e = (h, e)
restarts_zero ((k, v) ∷ es) w h e =
    let (a, b) =
      front w.restarts (w.n_entries % w.restart_interval == 0) (length w.buf % u32_mod) h e in
    restarts_zero es (add k v w) a b
  where
    front :
        (rs : List ℕ) (b : Bool) (x : ℕ)
        → 0 < length rs
        → get_or rs 0 0 ≡ 0
        → (0 < length (if b then rs ++ x ∷ [] else rs))
          × (get_or (if b then rs ++ x ∷ [] else rs) 0 0 ≡ 0)
    front [] b x h e = absurd (omega arith)
    front (r ∷ rs) true x h e = (omega arith, e)
    front (r ∷ rs) false x h e = (h, e)

pub first_point :
    (interval : ℕ) (es : List Entry)
    → 0 < length es
    → (0 < length (add_all es (new_block_writer interval)).restarts)
      × (get_or (add_all es (new_block_writer interval)).restarts 0 0 ≡ 0)
unfolding add_all add
first_point interval [] h = absurd (omega arith)
first_point interval ((k, v) ∷ es) h =
    let start : (0 % interval == 0) ≡ true = rw (zero-mod interval) refl in
    restarts_zero es (add k v (new_block_writer interval)) (rw start (omega arith)) (rw start refl)
