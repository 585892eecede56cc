-- ===== src/Sstable/Cache/Eviction.antt =====
-- `Set` and `Evict` of pkg/lsm/sstable/cache.go on the list of blocks in the order of their use.
use indexed_watch.Prelude.{
  ℕ, zero, suc, ◌+◌, ◌-◌, ◌<◌, ◌≤◌, ◌≡◌, refl, ap, ap₂, sym, subst, ◌∙◌, Bool, true, false,
  Bool-cases, Option-cases, inl, inr, Option, none, some, List, [], ◌∷◌, ◌++◌, if◌then◌else◌, All,
  append-nil, append_assoc, length, length-append, ltb, arith, ==_self,
}
use indexed_watch.Sstable.Cache.{
  CacheKey, LruEntry, BlockCache, same_key, lookup, delete, write, push_front, remove, evict_entry,
  evict_at, evict_tail, shrink, insert_new, set_at, set,
}
use indexed_watch.Sstable.Cache.Links.{
  last, Links, Links-put, Nodup, Other, put, remove-Kept, remove-Links, snoc_view, last-snoc,
}
use indexed_watch.Sstable.Cache.Moves.{without, push_front-Links, push_front-Kept}
use indexed_watch.Sstable.Cache.Recency.{
  Cached, block_of, touch, total, contents, locate, Differ, Distinct, Holds, same_key_eq,
  same_key_sym, contents-same, locate-same, Distinct-same, Distinct-middle, total-middle,
  All-without, locate-front, block_of-none, locate-Place, block_of-Place, move_to_front-Holds,
}

passed :
    (a b : Bool) (p : ℕ) (r : Option ℕ)
    → b ≡ a
    → (if a then none else r) ≡ (if a then none else (if b then some p else r))
passed true b p r e = refl
passed false b p r e = rw e refl

lookup-delete :
    (k j : CacheKey) (m : List (CacheKey × ℕ))
    → lookup j (delete k m) ≡ (if same_key k j then none else lookup j m)
unfolding lookup delete
lookup-delete k j [] = ground arith
lookup-delete k j ((i, p) ∷ m) = elim (Bool-cases (same_key i k)) [
  | inl a ↦
      let e = same_key_eq i k a in
      rw a (
        lookup-delete k j m
        ∙ passed (same_key k j) (same_key i j) p (lookup j m) (ap (λ x. same_key x j) e))
  | inr n ↦ elim (Bool-cases (same_key i j)) [
    | inl b ↦
        let e = same_key_eq i j b in
        let other : same_key k j ≡ false = ap (same_key k) (sym e) ∙ same_key_sym k i ∙ n in
        rw n (rw b (rw other refl))
    | inr b ↦ rw n (rw b (lookup-delete k j m))
  ]
]

locate-none :
    (h : ℕ → LruEntry) (k : CacheKey) (ps : List ℕ) → All (Differ h k) ps → locate h k ps ≡ none
unfolding locate
locate-none h k [] d = refl
locate-none h k (p ∷ ps) d = rw d.0 (locate-none h k ps d.1)

none-Differ :
    (h : ℕ → LruEntry) (k : CacheKey) (ps : List ℕ) → locate h k ps ≡ none → All (Differ h k) ps
unfolding locate
none-Differ h k [] e = tt
none-Differ h k (p ∷ ps) e = elim (Bool-cases (same_key (h p).key k)) [
  | inl y ↦ absurd (let e' = rw y at e in cc)
  | inr n ↦ (n, none-Differ h k ps (rw n at e))
]

locate-without :
    (h : ℕ → LruEntry) (k : CacheKey) (xs : List ℕ) (p : ℕ) (ys : List ℕ)
    → Distinct h (xs ++ p ∷ ys)
    → (if same_key (h p).key k then none else locate h k (xs ++ p ∷ ys)) ≡ locate h k (xs ++ ys)
locate-without h k xs p ys d = elim (Bool-cases (same_key (h p).key k)) [
  | inl y ↦
      let e = same_key_eq (h p).key k y in
      let (differ, _) = Distinct-middle h xs p ys d in
      rw y (sym (locate-none h k (xs ++ ys) (subst (λ j. All (Differ h j) (xs ++ ys)) e differ)))
  | inr n ↦ rw n (sym (locate-front h k xs p ys d) ∙ (unfold locate in rw n refl))
]

-- An entry is evicted.
evict_entry-Holds :
    (c : BlockCache) (xs : List ℕ) (p : ℕ) (ys : List ℕ) (l : List Cached)
    → (v : Holds c l) → v.pointers ≡ xs ++ p ∷ ys
    → Holds (evict_entry p c) (contents c.heap (xs ++ ys))
unfolding evict_entry
evict_entry-Holds c xs p ys l v e =
    let h = c.heap in
    let c' = remove p c in
    let kept = remove-Kept p c in
    let nodup = subst Nodup e v.nodup in
    let distinct = subst (Distinct h) e v.distinct in
    let w = remove-Links c xs p ys (subst (Links c) e v.links) nodup in
    let (_, out) = Distinct-middle h xs p ys distinct in
    let (_, rest) =
      All-without (λ (q : ℕ). q < c.allocated) xs p ys
        (subst (All (λ (q : ℕ). q < c.allocated)) e v.fresh) in
    let size : c.size ≡ length (h p).block + total (contents h (xs ++ ys)) =
      v.size ∙ ap total (v.blocks ∙ ap (contents h) e) ∙ total-middle h xs p ys in
    record {
      pointers = xs ++ ys;
      links = record { chain = w.chain; front = w.front; back = w.back };
      nodup = without xs p ys nodup;
      fresh = subst (λ n. All (λ (q : ℕ). q < n) (xs ++ ys)) (sym kept.allocated) rest;
      distinct = Distinct-same h c'.heap kept.keys kept.blocks (xs ++ ys) out;
      found = λ j.
          lookup-delete (c'.heap p).key j c'.items
          ∙ ap₂ (λ x m. if same_key x j then none else lookup j m) (kept.keys p) kept.items
          ∙ ap (λ r. if same_key (h p).key j then none else r) (v.found j ∙ ap (locate h j) e)
          ∙ locate-without h j xs p ys distinct
          ∙ sym (locate-same h c'.heap kept.keys kept.blocks j (xs ++ ys));
      blocks = sym (contents-same h c'.heap kept.keys kept.blocks (xs ++ ys));
      size = ap₂ (λ n b. n - length b) kept.size (kept.blocks p) ∙ omega (arith, size);
      few = omega (
        arith,
        kept.allocated,
        ap (length {0}) e,
        v.few,
        length-append xs (p ∷ ys),
        length-append xs ys,
      );
    }

-- The blocks that stay fit, and with the first one that went they would not.
abbrev pub Tight : ℕ → List Cached → List Cached → Type 0
Tight capacity kept [] = Unit
Tight capacity kept (e ∷ gone) = capacity < total (kept ++ e ∷ [])

pub record Shrunk (c : BlockCache) (capacity : ℕ) (l : List Cached) : Type 0 where
  pub kept : List Cached
  pub gone : List Cached
  pub split : l ≡ kept ++ gone
  pub holds : Holds c kept
  pub fits : total kept ≤ capacity
  pub tight : Tight capacity kept gone

contents-append :
    (h : ℕ → LruEntry) (xs ys : List ℕ) → contents h (xs ++ ys) ≡ contents h xs ++ contents h ys
contents-append h [] ys = refl
contents-append h (x ∷ xs) ys = ap (λ l. ((h x).key, (h x).block) ∷ l) (contents-append h xs ys)

length-contents : (h : ℕ → LruEntry) (ps : List ℕ) → length (contents h ps) ≡ length ps
length-contents h [] = refl
length-contents h (p ∷ ps) = ap suc (length-contents h ps)

-- One more entry has gone before those.
Tight-snoc :
    (capacity : ℕ) (kept gone : List Cached) (e : Cached)
    → Tight capacity kept gone
    → (gone ≡ [] → capacity < total (kept ++ e ∷ []))
    → Tight capacity kept (gone ++ e ∷ [])
Tight-snoc capacity kept [] e t over = over refl
Tight-snoc capacity kept (g ∷ gone) e t over = t

shrink_stop : (fuel : ℕ) (c : BlockCache) → ltb c.capacity c.size ≡ false → shrink (suc fuel) c ≡ c
unfolding shrink
shrink_stop fuel c e = rw (e, shrink) refl

shrink_round :
    (fuel t : ℕ) (c : BlockCache)
    → ltb c.capacity c.size ≡ true
    → c.tail ≡ some t
    → shrink (suc fuel) c ≡ shrink fuel (evict_entry t c)
unfolding shrink evict_tail evict_at
shrink_round fuel t c e tail = ground (arith, e, tail)

evict_entry_capacity : (p : ℕ) (c : BlockCache) → (evict_entry p c).capacity ≡ c.capacity
unfolding evict_entry
evict_entry_capacity p c = (remove-Kept p c).capacity

shrink-Shrunk :
    (fuel : ℕ) (c : BlockCache) (l : List Cached)
    → Holds c l
    → length l < fuel
    → Shrunk (shrink fuel c) c.capacity l
shrink-Shrunk zero c l v h = absurd (omega arith)
shrink-Shrunk (suc fuel) c l v h = elim (Bool-cases (ltb c.capacity c.size)) [
  | inr small ↦
      subst (λ x. Shrunk x c.capacity l) (sym (shrink_stop fuel c small))
        (record {
          kept = l;
          gone = [];
          split = sym (append-nil l);
          holds = v;
          fits = let s = v.size in ground arith;
          tight = tt;
        })
  | inl large ↦ elim (snoc_view v.pointers) [
    | inl e ↦ absurd (
        let s = v.size ∙ ap total (v.blocks ∙ ap (contents c.heap) e) in
        unfold total in ground arith)
    | inr (ws, q, e) ↦
        let tail : c.tail ≡ some q =
          v.links.back ∙ ap (λ ps. last ps none) e ∙ last-snoc ws q none in
        let last_one : Cached = ((c.heap q).key, (c.heap q).block) in
        let front = contents c.heap ws in
        let whole : l ≡ front ++ last_one ∷ [] =
          v.blocks ∙ ap (contents c.heap) e ∙ contents-append c.heap ws (q ∷ []) in
        let less : Holds (evict_entry q c) front =
          subst (λ ps. Holds (evict_entry q c) (contents c.heap ps)) (append-nil ws)
            (evict_entry-Holds c ws q [] l v e) in
        let s =
          shrink-Shrunk fuel (evict_entry q c) front less
            (omega (arith, ap (length {0}) whole, length-append front (last_one ∷ []))) in
        let s' : Shrunk (shrink fuel (evict_entry q c)) c.capacity front =
          subst (λ n. Shrunk (shrink fuel (evict_entry q c)) n front) (evict_entry_capacity q c)
            s in
        let over : c.capacity < total (front ++ last_one ∷ []) =
          let n = v.size ∙ ap total whole in ground arith in
        subst (λ x. Shrunk x c.capacity l) (sym (shrink_round fuel q c large tail))
          (record {
            kept = s'.kept;
            gone = s'.gone ++ last_one ∷ [];
            split =
                whole
                ∙ ap (λ x. x ++ last_one ∷ []) s'.split
                ∙ append_assoc s'.kept s'.gone (last_one ∷ []);
            holds = s'.holds;
            fits = s'.fits;
            tight = Tight-snoc c.capacity s'.kept s'.gone last_one s'.tight (λ n.
                let all : front ≡ s'.kept =
                  s'.split ∙ ap (λ g. s'.kept ++ g) n ∙ append-nil s'.kept in
                subst (λ f. c.capacity < total (f ++ last_one ∷ [])) all over);
          })
  ]
]

put-others :
    (p : ℕ) (e : LruEntry) (h : ℕ → LruEntry) (ps : List ℕ)
    → All (Other p) ps
    → contents (put p e h) ps ≡ contents h ps
put-others p e h [] o = refl
put-others p e h (q ∷ ps) o = rw (o.0, put-others p e h ps o.1) refl

locate-put :
    (p : ℕ) (e : LruEntry) (h : ℕ → LruEntry) (k : CacheKey) (ps : List ℕ)
    → All (Other p) ps
    → locate (put p e h) k ps ≡ locate h k ps
unfolding locate
locate-put p e h k [] o = refl
locate-put p e h k (q ∷ ps) o = rw (o.0, locate-put p e h k ps o.1) refl

Differ-put :
    (p : ℕ) (e : LruEntry) (h : ℕ → LruEntry) (k : CacheKey) (ps : List ℕ)
    → All (Other p) ps
    → All (Differ h k) ps
    → All (Differ (put p e h) k) ps
Differ-put p e h k [] o d = tt
Differ-put p e h k (q ∷ ps) o d = (rw o.0 d.0, Differ-put p e h k ps o.1 d.1)

Distinct-put :
    (p : ℕ) (e : LruEntry) (h : ℕ → LruEntry) (ps : List ℕ)
    → All (Other p) ps
    → Distinct h ps
    → Distinct (put p e h) ps
Distinct-put p e h [] o d = tt
Distinct-put p e h (q ∷ ps) o d =
    (rw o.0 (Differ-put p e h (h q).key ps o.1 d.0), Distinct-put p e h ps o.1 d.1)

fresh_others : (n : ℕ) (ps : List ℕ) → All (λ (q : ℕ). q < n) ps → All (Other n) ps
fresh_others n [] h = tt
fresh_others n (p ∷ ps) h = (ground arith, fresh_others n ps h.1)

fresh_later : (n : ℕ) (ps : List ℕ) → All (λ (q : ℕ). q < n) ps → All (λ (q : ℕ). q < n + 1) ps
fresh_later n [] h = tt
fresh_later n (p ∷ ps) h = (omega arith, fresh_later n ps h.1)

put-here : (p : ℕ) (e : LruEntry) (h : ℕ → LruEntry) → put p e h p ≡ e
put-here p e h = rw (==_self p) refl

found_first :
    (k j : CacheKey) (p : ℕ) (h : ℕ → LruEntry) (m : List (CacheKey × ℕ)) (ps : List ℕ)
    → (h p).key ≡ k
    → lookup j m ≡ locate h j ps
    → lookup j ((k, p) ∷ m) ≡ locate h j (p ∷ ps)
unfolding lookup locate
found_first k j p h m ps e f = ap₂ (λ x r. if same_key x j then some p else r) (sym e) f

-- A new key comes to the front.
insert_new-Holds :
    (c : BlockCache) (l : List Cached) (k : CacheKey) (block : List ℕ)
    → (v : Holds c l) → locate c.heap k v.pointers ≡ none
    → Holds (insert_new k block c) ((k, block) ∷ l)
unfolding insert_new write
insert_new-Holds c l k block v absent =
    let p = c.allocated in
    let e : LruEntry = record { key = k; block = block; prev = none; next = none } in
    let ps = v.pointers in
    let h' = put p e c.heap in
    let c₁ = write p e c in
    let c₂ = record c₁ { items = (k, p) ∷ c₁.items; allocated = p + 1 } in
    let c₃ = push_front p c₂ in
    let kept = push_front-Kept p c₂ in
    let o = fresh_others p ps v.fresh in
    let w = Links-put c p e ps o v.links in
    let w₂ : Links c₂ ps = record { chain = w.chain; front = w.front; back = w.back } in
    let w₃ = push_front-Links p c₂ ps o v.nodup w₂ in
    let here : (h' p).key ≡ k = ap (λ x. x.key) (put-here p e c.heap) in
    let here_block : (h' p).block ≡ block = ap (λ x. x.block) (put-here p e c.heap) in
    let distinct : Distinct h' (p ∷ ps) = (
      subst (λ j. All (Differ h' j) ps) (sym here)
          (Differ-put p e c.heap k ps o (none-Differ c.heap k ps absent)),
      Distinct-put p e c.heap ps o v.distinct,
    ) in
    let now : (k, block) ∷ l ≡ contents h' (p ∷ ps) =
      ap₂ (λ x r. x ∷ r) (ap₂ (λ j b. (j, b)) (sym here) (sym here_block))
        (v.blocks ∙ sym (put-others p e c.heap ps o)) in
    let first_found = λ (j : CacheKey).
      found_first k j p h' c.items ps here (v.found j ∙ sym (locate-put p e c.heap j ps o)) in
    record {
      pointers = p ∷ ps;
      links = record { chain = w₃.chain; front = w₃.front; back = w₃.back };
      nodup = (o, v.nodup);
      fresh =
          subst (λ n. All (λ (q : ℕ). q < n) (p ∷ ps)) (sym kept.allocated)
            (omega arith, fresh_later p ps v.fresh);
      distinct = Distinct-same h' c₃.heap kept.keys kept.blocks (p ∷ ps) distinct;
      found = λ j.
          ap (lookup j) kept.items
          ∙ first_found j
          ∙ sym (locate-same h' c₃.heap kept.keys kept.blocks j (p ∷ ps));
      blocks = now ∙ sym (contents-same h' c₃.heap kept.keys kept.blocks (p ∷ ps));
      size = ap (λ n. n + length block) (kept.size ∙ v.size) ∙ (unfold total in omega arith);
      few = omega (arith, kept.allocated, v.few);
    }

-- A key that the list does not have.
pub insert_absent-Holds :
    (c : BlockCache) (l : List Cached) (k : CacheKey) (block : List ℕ)
    → Holds c l
    → block_of k l ≡ none
    → Holds (insert_new k block c) ((k, block) ∷ l)
insert_absent-Holds c l k block v absent = elim (Option-cases (locate c.heap k v.pointers)) [
  | inl n ↦ insert_new-Holds c l k block v n
  | inr (p, e) ↦
      let s = locate-Place c.heap k v.pointers p e in
      let (b, _) = block_of-Place c.heap k s.front p s.back s.skipped s.has in
      let found = ap (block_of k) (v.blocks ∙ ap (contents c.heap) s.split) ∙ b in absurd (cc)
]

-- What `Set` leaves: a key that is there is used, and its block stays; a new one comes to the
-- front, and the blocks used longest ago go until the others fit, and no more than that.
abbrev pub Stored : BlockCache → ℕ → CacheKey → List ℕ → List Cached → Option (List ℕ) → Type 0
Stored c capacity k block l (some old) = Holds c (touch k (some old) l)
Stored c capacity k block l none = Shrunk c capacity ((k, block) ∷ l)

insert_new_capacity :
    (k : CacheKey) (b : List ℕ) (c : BlockCache) → (insert_new k b c).capacity ≡ c.capacity
unfolding insert_new write
insert_new_capacity k b c =
    let e : LruEntry = record { key = k; block = b; prev = none; next = none } in
    let c₁ = write c.allocated e c in
    (push_front-Kept c.allocated
      (record c₁ { items = (k, c.allocated) ∷ c₁.items; allocated = c.allocated + 1 })).capacity

set_at-Stored :
    (c : BlockCache) (l : List Cached) (k : CacheKey) (block : List ℕ) (q : Option ℕ)
    → (v : Holds c l) → locate c.heap k v.pointers ≡ q
    → Stored (set_at q k block c) c.capacity k block l (block_of k l)
unfolding set_at
set_at-Stored c l k block none v e =
    let absent : block_of k l ≡ none =
      ap (block_of k) v.blocks ∙ block_of-none c.heap k v.pointers e in
    let c' = insert_new k block c in
    let w = insert_new-Holds c l k block v e in
    let s =
      shrink-Shrunk (c'.allocated + 1) c' ((k, block) ∷ l) w
        (omega (arith, ap (length {0}) w.blocks, length-contents c'.heap w.pointers, w.few)) in
    rw absent (
      subst (λ n. Shrunk (shrink (c'.allocated + 1) c') n ((k, block) ∷ l))
        (insert_new_capacity k block c) s)
set_at-Stored c l k block (some p) v e =
    let s = locate-Place c.heap k v.pointers p e in
    let (b, w) = move_to_front-Holds c s.front p s.back k l v s.split s.has s.skipped in
    rw b (unfold touch in w)

-- `Set` of a key that the cache has makes its block, which stays, the last used one. A new key and its block
-- come to the front, then the blocks that were used longest ago go, as many as
-- needed for the others to fit into the capacity and no more.
pub set-Stored :
    (c : BlockCache) (l : List Cached) (k : CacheKey) (block : List ℕ)
    → Holds c l
    → Stored (set k block c) c.capacity k block l (block_of k l)
unfolding set
set-Stored c l k block v =
    rw (v.found k) (set_at-Stored c l k block (locate c.heap k v.pointers) v refl)
