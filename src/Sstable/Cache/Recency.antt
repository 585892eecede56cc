-- ===== src/Sstable/Cache/Recency.antt =====
-- The block cache of pkg/lsm/sstable/cache.go as a list of blocks in the order of their last use.
use indexed_watch.Prelude.{
  ℕ, ◌+◌, ◌<◌, ◌≡◌, refl, ap, ap₂, sym, subst, ◌∙◌, true, false, Bool-cases, inl, inr, Option, none,
  some, List, [], ◌∷◌, ◌++◌, if◌then◌else◌, All, All-append, All-append-split, length,
  length-append, ◌≤◌, arith, ==_iff, ==_self,
}
use indexed_watch.Sstable.Cache.{
  CacheKey, LruEntry, BlockCache, new_block_cache, same_key, lookup, move_to_front, get_at, get,
}
use indexed_watch.Sstable.Cache.Links.{Links, Nodup, around_others}
use indexed_watch.Sstable.Cache.Moves.{without, move_to_front-Links, move_to_front-Kept}

-- A key and its block.
abbrev pub Cached : Type 0
Cached = CacheKey × List ℕ

-- The block of a key, and the list without it.
unfoldable pub block_of : CacheKey → List Cached → Option (List ℕ)
block_of k [] = none
block_of k ((j, b) ∷ l) = if same_key j k then some b else block_of k l

unfoldable pub drop_key : CacheKey → List Cached → List Cached
drop_key k [] = []
drop_key k ((j, b) ∷ l) = if same_key j k then l else (j, b) ∷ drop_key k l

-- A use of a key.
unfoldable pub touch : CacheKey → Option (List ℕ) → List Cached → List Cached
touch k none l = l
touch k (some b) l = (k, b) ∷ drop_key k l

unfoldable pub total : List Cached → ℕ
total [] = 0
total ((k, b) ∷ l) = length b + total l

abbrev pub contents : (ℕ → LruEntry) → List ℕ → List Cached
contents h [] = []
contents h (p ∷ ps) = ((h p).key, (h p).block) ∷ contents h ps

unfoldable pub locate : (ℕ → LruEntry) → CacheKey → List ℕ → Option ℕ
locate h k [] = none
locate h k (p ∷ ps) = if same_key (h p).key k then some p else locate h k ps

abbrev pub Differ : (ℕ → LruEntry) → CacheKey → ℕ → Type 0
Differ h k p = same_key (h p).key k ≡ false

abbrev pub Distinct : (ℕ → LruEntry) → List ℕ → Type 0
Distinct h [] = Unit
Distinct h (p ∷ ps) = All (Differ h (h p).key) ps × Distinct h ps

-- The cache has these blocks, the last used one first.
pub record Holds (c : BlockCache) (l : List Cached) : Type 0 where
  pub pointers : List ℕ
  pub links : Links c pointers
  pub nodup : Nodup pointers
  pub fresh : All (λ (p : ℕ). p < c.allocated) pointers
  pub distinct : Distinct c.heap pointers
  pub found : (k : CacheKey) → lookup k c.items ≡ locate c.heap k pointers
  pub blocks : l ≡ contents c.heap pointers
  pub size : c.size ≡ total l
  pub few : length pointers ≤ c.allocated

pub same_key_eq : (a b : CacheKey) → same_key a b ≡ true → a ≡ b
unfolding same_key
same_key_eq a b h = ground (arith, ==_iff a.file_id b.file_id, ==_iff a.block_offset b.block_offset)

pub same_key_self : (a : CacheKey) → same_key a a ≡ true
unfolding same_key
same_key_self a = ground (arith, ==_self a.file_id, ==_self a.block_offset)

pub same_key_sym : (a b : CacheKey) → same_key a b ≡ same_key b a
unfolding same_key
same_key_sym a b = ground (arith)

-- Entries with the same keys and blocks.
module _ (h h' : ℕ → LruEntry) (ks : (q : ℕ) → (h' q).key ≡ (h q).key)
    (bs : (q : ℕ) → (h' q).block ≡ (h q).block) where
  pub contents-same : (ps : List ℕ) → contents h' ps ≡ contents h ps
  contents-same [] = refl
  contents-same (p ∷ ps) = ap₂ (λ e l. e ∷ l) (ap₂ (λ k b. (k, b)) (ks p) (bs p)) (contents-same ps)

  pub locate-same : (k : CacheKey) (ps : List ℕ) → locate h' k ps ≡ locate h k ps
  unfolding locate
  locate-same k [] = refl
  locate-same k (p ∷ ps) = rw (ks p, locate-same k ps) refl

  pub Differ-same : (k : CacheKey) (ps : List ℕ) → All (Differ h k) ps → All (Differ h' k) ps
  Differ-same k [] d = tt
  Differ-same k (p ∷ ps) d = (rw (ks p) d.0, Differ-same k ps d.1)

  pub Distinct-same : (ps : List ℕ) → Distinct h ps → Distinct h' ps
  Distinct-same [] d = tt
  Distinct-same (p ∷ ps) d = (rw (ks p) (Differ-same (h p).key ps d.0), Distinct-same ps d.1)

-- The place of a key.
pub record Place (h : ℕ → LruEntry) (k : CacheKey) (ps : List ℕ) (p : ℕ) : Type 0 where
  pub front : List ℕ
  pub back : List ℕ
  pub split : ps ≡ front ++ p ∷ back
  pub has : (h p).key ≡ k
  pub skipped : All (Differ h k) front

pub locate-Place :
    (h : ℕ → LruEntry) (k : CacheKey) (ps : List ℕ) (p : ℕ)
    → locate h k ps ≡ some p
    → Place h k ps p
unfolding locate
locate-Place h k [] p e = absurd (cc)
locate-Place h k (q ∷ ps) p e = elim (Bool-cases (same_key (h q).key k)) [
  | inl yes' ↦
      let e' = rw yes' at e in
      let same : q ≡ p = cc in
      record {
        front = [];
        back = ps;
        split = ap (λ x. x ∷ ps) same;
        has = ap (λ x. (h x).key) (sym same) ∙ same_key_eq (h q).key k yes';
        skipped = tt;
      }
  | inr no' ↦
      let v = locate-Place h k ps p (rw no' at e) in
      record {
        front = q ∷ v.front;
        back = v.back;
        split = ap (λ l. q ∷ l) v.split;
        has = v.has;
        skipped = (no', v.skipped);
      }
]

pub block_of-Place :
    (h : ℕ → LruEntry) (k : CacheKey) (xs : List ℕ) (p : ℕ) (ys : List ℕ)
    → All (Differ h k) xs
    → (h p).key ≡ k
    → (block_of k (contents h (xs ++ p ∷ ys)) ≡ some (h p).block)
      × (drop_key k (contents h (xs ++ p ∷ ys)) ≡ contents h (xs ++ ys))
unfolding block_of drop_key
block_of-Place h k [] p ys d e =
    let t : same_key (h p).key k ≡ true = ap (λ x. same_key x k) e ∙ same_key_self k in
    (rw t refl, rw t refl)
block_of-Place h k (x ∷ xs) p ys d e =
    let (a, b) = block_of-Place h k xs p ys d.1 e in
    (rw d.0 a, rw d.0 (ap (λ l. ((h x).key, (h x).block) ∷ l) b))

pub block_of-none :
    (h : ℕ → LruEntry) (k : CacheKey) (ps : List ℕ)
    → locate h k ps ≡ none
    → block_of k (contents h ps) ≡ none
unfolding block_of locate
block_of-none h k [] e = refl
block_of-none h k (p ∷ ps) e = elim (Bool-cases (same_key (h p).key k)) [
  | inl yes' ↦ absurd (let e' = rw yes' at e in cc)
  | inr no' ↦ rw no' (block_of-none h k ps (rw no' at e))
]

-- With distinct keys the order does not matter to a search.
pub Distinct-middle :
    (h : ℕ → LruEntry) (xs : List ℕ) (p : ℕ) (ys : List ℕ)
    → Distinct h (xs ++ p ∷ ys)
    → All (Differ h (h p).key) (xs ++ ys) × Distinct h (xs ++ ys)
Distinct-middle h [] p ys d = (d.0, d.1)
Distinct-middle h (x ∷ xs) p ys d =
    let (a, b) = Distinct-middle h xs p ys d.1 in
    let (u, v) = All-append-split (Differ h (h x).key) xs (p ∷ ys) d.0 in
    ((same_key_sym (h x).key (h p).key ∙ v.0, a), (All-append (Differ h (h x).key) xs ys u v.1, b))

pub locate-front :
    (h : ℕ → LruEntry) (k : CacheKey) (xs : List ℕ) (p : ℕ) (ys : List ℕ)
    → Distinct h (xs ++ p ∷ ys)
    → locate h k (p ∷ (xs ++ ys)) ≡ locate h k (xs ++ p ∷ ys)
unfolding locate
locate-front h k [] p ys d = refl
locate-front h k (x ∷ xs) p ys d =
    let (u, v) = All-append-split (Differ h (h x).key) xs (p ∷ ys) d.0 in
    elim (Bool-cases (same_key (h x).key k)) [
      | inl yes' ↦
          let e = same_key_eq (h x).key k yes' in
          let no' : same_key (h p).key k ≡ false = ap (same_key (h p).key) (sym e) ∙ v.0 in
          rw no' (rw yes' refl)
      | inr no' ↦ rw no' (locate-front h k xs p ys d.1)
    ]

pub total-middle :
    (h : ℕ → LruEntry) (xs : List ℕ) (p : ℕ) (ys : List ℕ)
    → total (contents h (xs ++ p ∷ ys)) ≡ length (h p).block + total (contents h (xs ++ ys))
unfolding total
total-middle h [] p ys = refl
total-middle h (x ∷ xs) p ys = omega (arith, total-middle h xs p ys)

pub All-without :
    (P : ℕ → Type 0) (xs : List ℕ) (p : ℕ) (ys : List ℕ)
    → All P (xs ++ p ∷ ys)
    → P p × All P (xs ++ ys)
All-without P [] p ys h = (h.0, h.1)
All-without P (x ∷ xs) p ys h = let (a, b) = All-without P xs p ys h.1 in (a, (h.0, b))

-- The entry of a key comes to the front.
pub move_to_front-Holds :
    (c : BlockCache) (xs : List ℕ) (p : ℕ) (ys : List ℕ) (k : CacheKey) (l : List Cached)
    → (v : Holds c l) → v.pointers ≡ xs ++ p ∷ ys
    → (c.heap p).key ≡ k
    → All (Differ c.heap k) xs
    → (block_of k l ≡ some (c.heap p).block)
      × Holds (move_to_front p c) ((k, (c.heap p).block) ∷ drop_key k l)
move_to_front-Holds c xs p ys k l v e key skip =
    let h = c.heap in
    let c' = move_to_front p c in
    let kept = move_to_front-Kept p c in
    let links = subst (Links c) e v.links in
    let nodup = subst Nodup e v.nodup in
    let distinct = subst (Distinct h) e v.distinct in
    let (there, out) = Distinct-middle h xs p ys distinct in
    let (small, rest) =
      All-without (λ (q : ℕ). q < c.allocated) xs p ys
        (subst (All (λ (q : ℕ). q < c.allocated)) e v.fresh) in
    let blocks : l ≡ contents h (xs ++ p ∷ ys) = v.blocks ∙ ap (contents h) e in
    let (b, d) = block_of-Place h k xs p ys skip key in
    let now : (k, (h p).block) ∷ drop_key k l ≡ contents h (p ∷ (xs ++ ys)) =
      ap₂ (λ x r. (x, (h p).block) ∷ r) (sym key) (ap (drop_key k) blocks ∙ d) in
    (
      ap (block_of k) blocks ∙ b,
      record {
        pointers = p ∷ (xs ++ ys);
        links = move_to_front-Links c xs p ys links nodup;
        nodup = (around_others xs p ys nodup, without xs p ys nodup);
        fresh =
            subst (λ n. All (λ (q : ℕ). q < n) (p ∷ (xs ++ ys))) (sym kept.allocated) (small, rest);
        distinct = Distinct-same h c'.heap kept.keys kept.blocks (p ∷ (xs ++ ys)) (there, out);
        found = λ j.
            ap (lookup j) kept.items
            ∙ v.found j
            ∙ ap (locate h j) e
            ∙ sym (locate-front h j xs p ys distinct)
            ∙ sym (locate-same h c'.heap kept.keys kept.blocks j (p ∷ (xs ++ ys)));
        blocks = now ∙ sym (contents-same h c'.heap kept.keys kept.blocks (p ∷ (xs ++ ys)));
        size =
            kept.size
            ∙ v.size
            ∙ ap total blocks
            ∙ total-middle h xs p ys
            ∙ (unfold total in ap total (sym now));
        few = omega (
          arith,
          kept.allocated,
          ap (length {0}) e,
          v.few,
          length-append xs (p ∷ ys),
          length-append xs ys,
        );
      },
    )

get_at-Holds :
    (c : BlockCache) (l : List Cached) (k : CacheKey) (q : Option ℕ)
    → (v : Holds c l) → locate c.heap k v.pointers ≡ q
    → ((get_at q c).0 ≡ block_of k l) × Holds (get_at q c).1 (touch k (block_of k l) l)
unfolding get_at touch
get_at-Holds c l k none v e =
    let b : block_of k l ≡ none = ap (block_of k) v.blocks ∙ block_of-none c.heap k v.pointers e in
    (sym b, rw b v)
get_at-Holds c l k (some p) v e =
    let s = locate-Place c.heap k v.pointers p e in
    let (b, w) = move_to_front-Holds c s.front p s.back k l v s.split s.has s.skipped in
    (ap some ((move_to_front-Kept p c).blocks p) ∙ sym b, rw b w)

-- `Get` answers with the block of the key, or with nil if the cache does not have it, and a
-- block that was found becomes the last used one, with the others in their order.
pub get-Holds :
    (c : BlockCache) (l : List Cached) (k : CacheKey)
    → Holds c l
    → ((get k c).0 ≡ block_of k l) × Holds (get k c).1 (touch k (block_of k l) l)
unfolding get
get-Holds c l k v = rw (v.found k) (get_at-Holds c l k (locate c.heap k v.pointers) v refl)

-- A new cache is empty.
pub new_block_cache-Holds :
    (capacity : ℕ) (heap : ℕ → LruEntry) → Holds (new_block_cache capacity heap) []
unfolding new_block_cache total locate lookup
new_block_cache-Holds capacity heap = record {
  pointers = [];
  links = record { chain = tt; front = refl; back = refl };
  nodup = tt;
  fresh = tt;
  distinct = tt;
  found = λ k. refl;
  blocks = refl;
  size = refl;
  few = omega arith;
}
