-- ===== src/Sstable/Cache.antt =====
-- pkg/lsm/sstable/cache.go: the block cache, a map and a doubly linked list in order of use. A pointer
-- to an entry is a number, and the heap has the entries. The methods hold the mutex from start to end.
pub mod Links
pub mod Moves
pub mod Recency
pub mod Eviction
pub mod Tests
use indexed_watch.Prelude.{
  ℕ, zero, suc, ◌+◌, ◌-◌, Bool, true, false, ◌&&◌, Option, none, some, List, [], ◌∷◌, length, ltb,
  ◌==◌, if◌then◌else◌,
}

pub record CacheKey : Type 0 where
  pub file_id : ℕ
  pub block_offset : ℕ

pub record LruEntry : Type 0 where
  pub key : CacheKey
  pub block : List ℕ
  pub prev : Option ℕ
  pub next : Option ℕ

-- The field `size` is a Go int; a difference below 0 would be written as 0.
pub record BlockCache : Type 0 where
  pub capacity : ℕ
  pub size : ℕ
  pub items : List (CacheKey × ℕ)
  pub head : Option ℕ
  pub tail : Option ℕ
  pub heap : ℕ → LruEntry
  pub allocated : ℕ

unfoldable pub new_block_cache : ℕ → (ℕ → LruEntry) → BlockCache
new_block_cache capacity heap = record {
  capacity = capacity;
  size = 0;
  items = [];
  head = none;
  tail = none;
  heap = heap;
  allocated = 0;
}

unfoldable pub same_key : CacheKey → CacheKey → Bool
same_key a b = a.file_id == b.file_id && a.block_offset == b.block_offset

-- The map: items[key], its writes and delete.
unfoldable pub lookup : CacheKey → List (CacheKey × ℕ) → Option ℕ
lookup k [] = none
lookup k ((j, p) ∷ m) = if same_key j k then some p else lookup k m

unfoldable pub delete : CacheKey → List (CacheKey × ℕ) → List (CacheKey × ℕ)
delete k [] = []
delete k ((j, p) ∷ m) = if same_key j k then delete k m else (j, p) ∷ delete k m

-- *p = e
unfoldable pub write : ℕ → LruEntry → BlockCache → BlockCache
write p e c = record c { heap = λ q. if p == q then e else c.heap q }

-- q.prev = v and q.next = v, where q is not nil.
unfoldable pub set_prev : ℕ → Option ℕ → BlockCache → BlockCache
set_prev q v c = write q (record (c.heap q) { prev = v }) c

unfoldable pub set_next : ℕ → Option ℕ → BlockCache → BlockCache
set_next q v c = write q (record (c.heap q) { next = v }) c

-- The two tests of `pushFront`.
unfoldable pub link_head : Option ℕ → ℕ → BlockCache → BlockCache
link_head none p c = c
link_head (some h) p c = set_prev h (some p) c

unfoldable pub link_tail : Option ℕ → ℕ → BlockCache → BlockCache
link_tail none p c = record c { tail = some p }
link_tail (some t) p c = c

unfoldable pub push_front : ℕ → BlockCache → BlockCache
push_front p c =
    let c₁ = set_next p c.head (set_prev p none c) in
    let c₂ = record (link_head c₁.head p c₁) { head = some p } in link_tail c₂.tail p c₂

-- The two tests of `remove`.
unfoldable pub unlink_prev : Option ℕ → Option ℕ → BlockCache → BlockCache
unlink_prev none next c = record c { head = next }
unlink_prev (some q) next c = set_next q next c

unfoldable pub unlink_next : Option ℕ → Option ℕ → BlockCache → BlockCache
unlink_next none prev c = record c { tail = prev }
unlink_next (some q) prev c = set_prev q prev c

unfoldable pub remove : ℕ → BlockCache → BlockCache
remove p c =
    let c₁ = unlink_prev (c.heap p).prev (c.heap p).next c in
    let c₂ = unlink_next (c₁.heap p).next (c₁.heap p).prev c₁ in
    set_next p none (set_prev p none c₂)

unfoldable pub is_head : Option ℕ → ℕ → Bool
is_head none p = false
is_head (some h) p = h == p

unfoldable pub move_to_front : ℕ → BlockCache → BlockCache
move_to_front p c = if is_head c.head p then c else push_front p (remove p c)

unfoldable pub evict_entry : ℕ → BlockCache → BlockCache
evict_entry p c =
    let c' = remove p c in
    record c' { items = delete (c'.heap p).key c'.items; size = c'.size - length (c'.heap p).block }

unfoldable pub evict_at : Option ℕ → BlockCache → BlockCache
evict_at none c = c
evict_at (some p) c = evict_entry p c

unfoldable pub evict_tail : BlockCache → BlockCache
evict_tail c = evict_at c.tail c

-- The loop of `Set`. Each round takes an entry from the list, so that one round more than
-- there are allocated entries is enough.
unfoldable pub shrink : ℕ → BlockCache → BlockCache
shrink zero c = c
shrink (suc fuel) c = elim (ltb c.capacity c.size) [
  | false ↦ c
  | true ↦ elim c.tail [ none ↦ c | some t ↦ shrink fuel (evict_tail c) ]
]

-- The data of a cached block, or nil.
unfoldable pub get_at : Option ℕ → BlockCache → Option (List ℕ) × BlockCache
get_at none c = (none, c)
get_at (some p) c = let c' = move_to_front p c in (some (c'.heap p).block, c')

unfoldable pub get : CacheKey → BlockCache → Option (List ℕ) × BlockCache
get key c = get_at (lookup key c.items) c

-- A new entry at the front.
unfoldable pub insert_new : CacheKey → List ℕ → BlockCache → BlockCache
insert_new key block c =
    let p = c.allocated in
    let c₁ = write p (record { key = key; block = block; prev = none; next = none }) c in
    let c₂ = record c₁ { items = (key, p) ∷ c₁.items; allocated = p + 1 } in
    let c₃ = push_front p c₂ in record c₃ { size = c₃.size + length block }

unfoldable pub set_at : Option ℕ → CacheKey → List ℕ → BlockCache → BlockCache
set_at (some p) key block c = move_to_front p c
set_at none key block c = let c' = insert_new key block c in shrink (c'.allocated + 1) c'

unfoldable pub set : CacheKey → List ℕ → BlockCache → BlockCache
set key block c = set_at (lookup key c.items) key block c

-- The keys of a file, in the order of the map's iteration.
unfoldable pub keys_of_file : ℕ → List (CacheKey × ℕ) → List CacheKey
keys_of_file id [] = []
keys_of_file id ((k, p) ∷ m) = if k.file_id == id then k ∷ keys_of_file id m else keys_of_file id m

unfoldable pub evict_keys : List CacheKey → BlockCache → BlockCache
evict_keys [] c = c
evict_keys (k ∷ ks) c = evict_keys ks (evict_at (lookup k c.items) c)

-- `Evict`
unfoldable pub evict : ℕ → BlockCache → BlockCache
evict id c = evict_keys (keys_of_file id c.items) c
