-- ===== src/Sstable/Cache/Tests.antt =====
-- The block cache of pkg/lsm/sstable/cache.go at concrete inputs.
use indexed_watch.Prelude.{ℕ, ◌≡◌, refl, none, [], ◌∷◌}
use indexed_watch.Sstable.Cache.{
  CacheKey, LruEntry, BlockCache, new_block_cache, same_key, lookup, delete, write, set_prev,
  set_next, link_head, link_tail, push_front, unlink_prev, unlink_next, remove, is_head,
  move_to_front, evict_entry, evict_at, evict_tail, shrink, get_at, get, insert_new, set_at, set,
  keys_of_file, evict_keys, evict,
}
use indexed_watch.Sstable.Cache.Recency.{block_of, touch, Holds, new_block_cache-Holds, get-Holds}
use indexed_watch.Sstable.Cache.Eviction.{insert_absent-Holds, Stored, set-Stored}

abbrev key_of : ℕ → CacheKey
key_of n = record { file_id = 1; block_offset = n }

abbrev no_entry : ℕ → LruEntry
no_entry p = record {
  key = record { file_id = 0; block_offset = 0 };
  block = [];
  prev = none;
  next = none;
}

abbrev empty : BlockCache
empty = new_block_cache 3 no_entry

abbrev one_block : BlockCache
one_block = insert_new (key_of 0) (7 ∷ 7 ∷ []) empty

Holds-one_block : Holds one_block ((key_of 0, 7 ∷ 7 ∷ []) ∷ [])
Holds-one_block =
    insert_absent-Holds empty [] (key_of 0) (7 ∷ 7 ∷ []) (new_block_cache-Holds 3 no_entry)
      (unfold block_of in refl)

get-Holds_example :
    ((get (key_of 0) one_block).0 ≡ block_of (key_of 0) ((key_of 0, 7 ∷ 7 ∷ []) ∷ []))
    × Holds (get (key_of 0) one_block).1 (
        touch
          (key_of 0)
          (block_of (key_of 0) ((key_of 0, 7 ∷ 7 ∷ []) ∷ []))
          ((key_of 0, 7 ∷ 7 ∷ []) ∷ []))
get-Holds_example = get-Holds one_block ((key_of 0, 7 ∷ 7 ∷ []) ∷ []) (key_of 0) Holds-one_block

set-Stored_example :
    Stored
      (set (key_of 9) (8 ∷ 8 ∷ []) one_block)
      one_block.capacity
      (key_of 9)
      (8 ∷ 8 ∷ [])
      ((key_of 0, 7 ∷ 7 ∷ []) ∷ [])
      (block_of (key_of 9) ((key_of 0, 7 ∷ 7 ∷ []) ∷ []))
set-Stored_example =
    set-Stored one_block ((key_of 0, 7 ∷ 7 ∷ []) ∷ []) (key_of 9) (8 ∷ 8 ∷ []) Holds-one_block

-- Three bytes hold one of the two blocks.
older_evicted : (get (key_of 0) (set (key_of 9) (8 ∷ 8 ∷ []) one_block)).0 ≡ none
unfolding new_block_cache same_key lookup delete write set_prev set_next link_head link_tail
    push_front unlink_prev unlink_next remove is_head move_to_front evict_entry evict_at evict_tail
    shrink get_at get insert_new set_at set
older_evicted = refl

-- No block of the file is left.
file_evicted : (get (key_of 0) (evict 1 one_block)).0 ≡ none
unfolding new_block_cache same_key lookup delete write set_prev set_next link_head link_tail
    push_front unlink_prev unlink_next remove is_head move_to_front evict_entry evict_at evict_tail
    get_at get insert_new keys_of_file evict_keys evict
file_evicted = refl
