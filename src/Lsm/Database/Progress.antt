-- ===== src/Lsm/Database/Progress.antt =====
-- When the writes of pkg/lsm/lsm.go succeed.
use indexed_watch.Prelude.{
  ℕ, ◌+◌, ◌-◌, ◌%◌, ◌^◌, ◌≤◌, ◌<◌, ◌≡◌, refl, ap, ◌∙◌, some, List, [], length, arith, u64_mod,
  u32_mod, le→ltb_false,
}
use indexed_watch.Lsm.Arena.{Arena, new, alloc, max_size, align_down}
use indexed_watch.Lsm.InternalKey.{kind_set, kind_delete, make_internal_key, length-make}
use indexed_watch.Lsm.SortedMap.{has_key}
use indexed_watch.Lsm.Memtable.{
  Memtable, Added, added, record_exists, full, new_memtable, new_node, add, update_seq_range,
}
use indexed_watch.Lsm.Memtable
use indexed_watch.Lsm.Database.{Db, done, settle, retry, rotate_memtable, set, delete, write}
use indexed_watch.Lsm.Database.Writes.{IsValid, Writes, set-Writes, delete-Writes, write_open}

abbrev arena_of : ℕ → ℕ → Arena
arena_of n capacity = record { n = n; capacity = capacity }

abbrev empty_memtable : ℕ → Memtable
empty_memtable n = record { entries = []; arena = arena_of 100 n; min_seq_num = 0; max_seq_num = 0 }

-- An allocation that fits succeeds.
alloc-arena_of :
    (s al n capacity : ℕ)
    → n + (s + al - 1) ≤ capacity
    → capacity < 2 ^ 32
    → (o : ℕ) × (alloc s al (arena_of n capacity) ≡ (some o, arena_of (n + (s + al - 1)) capacity))
unfolding alloc
alloc-arena_of s al n capacity h b =
    let whole : (n + (s + al - 1)) % u64_mod ≡ n + (s + al - 1) = omega arith in
    (
      align_down (((n + (s + al - 1)) % u32_mod + u32_mod - s) % u32_mod) al,
      rw whole (rw (le→ltb_false capacity (n + (s + al - 1)) h) refl),
    )

new-arena_of : (n : ℕ) → n < 2 ^ 32 → new n ≡ arena_of 1 n
unfolding new
new-arena_of n b = rw (le→ltb_false max_size n (omega arith)) refl

new_memtable-some : (n : ℕ) → 100 ≤ n → n < 2 ^ 32 → new_memtable n ≡ some (empty_memtable n)
unfolding new_memtable new_node
new_memtable-some n h b =
    let (o, e) = alloc-arena_of 96 4 1 n h b in
    let head : new_node [] [] (new n) ≡ (some o, arena_of 100 n) =
      ap (alloc 96 4) (new-arena_of n b) ∙ e in
    rw (head, new_memtable)
      (ap (λ a. some (record { entries = []; arena = a.1; min_seq_num = 0; max_seq_num = 0 })) head)

add_fits :
    (key value : List ℕ) (n : ℕ) (m : Memtable)
    → m.entries ≡ []
    → m.arena ≡ arena_of 100 n
    → 199 + length key + length value ≤ n
    → n < 2 ^ 32
    → (add key value m).0 ≡ added
unfolding add new_node has_key
add_fits key value n m e a h b =
    let (o, s) =
      alloc-arena_of ((96 + length key % u32_mod + length value % u32_mod) % u32_mod) 4 100 n
        (omega arith) b in
    rw (e, a) (rw s refl)

module _ (u value : List ℕ) (kind : ℕ) (op : ℕ → Memtable → Added × Memtable)
    (w : Writes u value kind op) (db : Db) (v : IsValid db) (room : db.seq_num + 1 < 2 ^ 48)
    (large : 100 ≤ db.memtable_size) (small : db.memtable_size < 2 ^ 32)
    (fits : (seq : ℕ) → (op seq (empty_memtable db.memtable_size)).0 ≡ added) where
  abbrev seq : ℕ
  seq = db.seq_num + 1

  abbrev tried : Db
  tried = record db { seq_num = seq; last_seq_num = seq; mem = (op seq db.mem).1 }

  retry_added : (retry op seq tried (rotate_memtable tried)).0 ≡ done added
  unfolding retry rotate_memtable
  retry_added =
      rw (new_memtable-some db.memtable_size large small, rotate_memtable) (ap done (fits seq))

  settle_added : (r : Added) → (settle op seq tried r).0 ≡ done added
  unfolding settle
  settle_added added = refl
  settle_added record_exists = retry_added
  settle_added full = retry_added

  write_added : (write op db).0 ≡ done added
  write_added =
      ap (λ r. r.0) (write_open u value kind op w db v room) ∙ settle_added (op seq db.mem).0

-- In a valid database, with a sequence number below 2 ^ 48, a `Set` succeeds when a node for its key
-- and value fits into an empty memtable of less than 2 ^ 32 bytes.
pub set-fits :
    (u value : List ℕ) (db : Db)
    → IsValid db
    → db.seq_num + 1 < 2 ^ 48
    → 207 + length u + length value ≤ db.memtable_size
    → db.memtable_size < 2 ^ 32
    → (set u value db).0 ≡ done added
unfolding set Memtable.set update_seq_range
set-fits u value db v room h b =
    write_added u value kind_set _ (set-Writes u value) db v room (omega arith) b (λ seq.
      add_fits (make_internal_key u seq kind_set) value db.memtable_size _ refl refl
        (omega (arith, length-make u seq kind_set)) b)

-- In a valid database, with a sequence number below 2 ^ 48, a `Delete` succeeds when a node for its
-- key fits into an empty memtable of less than 2 ^ 32 bytes.
pub delete-fits :
    (u : List ℕ) (db : Db)
    → IsValid db
    → db.seq_num + 1 < 2 ^ 48
    → 207 + length u ≤ db.memtable_size
    → db.memtable_size < 2 ^ 32
    → (delete u db).0 ≡ done added
unfolding delete Memtable.delete update_seq_range
delete-fits u db v room h b =
    write_added u [] kind_delete _ (delete-Writes u) db v room (omega arith) b (λ seq.
      add_fits (make_internal_key u seq kind_delete) [] db.memtable_size _ refl refl
        (omega (arith, length-make u seq kind_delete)) b)
