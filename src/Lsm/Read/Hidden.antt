-- ===== src/Lsm/Read/Hidden.antt =====
-- `getFromVersion` of pkg/lsm/lsm.go at a file of level 0 that covers a key without having it.
use indexed_watch.Prelude.{
  ℕ, ◌≡◌, ◌≢◌, refl, subst, false, none, some, List, [], ◌∷◌, ◌++◌, arith, All, Bool-cases,
  Option-cases, inl, inr,
}
use indexed_watch.Bytes.{compare_bytes, is_neg, is_pos, is_zero}
use indexed_watch.Bytes.Order.{compare_bytes_eq}
use indexed_watch.Lsm.InternalKey.{make_internal_key, user_key, kind_set, kind_delete}
use indexed_watch.Lsm.VersionEdit.{FileMeta}
use indexed_watch.Lsm.Version.{Levels}
use indexed_watch.Lsm.SortedMap.{Entries, seek_ge}
use indexed_watch.Lsm.Read.{
  Tables, not_found, get_from_table, table_answer, search_level_zero, get_from_version,
}

-- The key of no entry.
abbrev pub Lacks : List ℕ → Entries → Type 0
Lacks key es = All (λ e. user_key e.0 ≢ key) es

is_zero-false : (a b : List ℕ) → a ≢ b → is_zero (compare_bytes a b) ≡ false
is_zero-false a b h = elim (Bool-cases (is_zero (compare_bytes a b))) [
  | inl e ↦ absurd (h (compare_bytes_eq a b (ground arith)))
  | inr e ↦ e
]

seek_ge-Lacks :
    (es : Entries) (target key : List ℕ) (e : List ℕ × List ℕ)
    → Lacks key es
    → seek_ge es target ≡ some e
    → user_key e.0 ≢ key
unfolding seek_ge
seek_ge-Lacks [] target key e l h = absurd (none_is_some h)
  where
    none_is_some : none ≡ some e → ⊥
    none_is_some h = cc
seek_ge-Lacks (d ∷ es) target key e l h = elim (Bool-cases (is_neg (compare_bytes d.0 target))) [
  | inl before ↦ seek_ge-Lacks es target key e l.1 (ground arith)
  | inr here ↦ subst (λ x. user_key x.0 ≢ key) (same here) l.0
]
  where
    same : is_neg (compare_bytes d.0 target) ≡ false → d ≡ e
    same here = ground arith

get_from_table-Lacks :
    (tables : Tables) (f : FileMeta) (es : Entries) (seek_key key : List ℕ)
    → tables f.file_num ≡ some es
    → Lacks key es
    → get_from_table tables f seek_key key ≡ some (none, kind_delete)
unfolding get_from_table
get_from_table-Lacks tables f es seek_key key h l = elim (Option-cases (seek_ge es seek_key)) [
  | inl e ↦ rw (h, get_from_table) (rw e refl)
  | inr (d, e) ↦
      rw (h, get_from_table)
        (rw e (rw (is_zero-false (user_key d.0) key (seek_ge-Lacks es seek_key key d l e)) refl))
]

newest :
    (tables : Tables) (fs : List FileMeta) (f : FileMeta) (es : Entries) (seek_key key : List ℕ)
    → is_neg (compare_bytes key (user_key f.smallest_key)) ≡ false
    → is_pos (compare_bytes key (user_key f.largest_key)) ≡ false
    → tables f.file_num ≡ some es
    → Lacks key es
    → search_level_zero tables seek_key key (fs ++ f ∷ []) ≡ some not_found
unfolding search_level_zero table_answer
newest tables [] f es seek_key key lo hi h l =
    rw (lo, hi) (rw (get_from_table-Lacks tables f es seek_key key h l) refl)
newest tables (g ∷ fs) f es seek_key key lo hi h l =
    rw (newest tables fs f es seek_key key lo hi h l) refl

-- If the newest file of level 0 covers a key and can be opened, but has no entry of that key, then
-- the key is reported as not found, whatever the older files and the deeper levels hold.
pub get_from_version-hidden :
    (tables : Tables) (fs : List FileMeta) (f : FileMeta) (deeper : Levels) (es : Entries)
    (key : List ℕ) (seq : ℕ)
    → is_neg (compare_bytes key (user_key f.smallest_key)) ≡ false
    → is_pos (compare_bytes key (user_key f.largest_key)) ≡ false
    → tables f.file_num ≡ some es
    → Lacks key es
    → get_from_version tables ((fs ++ f ∷ []) ∷ deeper) key seq ≡ not_found
unfolding get_from_version
get_from_version-hidden tables fs f deeper es key seq lo hi h l =
    rw (newest tables fs f es (make_internal_key key seq kind_set) key lo hi h l, get_from_version)
      refl
