-- ===== src/Lsm/Version.antt =====
-- pkg/lsm/version.go: versions of the tree, and how an edit makes the next one.
pub mod Apply
use Prim.Native.Nat.{Ordering}
use indexed_watch.Prelude.{
  ℕ, zero, suc, ◌+◌, ◌*◌, ◌%◌, ◌≡◌, Bool, true, false, not, ◌||◌, Option, none, some, List, [], ◌∷◌,
  ◌++◌, length, get_or, set, ltb, ◌==◌, if◌then◌else◌, u64_mod,
}
use indexed_watch.Bytes.{compare_bytes, is_neg, is_pos}
use indexed_watch.Lsm.VersionEdit.{FileMeta, DeletedFile, VersionEdit}

abbrev pub num_levels : ℕ
num_levels = 7

-- The levels; the reference count is not modelled.
abbrev pub Levels : Type 0
Levels = List (List FileMeta)

abbrev pub new_version : Levels
new_version = [] ∷ [] ∷ [] ∷ [] ∷ [] ∷ [] ∷ [] ∷ []

abbrev pub level_files : Levels → ℕ → List FileMeta
level_files v l = get_or v l []

-- The set of deleted file numbers: the level in the edit is not looked at.
unfoldable pub is_deleted : List DeletedFile → ℕ → Bool
is_deleted [] n = false
is_deleted (d ∷ ds) n = if d.file_num == n then true else is_deleted ds n

unfoldable pub keep_files : List DeletedFile → List FileMeta → List FileMeta
keep_files ds [] = []
keep_files ds (f ∷ fs) =
    let rest = keep_files ds fs in if is_deleted ds f.file_num then rest else f ∷ rest

unfoldable pub delete_files : List DeletedFile → Levels → Levels
delete_files ds [] = []
delete_files ds (fs ∷ levels) = keep_files ds fs ∷ delete_files ds levels

-- `none` is a panic: the level of a new file is out of range.
unfoldable pub add_files : List FileMeta → Levels → Option Levels
add_files [] v = some v
add_files (f ∷ fs) v =
    let rest = add_files fs (set v f.level (level_files v f.level ++ f ∷ [])) in
    if ltb f.level num_levels then rest else none

-- sort.Slice by the smallest key.
unfoldable pub insert_file : FileMeta → List FileMeta → List FileMeta
insert_file f [] = f ∷ []
insert_file f (g ∷ fs) =
    if is_neg (compare_bytes g.smallest_key f.smallest_key)
    then g ∷ insert_file f fs
    else f ∷ (g ∷ fs)

unfoldable pub sort_files : List FileMeta → List FileMeta
sort_files [] = []
sort_files (f ∷ fs) = insert_file f (sort_files fs)

-- L0 stays in the order of insertion.
unfoldable pub sort_deeper : Levels → Levels
sort_deeper [] = []
sort_deeper (fs ∷ levels) = sort_files fs ∷ sort_deeper levels

unfoldable pub sort_levels : Levels → Levels
unfolding sort_deeper
sort_levels [] = []
sort_levels (l₀ ∷ levels) = l₀ ∷ sort_deeper levels

unfoldable pub apply : Levels → VersionEdit → Option Levels
apply v edit = elim (add_files edit.new_files (delete_files edit.deleted_files v)) [
  | none ↦ none
  | some v' ↦ some (sort_levels v')
]

unfoldable pub overlapping_files : List ℕ → List ℕ → List FileMeta → List FileMeta
overlapping_files smallest largest [] = []
overlapping_files smallest largest (f ∷ fs) =
    let rest = overlapping_files smallest largest fs in
    if is_pos (compare_bytes f.smallest_key largest)
      || is_neg (compare_bytes f.largest_key smallest)
    then rest
    else f ∷ rest

abbrev pub overlapping : Levels → ℕ → List ℕ → List ℕ → List FileMeta
overlapping v level smallest largest = overlapping_files smallest largest (level_files v level)

unfoldable pub level_size : List FileMeta → ℕ
level_size [] = 0
level_size (f ∷ fs) = (f.size + level_size fs) % u64_mod
