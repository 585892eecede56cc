-- ===== src/Lsm/Compaction.antt =====
-- pkg/lsm/compaction.go: which files a compaction takes, and the edit that it logs for the files that
-- it has written.
pub mod Overlap
pub mod Tests
use indexed_watch.Prelude.{
  ℕ, zero, suc, ◌+◌, ◌-◌, ◌*◌, ◌%◌, Bool, true, false, Option, none, some, List, [], ◌∷◌, ◌++◌,
  length, leb, ltb, ◌==◌, if◌then◌else◌, u64_mod,
}
use indexed_watch.Bytes.{compare_bytes, is_neg, is_pos}
use indexed_watch.Lsm.VersionEdit.{FileMeta, DeletedFile, VersionEdit, empty_edit}
use indexed_watch.Lsm.Version.{Levels, level_files, overlapping, level_size, num_levels}

abbrev pub compaction_threshold : ℕ
compaction_threshold = 4

abbrev pub level_multiplier : ℕ
level_multiplier = 10

abbrev pub base_level_target_size : ℕ
base_level_target_size = 4 * 1024 * 1024

abbrev pub base_file_size : ℕ
base_file_size = 2 * 1024 * 1024

-- A uint64 that is multiplied some times.
unfoldable pub scale : ℕ → ℕ → ℕ → ℕ
scale zero factor size = size
scale (suc n) factor size = scale n factor (size * factor % u64_mod)

unfoldable pub target_level_size : ℕ → ℕ
target_level_size level = scale (level - 1) level_multiplier base_level_target_size

unfoldable pub target_file_size : ℕ → ℕ
target_file_size level = scale level 2 base_file_size

-- The two results of the loop of `keyRange`; `none` is nil.
unfoldable pub smallest_of : Option (List ℕ) → List FileMeta → Option (List ℕ)
smallest_of s [] = s
smallest_of none (f ∷ fs) = smallest_of (some f.smallest_key) fs
smallest_of (some s) (f ∷ fs) =
    smallest_of (some (if is_neg (compare_bytes f.smallest_key s) then f.smallest_key else s)) fs

unfoldable pub largest_of : Option (List ℕ) → List FileMeta → Option (List ℕ)
largest_of l [] = l
largest_of none (f ∷ fs) = largest_of (some f.largest_key) fs
largest_of (some l) (f ∷ fs) =
    largest_of (some (if is_pos (compare_bytes f.largest_key l) then f.largest_key else l)) fs

unfoldable pub key_range : List FileMeta → Option (List ℕ) × Option (List ℕ)
key_range files = (smallest_of none files, largest_of none files)

-- A nil slice compares as the empty one.
abbrev pub bytes_of : Option (List ℕ) → List ℕ
bytes_of none = []
bytes_of (some b) = b

pub record CompactionPick : Type 0 where
  pub level : ℕ
  pub output_level : ℕ
  pub inputs : List FileMeta
  pub overlaps : List FileMeta

unfoldable pub pick_level_zero : Levels → CompactionPick
pick_level_zero v =
    let inputs = level_files v 0 in
    let range = key_range inputs in
    record {
      level = 0;
      output_level = 1;
      inputs = inputs;
      overlaps = overlapping v 1 (bytes_of range.0) (bytes_of range.1);
    }

-- The first of the largest files.
unfoldable pub largest_file : FileMeta → List FileMeta → FileMeta
largest_file pick [] = pick
largest_file pick (f ∷ fs) = largest_file (if ltb pick.size f.size then f else pick) fs

unfoldable pub pick_file : Levels → ℕ → List FileMeta → Option CompactionPick
pick_file v level [] = none
pick_file v level (f ∷ fs) =
    let pick = largest_file f fs in
    some (record {
      level = level;
      output_level = level + 1;
      inputs = pick ∷ [];
      overlaps = overlapping v (level + 1) pick.smallest_key pick.largest_key;
    })

abbrev pub pick_level : Levels → ℕ → Option CompactionPick
pick_level v level = pick_file v level (level_files v level)

-- The loop over the deeper levels: how many are left, and the next one.
unfoldable pub pick_deeper : ℕ → Levels → ℕ → Option CompactionPick
pick_deeper zero v level = none
pick_deeper (suc n) v level =
    let rest = pick_deeper n v (level + 1) in
    if ltb (target_level_size level) (level_size (level_files v level))
    then pick_level v level
    else rest

unfoldable pub pick_compaction : Levels → Option CompactionPick
pick_compaction v =
    if leb compaction_threshold (length (level_files v 0))
    then some (pick_level_zero v)
    else pick_deeper (num_levels - 2) v 1

abbrev pub deleted_at : ℕ → List FileMeta → List DeletedFile
deleted_at level [] = []
deleted_at level (f ∷ fs) = (record { level = level; file_num = f.file_num }) ∷ deleted_at level fs

-- The edit of a compaction that has written these files.
unfoldable pub compaction_edit : CompactionPick → List FileMeta → VersionEdit
compaction_edit pick outputs = record empty_edit {
  deleted_files = deleted_at pick.level pick.inputs ++ deleted_at pick.output_level pick.overlaps;
  new_files = outputs;
}
