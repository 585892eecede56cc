-- ===== src/Lsm/Compaction/Tests.antt =====
-- Choices of compactions of pkg/lsm/compaction.go.
use indexed_watch.Prelude.{ℕ, ◌≡◌, refl, some, [], ◌∷◌, arith, replicate}
use indexed_watch.Bytes.{compare_bytes}
use indexed_watch.Lsm.InternalKey.{make_internal_key}
use indexed_watch.Lsm.VersionEdit.{FileMeta}
use indexed_watch.Lsm.Version.{Levels, overlapping_files}
use indexed_watch.Lsm.Compaction.{
  CompactionPick, pick_compaction, pick_level_zero, key_range, smallest_of, largest_of,
  target_level_size, target_file_size, scale,
}
use indexed_watch.Lsm.Compaction.Overlap.{
  Separates, pick_compaction-Separates, overlapping_files-older,
}

abbrev file : ℕ → ℕ → ℕ → FileMeta
file n a b = record {
  file_num = n;
  level = 0;
  size = 10;
  smallest_key = a ∷ [];
  largest_key = b ∷ [];
}

-- The last file of level 1 is not taken.
abbrev four_files : Levels
four_files =
    (file 1 10 20 ∷ file 2 15 40 ∷ file 3 5 12 ∷ file 4 30 35 ∷ [])
    ∷ (file 5 1 4 ∷ file 6 5 25 ∷ file 7 26 50 ∷ file 8 60 70 ∷ [])
    ∷ replicate 5 []

abbrev four_files_pick : CompactionPick
four_files_pick = record {
  level = 0;
  output_level = 1;
  inputs = file 1 10 20 ∷ file 2 15 40 ∷ file 3 5 12 ∷ file 4 30 35 ∷ [];
  overlaps = file 6 5 25 ∷ file 7 26 50 ∷ [];
}

four_files_choice : pick_compaction four_files ≡ some four_files_pick
unfolding pick_compaction pick_level_zero key_range smallest_of largest_of overlapping_files
    compare_bytes
four_files_choice = refl

pick_compaction-Separates_example : Separates four_files four_files_pick
pick_compaction-Separates_example =
    pick_compaction-Separates four_files four_files_pick four_files_choice

abbrev older_file : FileMeta
older_file = record {
  file_num = 9;
  level = 1;
  size = 10;
  smallest_key = make_internal_key (97 ∷ []) 3 1;
  largest_key = make_internal_key (98 ∷ []) 3 1;
}

overlapping_files-older_example :
    overlapping_files [] (make_internal_key (97 ∷ []) 5 1) (older_file ∷ [])
    ≡ overlapping_files [] (make_internal_key (97 ∷ []) 5 1) []
overlapping_files-older_example =
    overlapping_files-older [] (97 ∷ []) 5 3 1 1 older_file [] refl (omega arith) (omega arith)
      (omega arith) (omega arith)

sizes : target_level_size 3 ≡ 419430400
unfolding target_level_size scale
sizes = refl

file_sizes : target_file_size 2 ≡ 8388608
unfolding target_file_size scale
file_sizes = refl
