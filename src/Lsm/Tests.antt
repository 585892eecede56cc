-- ===== src/Lsm/Tests.antt =====
-- Runs of the arena, the internal keys, the version edits, the versions and the reads of pkg/lsm.
use mathlib.Core.List.{Perm}
use indexed_watch.Prelude.{
  ◌<◌, ◌*◌, ◌^◌, ℕ, List, sym, ◌∙◌, ◌==◌, if◌then◌else◌, ◌+◌, ◌≤◌, ◌≡◌, refl, true, false, some, [],
  ◌∷◌, ◌++◌, length, arith,
}
use indexed_watch.Bytes.Order.{Lt}
use indexed_watch.Bytes.Varint.{put_uvarint, uvarint, value, uvarint-put_uvarint}
use indexed_watch.Bytes.{compare_bytes, is_neg, is_pos}
use indexed_watch.Bytes.Fixed.{be_bytes}
use indexed_watch.Lsm.Read.{Tables, not_found, get_from_version}
use indexed_watch.Lsm.Read.Hidden.{Lacks, get_from_version-hidden}
use indexed_watch.Lsm.Arena.Disjoint.{alloc_each, alloc-disjoint}
use indexed_watch.Lsm.Arena.{new, alloc, align_down, Request, IsRequest, new-IsValid}
use indexed_watch.Lsm.InternalKey.{
  make_internal_key, kind_set, user_key-make, user_key, extension_first,
}
use indexed_watch.Lsm.VersionEdit.{FileMeta, VersionEdit, ok, encode, decode_version_edit}
use indexed_watch.Lsm.VersionEdit.RoundTrip.{FileFits, IsEncodable, decode-encode}
use indexed_watch.Lsm.Version.{
  Levels, level_files, keep_files, new_version, sort_levels, sort_deeper, sort_files, insert_file,
  add_files, delete_files, apply,
}
use indexed_watch.Lsm.Version.Apply.{survivors, files_at, IsSorted, apply_levels}

uvarint-put_uvarint_example :
    uvarint (put_uvarint 300 ++ 7 ∷ []) ≡ value 300 (length (put_uvarint 300))
uvarint-put_uvarint_example = uvarint-put_uvarint 300 (7 ∷ []) (omega arith)

abbrev eight_bytes : Request
eight_bytes = record { size = 20; alignment = 8 }

eight_bytes-IsRequest : IsRequest eight_bytes
eight_bytes-IsRequest = record {
  size_fits = omega arith;
  alignment_fits = omega arith;
  alignment_positive = omega arith;
}

first_offset : (alloc 20 8 (new 100)).0 ≡ some 8
unfolding alloc new align_down
first_offset = refl

extension_first_example :
    Lt (make_internal_key (97 ∷ 98 ∷ []) 9 kind_set) (make_internal_key (97 ∷ []) 5 kind_set)
extension_first_example =
    extension_first (97 ∷ []) [] 98 5 9 kind_set kind_set (omega arith) (omega arith) (omega arith)

abbrev low_file : FileMeta
low_file = record {
  file_num = 7;
  level = 1;
  size = 300;
  smallest_key = 97 ∷ [];
  largest_key = 99 ∷ [];
}

abbrev high_file : FileMeta
high_file = record {
  file_num = 8;
  level = 1;
  size = 20;
  smallest_key = 100 ∷ [];
  largest_key = 120 ∷ [];
}

abbrev flush_edit : VersionEdit
flush_edit = record {
  has_next_file_num = true;
  next_file_num = 9;
  has_last_seq_num = true;
  last_seq_num = 40;
  new_files = high_file ∷ low_file ∷ [];
  deleted_files = record { level = 0; file_num = 3 } ∷ [];
}

low_file-FileFits : FileFits low_file
low_file-FileFits = record {
  file_num_fits = omega arith;
  level_fits = omega arith;
  size_fits = omega arith;
  smallest_fits = omega arith;
  largest_fits = omega arith;
}

high_file-FileFits : FileFits high_file
high_file-FileFits = record {
  file_num_fits = omega arith;
  level_fits = omega arith;
  size_fits = omega arith;
  smallest_fits = omega arith;
  largest_fits = omega arith;
}

flush_edit-IsEncodable : IsEncodable flush_edit
flush_edit-IsEncodable = record {
  files = (high_file-FileFits, (low_file-FileFits, tt));
  deletions = (record { level_fits = omega arith; file_num_fits = omega arith }, tt);
  last_seq_num_fits = omega arith;
  next_file_num_fits = omega arith;
  last_seq_num_absent = λ e. absurd (no_lie e);
  next_file_num_absent = λ e. absurd (no_lie e);
}
  where
    no_lie : true ≡ false → ⊥
    no_lie e = cc

decode-encode_example : decode_version_edit (encode flush_edit) ≡ ok flush_edit
decode-encode_example = decode-encode flush_edit flush_edit-IsEncodable

abbrev flushed : Levels
flushed = [] ∷ (low_file ∷ high_file ∷ []) ∷ [] ∷ [] ∷ [] ∷ [] ∷ [] ∷ []

flushed_levels : apply new_version flush_edit ≡ some flushed
unfolding apply add_files delete_files keep_files sort_levels sort_deeper sort_files insert_file
    compare_bytes
flushed_levels = refl

apply_levels_example :
    (level_files flushed 0
      ≡ survivors flush_edit.deleted_files (level_files new_version 0)
        ++ files_at 0 flush_edit.new_files)
    × Perm (level_files flushed 1) (
        survivors flush_edit.deleted_files (level_files new_version 1)
        ++ files_at 1 flush_edit.new_files)
    × IsSorted (level_files flushed 1)
apply_levels_example = apply_levels new_version flushed flush_edit 0 refl flushed_levels

abbrev key_a : List ℕ
key_a = b'a' ∷ []

-- A table that covers "a" by its bounds, and has only "b".
abbrev newer_file : FileMeta
newer_file = record {
  file_num = 2;
  level = 0;
  size = 9;
  smallest_key = make_internal_key key_a 1 kind_set;
  largest_key = make_internal_key (b'c' ∷ []) 1 kind_set;
}

abbrev older_file : FileMeta
older_file = record newer_file { file_num = 1 }

abbrev two_tables : Tables
two_tables n =
    if n == 2
    then some ((make_internal_key (b'b' ∷ []) 5 kind_set, 7 ∷ []) ∷ [])
    else some ((make_internal_key key_a 1 kind_set, 8 ∷ []) ∷ [])

lower_bound : is_neg (compare_bytes key_a (user_key newer_file.smallest_key)) ≡ false
unfolding user_key make_internal_key compare_bytes be_bytes
lower_bound = refl

upper_bound : is_pos (compare_bytes key_a (user_key newer_file.largest_key)) ≡ false
unfolding user_key make_internal_key compare_bytes be_bytes
upper_bound = refl

b_entry-Lacks : Lacks key_a ((make_internal_key (b'b' ∷ []) 5 kind_set, 7 ∷ []) ∷ [])
b_entry-Lacks = (λ e. different (sym (user_key-make (b'b' ∷ []) 5 kind_set) ∙ e), tt)
  where
    different : b'b' ∷ [] ≡ key_a → ⊥
    different h = ground arith

get_from_version-hidden_example :
    get_from_version two_tables ((older_file ∷ newer_file ∷ []) ∷ [] ∷ []) key_a 9 ≡ not_found
get_from_version-hidden_example =
    get_from_version-hidden two_tables (older_file ∷ []) newer_file ([] ∷ [])
      ((make_internal_key (b'b' ∷ []) 5 kind_set, 7 ∷ []) ∷ []) key_a 9 lower_bound upper_bound refl
      b_entry-Lacks

later_offset : (alloc 20 8 (alloc_each (eight_bytes ∷ []) (alloc 20 8 (new 100)).1)).0 ≡ some 56
unfolding alloc new align_down alloc_each
later_offset = refl

counter_room : (new 100).n + (1 + 1) * 2 ^ 33 < 2 ^ 63
unfolding new
counter_room = omega arith

alloc-disjoint_example : 8 + 20 ≤ 56
alloc-disjoint_example =
    alloc-disjoint (new 100) eight_bytes eight_bytes (eight_bytes ∷ []) 8 56 (new-IsValid 100)
      eight_bytes-IsRequest eight_bytes-IsRequest (eight_bytes-IsRequest, tt) counter_room
      first_offset later_offset
