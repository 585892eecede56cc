-- ===== src/Lsm/Manifest/Tests.antt =====
-- Runs of the MANIFEST of pkg/lsm/version.go.
use indexed_watch.Prelude.{◌≤◌, ◌≡◌, refl, [], ◌∷◌, ◌++◌, take, arith}
use indexed_watch.Bytes.Varint.{put_uvarint}
use indexed_watch.Lsm.VersionEdit.{
  FileMeta, VersionEdit, empty_edit, encode, encode_file, encode_files, encode_all_deleted,
}
use indexed_watch.Lsm.Version.{
  apply, add_files, delete_files, keep_files, sort_levels, sort_deeper, sort_files, insert_file,
}
use indexed_watch.Lsm.Manifest.{
  VersionSet, ok, read_failed, new_version_set, stamp, record_bytes, log_and_apply, recover,
}
use indexed_watch.Lsm.Manifest.Records.{IsLoggable}
use indexed_watch.Lsm.Manifest.Recovery.{Runs, fresh, logged, recover-Runs, recover-torn}

abbrev first_file : FileMeta
first_file = record {
  file_num = 1;
  level = 0;
  size = 30;
  smallest_key = 97 ∷ [];
  largest_key = 99 ∷ [];
}

abbrev first_edit : VersionEdit
first_edit = record empty_edit { new_files = first_file ∷ [] }

abbrev first_set : VersionSet
first_set = record {
  current = (first_file ∷ []) ∷ [] ∷ [] ∷ [] ∷ [] ∷ [] ∷ [] ∷ [];
  next_file_num = 1;
  last_seq_num = 0;
  manifest = record_bytes (encode (stamp first_edit (new_version_set [])));
}

first_logged : log_and_apply first_edit (new_version_set []) ≡ ok first_set
unfolding log_and_apply apply add_files delete_files keep_files sort_levels sort_deeper sort_files
    insert_file stamp new_version_set
first_logged = refl

first_edit-IsLoggable : IsLoggable (stamp first_edit (new_version_set []))
unfolding stamp new_version_set encode encode_files encode_file encode_all_deleted put_uvarint
first_edit-IsLoggable = record {
  encodable = record {
    files = (
      record {
        file_num_fits = omega arith;
        level_fits = omega arith;
        size_fits = omega arith;
        smallest_fits = omega arith;
        largest_fits = omega arith;
      },
      tt,
    );
    deletions = tt;
    last_seq_num_fits = omega arith;
    next_file_num_fits = omega arith;
    last_seq_num_absent = λ e. cc;
    next_file_num_absent = λ e. cc;
  };
  short = omega arith;
}

first_Runs : Runs first_set
first_Runs = logged first_edit fresh first_edit-IsLoggable first_logged

recover-Runs_example :
    (s : VersionSet) × (recover first_set.manifest ≡ ok s)
    × (s.current ≡ first_set.current)
    × (s.next_file_num ≤ 1)
recover-Runs_example = recover-Runs first_set first_Runs

recover-torn_example :
    recover (first_set.manifest ++ take 5 (record_bytes (4 ∷ 0 ∷ 1 ∷ []))) ≡ read_failed
recover-torn_example =
    recover-torn first_set (4 ∷ 0 ∷ 1 ∷ []) 5 first_Runs (omega arith) (omega arith) (omega arith)
