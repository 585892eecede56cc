-- ===== src/Lsm/Manifest.antt =====
-- The VersionSet of pkg/lsm/version.go and its MANIFEST, a file that is the list of its bytes.
-- Failures of the file system are not modelled; a crash leaves a prefix of what was written.
pub mod Records
pub mod Recovery
pub mod Tests
use indexed_watch.Prelude.{
  ℕ, zero, suc, ◌+◌, ◌%◌, ◌≡◌, Bool, true, false, Option, none, some, List, [], ◌∷◌, ◌++◌, length,
  take, drop, ltb, ◌==◌, if◌then◌else◌, u32_mod, u64_mod,
}
use indexed_watch.Bytes.Fixed.{le_bytes, le_read}
use indexed_watch.Lsm.VersionEdit
use indexed_watch.Lsm.VersionEdit.{VersionEdit, encode, decode_version_edit}
use indexed_watch.Lsm.Version.{Levels, new_version, apply}

pub record VersionSet : Type 0 where
  pub current : Levels
  pub next_file_num : ℕ
  pub last_seq_num : ℕ
  pub manifest : List ℕ

-- `read_failed` is a length or a record that ends too early; `panicked` is a file's level or a
-- slice out of range.
pub data Result {ℓ} (A : Type ℓ) : Type ℓ where
  ok : A → Result A
  read_failed bad_edit panicked : Result A

-- Over a directory whose MANIFEST has these bytes.
unfoldable pub new_version_set : List ℕ → VersionSet
new_version_set file = record {
  current = new_version;
  next_file_num = 1;
  last_seq_num = 0;
  manifest = file;
}

unfoldable pub alloc_file_num : VersionSet → ℕ × VersionSet
alloc_file_num vs =
    (vs.next_file_num, record vs { next_file_num = (vs.next_file_num + 1) % u64_mod })

-- What `logAndApply` puts into the edit.
unfoldable pub stamp : VersionEdit → VersionSet → VersionEdit
stamp edit vs = record edit {
  has_next_file_num = true;
  next_file_num = vs.next_file_num;
  has_last_seq_num = true;
  last_seq_num = vs.last_seq_num;
}

-- The bytes of one record: the length of the edit, and the edit.
unfoldable pub record_bytes : List ℕ → List ℕ
record_bytes d = le_bytes 4 (length d % u32_mod) ++ d

unfoldable pub log_and_apply : VersionEdit → VersionSet → Result VersionSet
log_and_apply edit vs = elim (apply vs.current (stamp edit vs)) [
  | none ↦ panicked
  | some v ↦
      ok
        (record vs { current = v; manifest = vs.manifest ++ record_bytes (encode (stamp edit vs)) })
]

-- What `recover` does with one edit.
unfoldable pub take_edit : VersionEdit → VersionSet → Option VersionSet
take_edit edit vs = elim (apply vs.current edit) [
  | none ↦ none
  | some v ↦ some (record vs {
    current = v;
    next_file_num =
        if edit.has_next_file_num
        then (if ltb vs.next_file_num edit.next_file_num
            then edit.next_file_num
            else vs.next_file_num)
        else vs.next_file_num;
    last_seq_num = if edit.has_last_seq_num then edit.last_seq_num else vs.last_seq_num;
  })
]

-- One round of the loop of `recover`, behind the length field: `rest` is what is not read yet.
unfoldable pub read_record : ℕ → List ℕ → VersionSet → Result (VersionSet × List ℕ)
read_record n rest vs =
    if ltb (length rest) n then read_failed else elim (decode_version_edit (take n rest)) [
      | VersionEdit.ok edit ↦ elim (take_edit edit vs) [
        | none ↦ panicked
        | some vs' ↦ ok (vs', drop n rest)
      ]
      | VersionEdit.err e ↦ bad_edit
      | VersionEdit.panic ↦ panicked
    ]

-- The loop of `recover`. A record has four bytes at least.
unfoldable pub recover_loop : ℕ → List ℕ → VersionSet → Result VersionSet
recover_loop zero file vs = read_failed
recover_loop (suc fuel) file vs = elim (le_read 4 file) [
  | none ↦ if length file == 0 then ok vs else read_failed
  | some n ↦ elim (read_record n (drop 4 file) vs) [
    | ok (vs', rest) ↦ recover_loop fuel rest vs'
    | read_failed ↦ read_failed
    | bad_edit ↦ bad_edit
    | panicked ↦ panicked
  ]
]

unfoldable pub recover : List ℕ → Result VersionSet
recover file = recover_loop (length file + 1) file (new_version_set file)
