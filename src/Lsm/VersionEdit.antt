-- ===== src/Lsm/VersionEdit.antt =====
-- The edits of pkg/lsm/version.go and their bytes in the MANIFEST.
pub mod RoundTrip
use indexed_watch.Prelude.{
  ℕ, zero, suc, Bool, true, false, Option, none, some, List, [], ◌∷◌, ◌++◌, length, take, drop, leb,
  ◌==◌, if◌then◌else◌,
}
use indexed_watch.Bytes.Varint.{Varint, value, short, overflow, put_uvarint, uvarint}

pub record FileMeta : Type 0 where
  pub file_num : ℕ
  pub level : ℕ
  pub size : ℕ
  pub smallest_key : List ℕ
  pub largest_key : List ℕ

pub record DeletedFile : Type 0 where
  pub level : ℕ
  pub file_num : ℕ

pub record VersionEdit : Type 0 where
  pub new_files : List FileMeta
  pub deleted_files : List DeletedFile
  pub last_seq_num : ℕ
  pub next_file_num : ℕ
  pub has_last_seq_num : Bool
  pub has_next_file_num : Bool

abbrev pub empty_edit : VersionEdit
empty_edit = record {
  new_files = [];
  deleted_files = [];
  last_seq_num = 0;
  next_file_num = 0;
  has_last_seq_num = false;
  has_next_file_num = false;
}

unfoldable pub encode_file : FileMeta → List ℕ
encode_file f =
    3
    ∷ (put_uvarint f.level
        ++ (put_uvarint f.file_num
            ++ (put_uvarint f.size
                ++ (put_uvarint (length f.smallest_key)
                    ++ (f.smallest_key ++ (put_uvarint (length f.largest_key) ++ f.largest_key))))))

unfoldable pub encode_deleted : DeletedFile → List ℕ
encode_deleted d = 4 ∷ (put_uvarint d.level ++ put_uvarint d.file_num)

unfoldable pub encode_files : List FileMeta → List ℕ
encode_files [] = []
encode_files (f ∷ fs) = encode_file f ++ encode_files fs

unfoldable pub encode_all_deleted : List DeletedFile → List ℕ
encode_all_deleted [] = []
encode_all_deleted (d ∷ ds) = encode_deleted d ++ encode_all_deleted ds

unfoldable pub encode : VersionEdit → List ℕ
encode ve =
    (if ve.has_last_seq_num then 1 ∷ put_uvarint ve.last_seq_num else [])
    ++ ((if ve.has_next_file_num then 2 ∷ put_uvarint ve.next_file_num else [])
        ++ (encode_files ve.new_files ++ encode_all_deleted ve.deleted_files))

-- The messages of `decodeVersionEdit`.
pub data Error : Type 0 where
  bad_last_seq_num bad_next_file_num : Error
  bad_level bad_file_num bad_size bad_smallest_key_len bad_largest_key_len : Error
  bad_deleted_level bad_deleted_file_num : Error
  unknown_tag : ℕ → Error

-- `panic` is a slice out of range, or no fuel left, which does not happen.
pub data Result {ℓ} (A : Type ℓ) : Type ℓ where
  ok : A → Result A
  err : Error → Result A
  panic : Result A

infixl 5 ◌>>=◌
abbrev pub ◌>>=◌ {ℓ κ} : {A : Type ℓ} {B : Type κ} → Result A → (A → Result B) → Result B
ok a >>= f = f a
err e >>= f = err e
panic >>= f = panic

-- v, n := binary.Uvarint(data[i:]); if n <= 0 { return err }; i += n. The rest is data[i:].
unfoldable pub read_uvarint : Error → List ℕ → Result (ℕ × List ℕ)
read_uvarint e src = elim (uvarint src) [
  | value v n ↦ ok (v, drop n src)
  | short ↦ err e
  | overflow ↦ err e
]

-- copy(key, data[i:i+n]); i += n
unfoldable pub read_bytes : ℕ → List ℕ → Result (List ℕ × List ℕ)
read_bytes n src = if leb n (length src) then ok (take n src, drop n src) else panic

unfoldable pub decode_file : List ℕ → Result (FileMeta × List ℕ)
decode_file src = do
  (level, s₁) ← read_uvarint bad_level src
  (file_num, s₂) ← read_uvarint bad_file_num s₁
  (size, s₃) ← read_uvarint bad_size s₂
  (len_smallest, s₄) ← read_uvarint bad_smallest_key_len s₃
  (smallest, s₅) ← read_bytes len_smallest s₄
  (len_largest, s₆) ← read_uvarint bad_largest_key_len s₅
  (largest, s₇) ← read_bytes len_largest s₆
  ok (
    record {
      file_num = file_num;
      level = level;
      size = size;
      smallest_key = smallest;
      largest_key = largest;
    },
    s₇,
  )

unfoldable pub decode_deleted : List ℕ → Result (DeletedFile × List ℕ)
decode_deleted src = do
  (level, s₁) ← read_uvarint bad_deleted_level src
  (file_num, s₂) ← read_uvarint bad_deleted_file_num s₁
  ok (record { level = level; file_num = file_num }, s₂)

-- One round of the loop, after the tag has been read.
unfoldable pub decode_item : ℕ → List ℕ → VersionEdit → Result (VersionEdit × List ℕ)
decode_item tag src ve =
    if tag == 1
    then (do
      (v, rest) ← read_uvarint bad_last_seq_num src
      ok (record ve { last_seq_num = v; has_last_seq_num = true }, rest))
    else if tag == 2
    then (do
      (v, rest) ← read_uvarint bad_next_file_num src
      ok (record ve { next_file_num = v; has_next_file_num = true }, rest))
    else if tag == 3
    then (do
      (f, rest) ← decode_file src
      ok (record ve { new_files = ve.new_files ++ f ∷ [] }, rest))
    else if tag == 4
    then (do
      (d, rest) ← decode_deleted src
      ok (record ve { deleted_files = ve.deleted_files ++ d ∷ [] }, rest))
    else err (unknown_tag tag)

-- Each round takes the tag at least.
unfoldable pub decode_loop : ℕ → List ℕ → VersionEdit → Result VersionEdit
decode_loop fuel [] ve = ok ve
decode_loop zero (tag ∷ src) ve = panic
decode_loop (suc fuel) (tag ∷ src) ve = elim (decode_item tag src ve) [
  | ok (ve', rest) ↦ decode_loop fuel rest ve'
  | err e ↦ err e
  | panic ↦ panic
]

unfoldable pub decode_version_edit : List ℕ → Result VersionEdit
decode_version_edit src = decode_loop (length src) src empty_edit
