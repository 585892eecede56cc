-- ===== src/Lsm/VersionEdit/RoundTrip.antt =====
-- Decoding an encoded edit of pkg/lsm/version.go.
use indexed_watch.Prelude.{
  ℕ, zero, suc, ◌≤◌, ◌<◌, ◌≡◌, refl, ap, sym, subst, Bool, true, false, List, [], ◌∷◌, ◌++◌,
  append_assoc, append-nil, arith, length, length-append, take-length_append, drop-length_append,
  leb, u64_mod, All,
}
use indexed_watch.Bytes.Varint.{put_uvarint, uvarint-put_uvarint}
use indexed_watch.Lsm.VersionEdit.{
  FileMeta, DeletedFile, VersionEdit, empty_edit, encode_file, encode_deleted, encode_files,
  encode_all_deleted, encode, Error, Result, ok, read_uvarint, read_bytes, decode_file,
  decode_deleted, decode_item, decode_loop, decode_version_edit,
}

read-put :
    (e : Error) (x : ℕ) (rest : List ℕ)
    → x < u64_mod
    → read_uvarint e (put_uvarint x ++ rest) ≡ ok (x, rest)
unfolding read_uvarint
read-put e x rest h =
    rw (uvarint-put_uvarint x rest h, read_uvarint) (rw (drop-length_append (put_uvarint x) rest))

read_bytes-append : (p rest : List ℕ) → read_bytes (length p) (p ++ rest) ≡ ok (p, rest)
unfolding read_bytes
read_bytes-append p rest =
    rw (fits (length p) (length (p ++ rest)) (omega (arith, length-append p rest)))
      (rw (take-length_append p rest, drop-length_append p rest))
  where
    fits : (a b : ℕ) → a ≤ b → leb a b ≡ true
    fits a b q = ground arith

-- Every number fits a uint64, and so does the length of every key.
pub record FileFits (f : FileMeta) : Type 0 where
  pub file_num_fits : f.file_num < u64_mod
  pub level_fits : f.level < u64_mod
  pub size_fits : f.size < u64_mod
  pub smallest_fits : length f.smallest_key < u64_mod
  pub largest_fits : length f.largest_key < u64_mod

pub record DeletedFits (d : DeletedFile) : Type 0 where
  pub level_fits : d.level < u64_mod
  pub file_num_fits : d.file_num < u64_mod

file_tail : FileMeta → List ℕ → List ℕ
file_tail f rest =
    put_uvarint f.level
    ++ (put_uvarint f.file_num
        ++ (put_uvarint f.size
            ++ (put_uvarint (length f.smallest_key)
                ++ (f.smallest_key
                    ++ (put_uvarint (length f.largest_key) ++ (f.largest_key ++ rest))))))

encode_file-append : (f : FileMeta) (rest : List ℕ) → encode_file f ++ rest ≡ 3 ∷ file_tail f rest
unfolding encode_file file_tail
encode_file-append f rest = simp append_assoc

decode_file-encode :
    (f : FileMeta) (rest : List ℕ) → FileFits f → decode_file (file_tail f rest) ≡ ok (f, rest)
unfolding decode_file file_tail
decode_file-encode f rest v =
    rw (read-put _ f.level _ v.level_fits, decode_file)
      (rw (read-put _ f.file_num _ v.file_num_fits) (
        rw (read-put _ f.size _ v.size_fits) (
          rw (read-put _ (length f.smallest_key) _ v.smallest_fits) (
            rw (read_bytes-append f.smallest_key) (
              rw (read-put _ (length f.largest_key) _ v.largest_fits)
                (rw (read_bytes-append f.largest_key rest)))))))

decode_deleted-encode :
    (d : DeletedFile) (rest : List ℕ)
    → DeletedFits d
    → decode_deleted (put_uvarint d.level ++ (put_uvarint d.file_num ++ rest)) ≡ ok (d, rest)
unfolding decode_deleted
decode_deleted-encode d rest v =
    rw (read-put _ d.level _ v.level_fits, decode_deleted)
      (rw (read-put _ d.file_num _ v.file_num_fits))

-- One round of the loop on each kind of item. `last` is what the loop makes of the rest.
module _ (last : Result VersionEdit) where
  abbrev Goes : List ℕ → VersionEdit → Type 0
  Goes rest ve = (fuel : ℕ) → length rest ≤ fuel → decode_loop fuel rest ve ≡ last

  Goes-item :
      (tag : ℕ) (src rest : List ℕ) (ve ve' : VersionEdit)
      → decode_item tag src ve ≡ ok (ve', rest)
      → length rest ≤ length src
      → Goes rest ve'
      → Goes (tag ∷ src) ve
  unfolding decode_loop
  Goes-item tag src rest ve ve' e l k zero h = absurd (omega arith)
  Goes-item tag src rest ve ve' e l k (suc fuel) h = rw (e, decode_loop) (k fuel (omega arith))

  Goes-file :
      (f : FileMeta) (rest : List ℕ) (ve : VersionEdit)
      → FileFits f
      → Goes rest (record ve { new_files = ve.new_files ++ f ∷ [] })
      → Goes (encode_file f ++ rest) ve
  Goes-file f rest ve v k =
      subst (λ src. Goes src ve) (sym (encode_file-append f rest))
        (Goes-item 3 (file_tail f rest) rest ve (record ve { new_files = ve.new_files ++ f ∷ [] })
          (unfold decode_item in rw (decode_file-encode f rest v) refl) (omega (arith, tail_length))
          k)
    where
      tail_length : length rest ≤ length (file_tail f rest)
      tail_length = unfold file_tail in simp length-append (omega arith)

  Goes-files :
      (fs : List FileMeta) (rest : List ℕ) (ve : VersionEdit)
      → All FileFits fs
      → Goes rest (record ve { new_files = ve.new_files ++ fs })
      → Goes (encode_files fs ++ rest) ve
  unfolding encode_files
  Goes-files [] rest ve v k =
      subst (λ l. Goes rest (record ve { new_files = l })) (append-nil ve.new_files) k
  Goes-files (f ∷ fs) rest ve v k =
      subst (λ src. Goes src ve) (sym (append_assoc (encode_file f) (encode_files fs) rest))
        (Goes-file f (encode_files fs ++ rest) ve v.0 (
          Goes-files fs rest (record ve { new_files = ve.new_files ++ f ∷ [] }) v.1
            (subst (λ l. Goes rest (record ve { new_files = l }))
              (sym (append_assoc ve.new_files (f ∷ []) fs)) k)))

  Goes-deleted :
      (d : DeletedFile) (rest : List ℕ) (ve : VersionEdit)
      → DeletedFits d
      → Goes rest (record ve { deleted_files = ve.deleted_files ++ d ∷ [] })
      → Goes (encode_deleted d ++ rest) ve
  unfolding encode_deleted
  Goes-deleted d rest ve v k =
      subst (λ src. Goes src ve)
        (ap (λ s. 4 ∷ s) (sym (append_assoc (put_uvarint d.level) (put_uvarint d.file_num) rest)))
        (Goes-item 4 (put_uvarint d.level ++ (put_uvarint d.file_num ++ rest)) rest ve
          (record ve { deleted_files = ve.deleted_files ++ d ∷ [] })
          (unfold decode_item in rw (decode_deleted-encode d rest v) refl)
          (simp length-append (omega arith)) k)

  Goes-all_deleted :
      (ds : List DeletedFile) (rest : List ℕ) (ve : VersionEdit)
      → All DeletedFits ds
      → Goes rest (record ve { deleted_files = ve.deleted_files ++ ds })
      → Goes (encode_all_deleted ds ++ rest) ve
  unfolding encode_all_deleted
  Goes-all_deleted [] rest ve v k =
      subst (λ l. Goes rest (record ve { deleted_files = l })) (append-nil ve.deleted_files) k
  Goes-all_deleted (d ∷ ds) rest ve v k =
      subst (λ src. Goes src ve)
        (sym (append_assoc (encode_deleted d) (encode_all_deleted ds) rest))
        (Goes-deleted d (encode_all_deleted ds ++ rest) ve v.0 (
          Goes-all_deleted ds rest (record ve { deleted_files = ve.deleted_files ++ d ∷ [] }) v.1
            (subst (λ l. Goes rest (record ve { deleted_files = l }))
              (sym (append_assoc ve.deleted_files (d ∷ []) ds)) k)))

  Goes-last_seq_num :
      (x : ℕ) (rest : List ℕ) (ve : VersionEdit)
      → x < u64_mod
      → Goes rest (record ve { last_seq_num = x; has_last_seq_num = true })
      → Goes (1 ∷ (put_uvarint x ++ rest)) ve
  Goes-last_seq_num x rest ve h k =
      Goes-item 1 (put_uvarint x ++ rest) rest ve
        (record ve { last_seq_num = x; has_last_seq_num = true })
        (unfold decode_item in rw (read-put _ x rest h) refl)
        (omega (arith, length-append (put_uvarint x) rest)) k

  Goes-next_file_num :
      (x : ℕ) (rest : List ℕ) (ve : VersionEdit)
      → x < u64_mod
      → Goes rest (record ve { next_file_num = x; has_next_file_num = true })
      → Goes (2 ∷ (put_uvarint x ++ rest)) ve
  Goes-next_file_num x rest ve h k =
      Goes-item 2 (put_uvarint x ++ rest) rest ve
        (record ve { next_file_num = x; has_next_file_num = true })
        (unfold decode_item in rw (read-put _ x rest h) refl)
        (omega (arith, length-append (put_uvarint x) rest)) k

-- The numbers and key lengths fit a uint64, and a number that is not written is 0.
pub record IsEncodable (ve : VersionEdit) : Type 0 where
  pub files : All FileFits ve.new_files
  pub deletions : All DeletedFits ve.deleted_files
  pub last_seq_num_fits : ve.last_seq_num < u64_mod
  pub next_file_num_fits : ve.next_file_num < u64_mod
  pub last_seq_num_absent : ve.has_last_seq_num ≡ false → ve.last_seq_num ≡ 0
  pub next_file_num_absent : ve.has_next_file_num ≡ false → ve.next_file_num ≡ 0

abbrev edit : List FileMeta → List DeletedFile → ℕ → Bool → ℕ → Bool → VersionEdit
edit fs ds s hs n hn = record {
  new_files = fs;
  deleted_files = ds;
  last_seq_num = s;
  next_file_num = n;
  has_last_seq_num = hs;
  has_next_file_num = hn;
}

Goes-end : (ve : VersionEdit) → Goes (ok ve) [] ve
unfolding decode_loop
Goes-end ve fuel h = refl

module _ (fs : List FileMeta) (ds : List DeletedFile) (fits : All FileFits fs)
    (deletions : All DeletedFits ds) where
  abbrev files_part : List ℕ
  files_part = encode_files fs ++ encode_all_deleted ds

  abbrev whole : ℕ → Bool → ℕ → Bool → Result VersionEdit
  whole s hs n hn = ok (edit fs ds s hs n hn)

  Goes-rest : (s n : ℕ) (hs hn : Bool) → Goes (whole s hs n hn) files_part (edit [] [] s hs n hn)
  Goes-rest s n hs hn =
      Goes-files (whole s hs n hn) fs (encode_all_deleted ds) (edit [] [] s hs n hn) fits (
        subst (λ src. Goes (whole s hs n hn) src (edit fs [] s hs n hn))
          (append-nil (encode_all_deleted ds))
          (Goes-all_deleted (whole s hs n hn) ds [] (edit fs [] s hs n hn) deletions
            (Goes-end (edit fs ds s hs n hn))))

  Goes-encode :
      (s n : ℕ) (hs hn : Bool)
      → s < u64_mod
      → n < u64_mod
      → (hs ≡ false → s ≡ 0)
      → (hn ≡ false → n ≡ 0)
      → Goes (whole s hs n hn) (encode (edit fs ds s hs n hn)) empty_edit
  unfolding encode
  Goes-encode s n true true sf nf zs zn =
      Goes-last_seq_num (whole s true n true) s (2 ∷ (put_uvarint n ++ files_part)) empty_edit sf (
        Goes-next_file_num (whole s true n true) n files_part (edit [] [] s true 0 false) nf
          (Goes-rest s n true true))
  Goes-encode s n true false sf nf zs zn =
      Goes-last_seq_num (whole s true n false) s files_part empty_edit sf (
        subst (λ k. Goes (whole s true n false) files_part (edit [] [] s true k false)) (zn refl)
          (Goes-rest s n true false))
  Goes-encode s n false true sf nf zs zn =
      Goes-next_file_num (whole s false n true) n files_part empty_edit nf (
        subst (λ k. Goes (whole s false n true) files_part (edit [] [] k false n true)) (zs refl)
          (Goes-rest s n false true))
  Goes-encode s n false false sf nf zs zn =
      subst (λ k. Goes (whole s false n false) files_part (edit [] [] k false 0 false)) (zs refl)
        (subst (λ k. Goes (whole s false n false) files_part (edit [] [] s false k false)) (zn refl)
          (Goes-rest s n false false))

-- Decoding the bytes of an edit gives the edit back.
pub decode-encode : (ve : VersionEdit) → IsEncodable ve → decode_version_edit (encode ve) ≡ ok ve
unfolding decode_version_edit
decode-encode ve v =
    Goes-encode ve.new_files ve.deleted_files v.files v.deletions ve.last_seq_num ve.next_file_num
      ve.has_last_seq_num ve.has_next_file_num v.last_seq_num_fits v.next_file_num_fits
      v.last_seq_num_absent v.next_file_num_absent (length (encode ve)) (omega arith)
