-- ===== src/Lsm/Manifest/Recovery.antt =====
-- The MANIFEST of pkg/lsm/version.go read back, whole or cut by a crash.
use indexed_watch.Prelude.{
  ℕ, suc, ◌+◌, ◌-◌, ◌≤◌, ◌<◌, ◌≡◌, refl, ap, sym, ◌∙◌, ap₂, subst, some, List, [], ◌∷◌, ◌++◌,
  append-nil, length, length-append, take, ltb, if◌then◌else◌, u32_mod, u64_mod, arith,
  Option-cases, inl, inr, All, All-append,
}
use indexed_watch.Bytes.Fixed.{le_read}
use indexed_watch.Lsm.VersionEdit.{VersionEdit, encode}
use indexed_watch.Lsm.Version.{Levels, apply}
use indexed_watch.Lsm.Manifest.{
  VersionSet, ok, read_failed, new_version_set, alloc_file_num, stamp, record_bytes, log_and_apply,
  take_edit, recover_loop, recover,
}
use indexed_watch.Lsm.Manifest.Records.{
  IsLoggable, records, take_edits, recover_loop-records, records-snoc, take_edits-snoc,
  length-records, cut_record,
}

-- What the records of a file, taken from a fresh VersionSet, lead to.
abbrev recovered : VersionSet → ℕ → ℕ → List ℕ → VersionSet
recovered vs n q m = record {
  current = vs.current;
  next_file_num = n;
  last_seq_num = q;
  manifest = m;
}

-- The file has the records of some edits, which lead to the current version.
pub record IsLogged (vs : VersionSet) : Type 0 where
  pub edits : List VersionEdit
  pub written : vs.manifest ≡ records edits
  pub loggable : All IsLoggable edits
  pub file_num : ℕ
  pub seq_num : ℕ
  pub not_ahead : file_num ≤ vs.next_file_num
  pub replayed :
      (m : List ℕ) → take_edits edits (new_version_set m) ≡ some (recovered vs file_num seq_num m)

recover-IsLogged :
    (vs : VersionSet) (v : IsLogged vs)
    → recover vs.manifest ≡ ok (recovered vs v.file_num v.seq_num vs.manifest)
unfolding recover
recover-IsLogged vs v =
    let file : vs.manifest ≡ records v.edits ++ [] =
      v.written ∙ sym (append-nil (records v.edits)) in
    let size : length vs.manifest ≡ length (records v.edits) = ap length v.written in
    let room = length-records v.edits in
    ap (λ l. recover_loop (length vs.manifest + 1) l (new_version_set vs.manifest)) file
    ∙ recover_loop-records v.edits [] (new_version_set vs.manifest)
        (recovered vs v.file_num v.seq_num vs.manifest) (suc (length vs.manifest - length v.edits))
        (length vs.manifest + 1) v.loggable (v.replayed vs.manifest) (omega arith)
    ∙ at_end (length vs.manifest - length v.edits) (recovered vs v.file_num v.seq_num vs.manifest)
  where
    at_end : (k : ℕ) (s : VersionSet) → recover_loop (suc k) [] s ≡ ok s
    at_end k s = unfold recover_loop le_read in refl

take_edit-stamp :
    (edit : VersionEdit) (vs : VersionSet) (v : Levels) (n q : ℕ) (m : List ℕ)
    → n ≤ vs.next_file_num
    → apply vs.current (stamp edit vs) ≡ some v
    → take_edit (stamp edit vs) (recovered vs n q m)
      ≡ some (record {
        current = v;
        next_file_num = vs.next_file_num;
        last_seq_num = vs.last_seq_num;
        manifest = m;
      })
unfolding take_edit
take_edit-stamp edit vs v n q m h k =
    let larger : (if ltb n vs.next_file_num then vs.next_file_num else n) ≡ vs.next_file_num =
      ground arith in
    rw (k, take_edit)
      (unfold stamp in
        ap
          (λ x. some (record {
            current = v;
            next_file_num = x;
            last_seq_num = vs.last_seq_num;
            manifest = m;
          }))
          larger)

log_and_apply-IsLogged :
    (edit : VersionEdit) (vs vs' : VersionSet)
    → IsLogged vs
    → IsLoggable (stamp edit vs)
    → log_and_apply edit vs ≡ ok vs'
    → (after : IsLogged vs') × (after.file_num ≡ vs'.next_file_num)
      × (after.seq_num ≡ vs'.last_seq_num)
unfolding log_and_apply
log_and_apply-IsLogged edit vs vs' v fits h =
    elim (Option-cases (apply vs.current (stamp edit vs))) [
      | inl x ↦ absurd (ground arith)
      | inr (u, x) ↦
          subst
            (λ w.
              (after : IsLogged w) × (after.file_num ≡ w.next_file_num)
              × (after.seq_num ≡ w.last_seq_num))
            (same u x)
            (
              record {
                edits = v.edits ++ stamp edit vs ∷ [];
                written =
                    ap (λ l. l ++ record_bytes (encode (stamp edit vs))) v.written
                    ∙ sym (records-snoc v.edits (stamp edit vs));
                loggable = All-append IsLoggable v.edits (stamp edit vs ∷ []) v.loggable (fits, tt);
                file_num = vs.next_file_num;
                seq_num = vs.last_seq_num;
                not_ahead = omega arith;
                replayed = λ m.
                    take_edits-snoc v.edits (stamp edit vs) (new_version_set m)
                      (recovered vs v.file_num v.seq_num m) _ (v.replayed m)
                      (take_edit-stamp edit vs u v.file_num v.seq_num m v.not_ahead x);
              },
              refl,
              refl,
            )
    ]
  where
    same :
        (u : Levels)
        → apply vs.current (stamp edit vs) ≡ some u
        → record vs { current = u; manifest = vs.manifest ++ record_bytes (encode (stamp edit vs)) }
          ≡ vs'
    same u x = ground arith

-- A VersionSet over a new file, and what happens to it: file numbers are given out, sequence
-- numbers are stored, and edits are logged and applied.
pub data Runs : VersionSet → Type 0 where
  fresh : Runs (new_version_set [])
  allocated :
      {vs : VersionSet} → Runs vs → vs.next_file_num + 1 < u64_mod → Runs (alloc_file_num vs).1
  stored : {vs : VersionSet} (n : ℕ) → Runs vs → Runs (record vs { last_seq_num = n })
  logged :
      {vs vs' : VersionSet} (edit : VersionEdit)
      → Runs vs
      → IsLoggable (stamp edit vs)
      → log_and_apply edit vs ≡ ok vs'
      → Runs vs'

Runs-IsLogged : {vs : VersionSet} → Runs vs → IsLogged vs
unfolding new_version_set records take_edits alloc_file_num
Runs-IsLogged fresh = record {
  edits = [];
  written = refl;
  loggable = tt;
  file_num = 1;
  seq_num = 0;
  not_ahead = omega arith;
  replayed = λ m. refl;
}
Runs-IsLogged (allocated {vs = vs} r h) =
    let v = Runs-IsLogged r in
    record {
      edits = v.edits;
      written = v.written;
      loggable = v.loggable;
      file_num = v.file_num;
      seq_num = v.seq_num;
      not_ahead = omega (arith, v.not_ahead);
      replayed = v.replayed;
    }
Runs-IsLogged (stored n r) =
    let v = Runs-IsLogged r in
    record {
      edits = v.edits;
      written = v.written;
      loggable = v.loggable;
      file_num = v.file_num;
      seq_num = v.seq_num;
      not_ahead = v.not_ahead;
      replayed = v.replayed;
    }
Runs-IsLogged (logged {vs = vs} {vs' = vs'} edit r fits h) =
    (log_and_apply-IsLogged edit vs vs' (Runs-IsLogged r) fits h).0

-- At any time after edits were logged and applied, reading the MANIFEST gives the version that is
-- current, and a next file number that is not ahead of the one in memory.
pub recover-Runs :
    (vs : VersionSet)
    → Runs vs
    → (s : VersionSet) × (recover vs.manifest ≡ ok s)
      × (s.current ≡ vs.current)
      × (s.next_file_num ≤ vs.next_file_num)
recover-Runs vs r =
    let v = Runs-IsLogged r in
    (recovered vs v.file_num v.seq_num vs.manifest, recover-IsLogged vs v, refl, v.not_ahead)

-- Right after an edit that a record can hold was logged and applied, reading the MANIFEST gives the
-- whole VersionSet:
-- the version, the next file number and the last sequence number.
pub recover-log_and_apply :
    (edit : VersionEdit) (vs vs' : VersionSet)
    → Runs vs
    → IsLoggable (stamp edit vs)
    → log_and_apply edit vs ≡ ok vs'
    → recover vs'.manifest ≡ ok vs'
recover-log_and_apply edit vs vs' r fits h =
    let (v, n, q) = log_and_apply-IsLogged edit vs vs' (Runs-IsLogged r) fits h in
    recover-IsLogged vs' v ∙ ap₂ (λ a b. ok (recovered vs' a b vs'.manifest)) n q

-- A crash that left a proper, non-empty part of one more record of less than 2 ^ 32 bytes makes the
-- MANIFEST unreadable:
-- `recover` fails, and so does `Open`, although all records before it are whole.
pub recover-torn :
    (vs : VersionSet) (d : List ℕ) (k : ℕ)
    → Runs vs
    → length d < u32_mod
    → 0 < k
    → k < 4 + length d
    → recover (vs.manifest ++ take k (record_bytes d)) ≡ read_failed
recover-torn vs d k r small pos cut =
    let v = Runs-IsLogged r in
    let tail = take k (record_bytes d) in
    let file = vs.manifest ++ tail in
    let size : length file ≡ length (records v.edits) + length tail =
      ap (λ m. length (m ++ tail)) v.written ∙ length-append (records v.edits) tail in
    let room = length-records v.edits in
    unfold recover in
    (ap (λ m. recover_loop (length file + 1) (m ++ tail) (new_version_set file)) v.written
      ∙ recover_loop-records v.edits tail (new_version_set file)
          (recovered vs v.file_num v.seq_num file) (suc (length file - length v.edits))
          (length file + 1) v.loggable (v.replayed file) (omega arith)
      ∙ cut_record d k (length file - length v.edits) (recovered vs v.file_num v.seq_num file) small
          pos cut)
