-- ===== src/Schema/Registry/WalLog.antt =====
-- The log of the registry of pkg/schema is the WAL of pkg/wal: the interface `Log` on the segments of
-- Wal/Segment, and its laws. `Sync` never fails there, since failures of the file system are not
-- modelled.
use indexed_watch.Prelude.{
  ℕ, ◌+◌, ◌≤◌, ◌≡◌, refl, ap, Bool, true, false, Option, none, some, List, length,
}
use indexed_watch.Wal.Frame.{RecordCodec, max_record_size}
use indexed_watch.Wal.Segment.{Wal, Result, ok, err, append, read_all}
use indexed_watch.Wal.Segment.Stored.{Keeps, read_all-Keeps}
use indexed_watch.Wal.Segment.Rotation.{IsCompact}
use indexed_watch.Wal.Segment.Appends.{append-Keeps}
use indexed_watch.Schema.Registry.{Log, LogLaws}

abbrev pub is_ok {ℓ} : {A : Type ℓ} → Result A → Bool
is_ok (ok a) = true
is_ok (err e) = false

abbrev pub value {ℓ} : {A : Type ℓ} → Result A → Option A
value (ok a) = some a
value (err e) = none

pub is_ok-ok {ℓ} : {A : Type ℓ} (r : Result A) → is_ok r ≡ true → (a : A) × (r ≡ ok a)
is_ok-ok (ok a) h = (a, refl)
is_ok-ok (err e) h = cc

module _ (codec : RecordCodec) (update : ℕ → List ℕ → ℕ) where
  abbrev pub wal_log : Log
  wal_log = record {
    State = Wal;
    append = λ d w. let r = append codec update d w in (is_ok r.0, r.1);
    sync = λ w. (true, w);
    read_all = λ w. value (read_all codec update w);
  }

  -- An entry that leaves 32 bytes of the decoder's 64 MiB is the last one that ReadAll returns, once
  -- it was appended, whether or not the log is rotated.
  abbrev pub wal_laws : IsCompact codec update → LogLaws wal_log
  wal_laws small = record {
    Holds = Keeps codec update;
    Fits = λ d. length d + 32 ≤ max_record_size;
    read_all-Holds = λ w l h. ap value (read_all-Keeps codec update w l h);
    append-Holds = λ d w l h f k.
        let (off, e) = is_ok-ok (append codec update d w).0 k in
        append-Keeps codec update d w l off small f h e;
    sync-Holds = λ w l h k. h;
  }
