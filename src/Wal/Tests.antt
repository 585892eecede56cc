-- ===== src/Wal/Tests.antt =====
-- Runs of the records, the segments and the page writer of pkg/wal, with a codec that writes the type, the checksum
-- and then the payload, and a checksum that adds up the bytes.
use indexed_watch.Prelude.{
  ℕ, ◌+◌, ◌%◌, ◌<◌, ◌≡◌, refl, ap, true, false, Option, none, some, List, [], ◌∷◌, ◌++◌, length,
  take, arith, inl,
}
use indexed_watch.Bytes.Fixed.{le_bytes}
use indexed_watch.Wal.Frame.{
  Record, crc_type, data_type, RecordCodec, Encoder, new_encoder, encode, Decoder, Outcome, eof,
  decode_all, frame, encode_frame_size,
}
use indexed_watch.Wal.Frame.RoundTrip.{Encodes, nothing, next, Starts, decode_all-Encodes}
use indexed_watch.Wal.Frame.Torn.{recoverable, decode_all-torn}
use indexed_watch.Wal.PageWriter.{
  Writer, PageWriter, new_page_writer, write, write_flushed, flush, buffer, write_pages, write_tail,
  copy_at,
}
use indexed_watch.Wal.PageWriter.Stream.{IsFitting, stream, new_page_writer-IsFitting}
use indexed_watch.Wal.PageWriter.Runs.{joined, write_each, contents-write_each}
use indexed_watch.Wal.PageWriter.Pending.{write-IsFitting, stream-write}
use indexed_watch.Wal.Segment.{
  Wal, ok, wal_page_bytes, data_payloads, read_segment, open_segment, append_record, append,
  read_all, create_segment, rotate, rotate_if_full,
}
use indexed_watch.Wal.Segment.Rotation.{IsCompact}
use indexed_watch.Wal.Segment.Appends.{Appends, none_yet, one_more, read_all-Appends}
use indexed_watch.Wal.Segment.Recovery.{segment_survives_crash, reopened_offset}

abbrev pub small_unmarshal : List ℕ → Option Record
small_unmarshal [] = none
small_unmarshal (t ∷ []) = none
small_unmarshal (t ∷ c ∷ p) = some (record { type = t; crc = c; payload = p })

abbrev pub small_marshal : Record → Option (List ℕ)
small_marshal r = some (r.type ∷ r.crc ∷ r.payload)

pub small_round : (r : Record) (d : List ℕ) → small_marshal r ≡ some d → small_unmarshal d ≡ some r
small_round r d h = ground arith

pub small_positive :
    (r : Record) (d : List ℕ) → small_marshal r ≡ some d → 0 < r.type → 0 < length d
small_positive r d h t = ground arith

abbrev pub small_codec : RecordCodec
small_codec = record {
  marshal = small_marshal;
  unmarshal = small_unmarshal;
  unmarshal_marshal = small_round;
  marshal_positive = small_positive;
}

abbrev pub sum_bytes : ℕ → List ℕ → ℕ
sum_bytes c [] = c
sum_bytes c (b ∷ bs) = sum_bytes (c + b) bs

abbrev first_record : Record
first_record = record { type = crc_type; crc = 0; payload = [] }

abbrev second_record : Record
second_record = record { type = data_type; crc = 11; payload = 5 ∷ 6 ∷ [] }

abbrev start : Encoder
start = record { crc = 0; offset = 0; written = [] }

abbrev two_written : Encoder
two_written =
    (encode small_codec sum_bytes second_record
      (encode small_codec sum_bytes first_record start).1).1

second_crc : 11 ≡ sum_bytes (encode small_codec sum_bytes first_record start).1.crc (5 ∷ 6 ∷ [])
unfolding encode
second_crc = refl

two_Encodes : Encodes small_codec sum_bytes start (first_record ∷ second_record ∷ []) two_written
two_Encodes =
    next first_record (1 ∷ 0 ∷ []) refl refl (omega arith) (omega arith)
      (next second_record (3 ∷ 11 ∷ 5 ∷ 6 ∷ []) second_crc refl (omega arith) (omega arith) nothing)

starts : Starts small_codec sum_bytes (first_record ∷ second_record ∷ []) 0 start
unfolding Starts
starts = inl refl

decode_all-Encodes_example :
    decode_all small_codec sum_bytes 3
      (record { src = two_written.written; crc = 0; last_valid_off = 0 })
    ≡ (
      first_record ∷ second_record ∷ [],
      eof,
      record { src = []; crc = two_written.crc; last_valid_off = length two_written.written },
    )
decode_all-Encodes_example =
    decode_all-Encodes small_codec sum_bytes two_Encodes 0 3 refl starts (omega arith)

abbrev cut_body : List ℕ
cut_body = 3 ∷ 18 ∷ 7 ∷ []

decode_all-torn_example :
    (last : Outcome) × (end : Decoder) × (decode_all small_codec sum_bytes 3 (record {
      src = two_written.written ++ take 9 (frame cut_body);
      crc = 0;
      last_valid_off = 0;
    })
      ≡ (first_record ∷ second_record ∷ [], last, end))
    × (recoverable last ≡ true)
    × (end.crc ≡ two_written.crc)
    × (end.last_valid_off ≡ length two_written.written)
decode_all-torn_example =
    decode_all-torn small_codec sum_bytes two_Encodes cut_body 9 0 3 refl starts (omega arith)
      (omega arith) (omega arith) (omega arith)

abbrev pub new_wal : Wal
new_wal = record {
  segment_size = 100;
  prealloc_size = 110;
  closed_segments = [];
  base = [];
  encoder = start;
  file_size = 0;
  seq = 0;
  offset = 0;
  closed = false;
}

segment_survives_crash_example :
    (read_segment small_codec sum_bytes (two_written.written ++ take 9 (frame cut_body))
      ≡ some (data_payloads (first_record ∷ second_record ∷ [])))
    × (open_segment small_codec sum_bytes 4 (two_written.written ++ take 9 (frame cut_body)) new_wal
        ≡ ok (record new_wal {
          base = two_written.written;
          encoder = new_encoder two_written.crc (length two_written.written % wal_page_bytes);
          file_size = length (two_written.written ++ take 9 (frame cut_body));
          seq = 4;
          offset = length two_written.written;
        }))
segment_survives_crash_example =
    segment_survives_crash small_codec sum_bytes two_Encodes cut_body 9 4 new_wal refl starts
      (omega arith) (omega arith) (omega arith)

abbrev opened_wal : Wal
opened_wal = record new_wal {
  base = two_written.written;
  encoder = new_encoder two_written.crc (length two_written.written % wal_page_bytes);
  file_size = length (two_written.written ++ take 9 (frame cut_body));
  seq = 4;
  offset = length two_written.written;
}

written_offset : (append_record small_codec sum_bytes (5 ∷ []) opened_wal).0 ≡ ok 32
unfolding append_record encode new_encoder frame encode_frame_size le_bytes
written_offset = refl

reopened_offset_example : 32 < wal_page_bytes
reopened_offset_example =
    reopened_offset small_codec sum_bytes 4 (two_written.written ++ take 9 (frame cut_body))
      (5 ∷ []) new_wal opened_wal 32 segment_survives_crash_example.1 written_offset

pub small_IsCompact : IsCompact small_codec sum_bytes
small_IsCompact r d h = omega (arith, ap length (small_bytes r d h))
  where
    small_bytes :
        (r : Record) (d : List ℕ) → small_marshal r ≡ some d → r.type ∷ r.crc ∷ r.payload ≡ d
    small_bytes r d h = ground arith

-- Segments of 40 bytes: the second record fills the first segment.
abbrev pub small_wal : Wal
small_wal = record new_wal { segment_size = 40 }

abbrev pub created_wal : Wal
created_wal = record small_wal {
  encoder = record { crc = 5; offset = 16; written = frame (1 ∷ 5 ∷ []) };
  file_size = 110;
  seq = 1;
  offset = 16;
}

pub created : create_segment small_codec sum_bytes 1 5 small_wal ≡ ok created_wal
unfolding create_segment encode new_encoder frame encode_frame_size le_bytes
created = refl

abbrev one_appended : Wal
one_appended = (append small_codec sum_bytes (7 ∷ []) created_wal).1

abbrev two_appended : Wal
two_appended = (append small_codec sum_bytes (8 ∷ 9 ∷ []) one_appended).1

abbrev three_appended : Wal
three_appended = (append small_codec sum_bytes (4 ∷ []) two_appended).1

first_append : (append small_codec sum_bytes (7 ∷ []) created_wal).0 ≡ ok 16
unfolding append append_record rotate_if_full encode frame encode_frame_size le_bytes
first_append = refl

second_append : (append small_codec sum_bytes (8 ∷ 9 ∷ []) one_appended).0 ≡ ok 32
unfolding append append_record rotate_if_full encode frame encode_frame_size le_bytes
second_append = refl

-- The log is rotated first, so this record stands behind the checksum record of the new segment.
third_append : (append small_codec sum_bytes (4 ∷ []) two_appended).0 ≡ ok 16
unfolding append append_record rotate_if_full rotate create_segment new_encoder encode frame
    encode_frame_size le_bytes
third_append = refl

three_Appends :
    Appends small_codec sum_bytes created_wal
      ((7 ∷ []) ∷ (8 ∷ 9 ∷ []) ∷ (4 ∷ []) ∷ [])
      three_appended
three_Appends =
    one_more (4 ∷ []) 16
      (one_more (8 ∷ 9 ∷ []) 32 (one_more (7 ∷ []) 16 none_yet (omega arith) first_append)
        (omega arith) second_append)
      (omega arith) third_append

read_all-Appends_example :
    read_all small_codec sum_bytes three_appended ≡ ok ((7 ∷ []) ∷ (8 ∷ 9 ∷ []) ∷ (4 ∷ []) ∷ [])
read_all-Appends_example =
    read_all-Appends small_codec sum_bytes 1 5 small_wal created_wal three_appended
      ((7 ∷ []) ∷ (8 ∷ 9 ∷ []) ∷ (4 ∷ []) ∷ []) small_IsCompact refl refl created three_Appends

abbrev memory_writer : Writer
memory_writer = record {
  State = List ℕ;
  contents = λ s. s;
  write = λ p s. (length p, true, s ++ p);
  write_all = λ p s h. refl;
  contents-write = λ p s h. refl;
}

abbrev small_pages : PageWriter memory_writer
small_pages = new_page_writer memory_writer [] 4 3 2

write-IsFitting_example :
    IsFitting memory_writer (write memory_writer (1 ∷ 2 ∷ 3 ∷ []) small_pages).2
write-IsFitting_example =
    write-IsFitting memory_writer (1 ∷ 2 ∷ 3 ∷ []) small_pages
      (new_page_writer-IsFitting memory_writer [] 4 3 2)

written_without_error : (write memory_writer (1 ∷ 2 ∷ 3 ∷ []) small_pages).1 ≡ true
unfolding write write_flushed flush buffer new_page_writer write_pages write_tail copy_at
written_without_error = refl

stream-write_example :
    ((write memory_writer (1 ∷ 2 ∷ 3 ∷ []) small_pages).0 ≡ 3)
    × (stream memory_writer (write memory_writer (1 ∷ 2 ∷ 3 ∷ []) small_pages).2
        ≡ stream memory_writer small_pages ++ 1 ∷ 2 ∷ 3 ∷ [])
stream-write_example =
    stream-write memory_writer (1 ∷ 2 ∷ 3 ∷ []) small_pages
      (new_page_writer-IsFitting memory_writer [] 4 3 2) written_without_error

each_written : (write_each memory_writer ((1 ∷ 2 ∷ 3 ∷ []) ∷ (4 ∷ []) ∷ []) small_pages).0 ≡ true
unfolding write_each write write_flushed flush buffer new_page_writer write_pages write_tail copy_at
each_written = refl

flushed_at_end :
    (flush memory_writer
      (write_each memory_writer ((1 ∷ 2 ∷ 3 ∷ []) ∷ (4 ∷ []) ∷ []) small_pages).1).0
    ≡ true
unfolding write_each write write_flushed flush buffer new_page_writer write_pages write_tail copy_at
flushed_at_end = refl

contents-write_each_example :
    memory_writer.contents
      (flush memory_writer
        (write_each memory_writer ((1 ∷ 2 ∷ 3 ∷ []) ∷ (4 ∷ []) ∷ []) small_pages).1).1.w
    ≡ stream memory_writer small_pages ++ joined ((1 ∷ 2 ∷ 3 ∷ []) ∷ (4 ∷ []) ∷ [])
contents-write_each_example =
    contents-write_each memory_writer ((1 ∷ 2 ∷ 3 ∷ []) ∷ (4 ∷ []) ∷ []) small_pages
      (new_page_writer-IsFitting memory_writer [] 4 3 2) each_written flushed_at_end
