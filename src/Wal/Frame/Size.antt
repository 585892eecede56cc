-- ===== src/Wal/Frame/Size.antt =====
-- The length field of pkg/wal/encoder.go.
use indexed_watch.Prelude.{ℕ, ◌+◌, ◌%◌, ◌^◌, ◌<◌, ◌≤◌, ◌≡◌, arith}
use indexed_watch.Wal.Frame.{encode_frame_size, decode_frame_size}

-- The decoder finds the length and the padding that the encoder packed, for a length below
-- 2 ^ 56; a frame's body is a multiple of eight bytes, its padding is less than eight, and the
-- field is below 2 ^ 64 and at least the length.
pub decode-encode_frame_size :
    (n : ℕ)
    → n < 2 ^ 56
    → (decode_frame_size (encode_frame_size n).0 ≡ (n, (encode_frame_size n).1))
      × ((n + (encode_frame_size n).1) % 8 ≡ 0)
      × ((encode_frame_size n).1 < 8)
      × ((encode_frame_size n).0 < 2 ^ 64)
      × (n ≤ (encode_frame_size n).0)
unfolding encode_frame_size decode_frame_size
decode-encode_frame_size n h =
    (ground arith, ground arith, ground arith, ground arith, ground arith)
