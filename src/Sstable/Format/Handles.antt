-- ===== src/Sstable/Format/Handles.antt =====
-- Block handles of pkg/lsm/sstable/format.go read back.
use indexed_watch.Prelude.{
  ℕ, ◌≤◌, ◌<◌, ◌≡◌, refl, some, List, ◌++◌, append_assoc, length, length-append, drop-length_append,
  arith, u64_mod,
}
use indexed_watch.Bytes.Varint.{
  value, put_uvarint, uvarint, uvarint-put_uvarint, length-put_uvarint_bound,
}
use indexed_watch.Sstable.Format.{
  BlockHandle, encode, with_length, with_offset, decode_block_handle,
}

-- A handle whose numbers are uint64 is read back, and so is its length.
pub decode-encode :
    (h : BlockHandle) (rest : List ℕ)
    → h.offset < u64_mod
    → h.size < u64_mod
    → decode_block_handle (encode h ++ rest) ≡ some (h, some (length (encode h)))
unfolding decode_block_handle with_offset encode with_length
decode-encode h rest a b =
    let p = put_uvarint h.offset in
    let q = put_uvarint h.size in
    let first : uvarint (p ++ (q ++ rest)) ≡ value h.offset (length p) =
      uvarint-put_uvarint h.offset (q ++ rest) a in
    rw (append_assoc p q rest) (
      rw first (
        rw (drop-length_append p (q ++ rest))
          (rw (uvarint-put_uvarint h.size rest b) (rw (length-append p q) refl))))

pub length-encode : (h : BlockHandle) → length (encode h) ≤ 20
unfolding encode
length-encode h = omega (
  arith,
  length-append (put_uvarint h.offset) (put_uvarint h.size),
  length-put_uvarint_bound h.offset,
  length-put_uvarint_bound h.size,
)
