-- ===== src/Sstable/Reader/Opened.antt =====
-- `NewReader` of pkg/lsm/sstable/reader.go on a file that the writer closed.
use indexed_watch.Prelude.{
  ℕ, zero, suc, ◌+◌, ◌-◌, ◌<◌, ◌≤◌, ◌≡◌, refl, ap, sym, ◌∙◌, true, false, Option, none, some, List,
  [], ◌∷◌, ◌++◌, length, length-append, length-replicate, replicate, drop, drop_front,
  drop-length_append, arith, append-nil, append_assoc, le→ltb_false, u64_mod, Bool, All, subst,
}
use indexed_watch.Bytes.{bytes_equal}
use indexed_watch.Sstable.Block.{
  BlockIterator, BlockWriter, new_block_writer, finish, new_block_iterator,
}
use indexed_watch.Sstable.Block
use indexed_watch.Sstable.Block.Runs.{
  Entry, add_all, Fits, Runs, Runs-finish, add_all_restarts, length-finish,
}
use indexed_watch.Sstable.Bloom.{BloomFilter, decode_bloom_filter}
use indexed_watch.Sstable.Format.{
  Platform, BlockHandle, encode, decode_block_handle, magic, footer_size,
}
use indexed_watch.Sstable.Format.Handles.{decode-encode, length-encode}
use indexed_watch.Sstable.Writer.{
  WriterOptions, stored, footer_bytes, metaindex_block, filter_entry, bloom_filter_name,
  properties_name,
}
use indexed_watch.Sstable.Writer.Chunks.{Placed, Placed-append, index_entries, length-stored}
use indexed_watch.Sstable.Writer.Layout.{Laid, FilterAt, FilterAt-append, filter_of}
use indexed_watch.Sstable.Reader.{
  ok, int_mod, read_at, footer_handles, read_footer, find_filter, load_filter, read_filter,
  new_reader,
}
use indexed_watch.Sstable.Reader.Blocks.{IsChecksum, read_at-front, read_raw_block-Placed}

-- The numbers of the handle are uint64.
abbrev pub InRange : BlockHandle → Type 0
InRange h = (h.offset < u64_mod) × (h.size < u64_mod)

pub Placed-InRange :
    (p : Platform) (file : List ℕ) (h : BlockHandle) (bytes : List ℕ)
    → length file < int_mod
    → Placed p file h bytes
    → InRange h
Placed-InRange p file h bytes short v =
    let lengths : length file ≡ length v.before + (length bytes + 5 + length v.rest) = omega (
      arith,
      ap (length {0}) v.split,
      length-append v.before (stored p bytes ++ v.rest),
      length-append (stored p bytes) v.rest,
      length-stored p bytes,
    ) in
    (omega (arith, v.at), omega (arith, v.size))

zeros : BlockHandle → BlockHandle → List ℕ
zeros m i = replicate (footer_size - 8 - length (encode m ++ encode i)) 0

length-handles : (m i : BlockHandle) → length (encode m ++ (encode i ++ zeros m i)) ≡ 40
unfolding zeros
length-handles m i = omega (
  arith,
  length-append (encode m) (encode i ++ zeros m i),
  length-append (encode i) (zeros m i),
  length-append (encode m) (encode i),
  length-replicate {0} {A = ℕ} (footer_size - 8 - length (encode m ++ encode i)) 0,
  length-encode m,
  length-encode i,
)

footer_split :
    (m i : BlockHandle) → footer_bytes m i ≡ (encode m ++ (encode i ++ zeros m i)) ++ magic
unfolding footer_bytes zeros
footer_split m i = simp append_assoc

pub length-footer_bytes : (m i : BlockHandle) → length (footer_bytes m i) ≡ 48
length-footer_bytes m i =
    ap length (footer_split m i)
    ∙ length-append (encode m ++ (encode i ++ zeros m i)) magic
    ∙ omega (arith, length-handles m i)

footer_handles-bytes :
    (m i : BlockHandle) → InRange m → InRange i → footer_handles (footer_bytes m i) ≡ ok (m, i)
unfolding footer_handles
footer_handles-bytes m i a b =
    let rest = zeros m i ++ magic in
    let whole : footer_bytes m i ≡ encode m ++ (encode i ++ rest) =
      footer_split m i ∙ simp append_assoc in
    let one = decode-encode m (encode i ++ rest) a.0 a.1 in
    let two = decode-encode i rest b.0 b.1 in
    rw whole (rw one (rw (drop-length_append (encode m) (encode i ++ rest)) (rw two refl)))

read_footer-bytes :
    (front : List ℕ) (m i : BlockHandle)
    → length (front ++ footer_bytes m i) < int_mod
    → InRange m
    → InRange i
    → read_footer (front ++ footer_bytes m i) (length (front ++ footer_bytes m i)) ≡ ok (m, i)
unfolding read_footer
read_footer-bytes front m i short a b =
    let file = front ++ footer_bytes m i in
    let at : length file - footer_size ≡ length front =
      omega (arith, length-append front (footer_bytes m i), length-footer_bytes m i) in
    let read : read_at file (length file - footer_size) footer_size ≡ some (footer_bytes m i) =
      read_at-front file front (footer_bytes m i) [] (length file - footer_size) footer_size
        (ap (λ l. front ++ l) (sym (append-nil (footer_bytes m i)))) at
        (sym (length-footer_bytes m i)) short in
    let letters : drop (footer_size - 8) (footer_bytes m i) ≡ magic =
      ap (drop (footer_size - 8)) (footer_split m i)
      ∙ drop_front 40 (encode m ++ (encode i ++ zeros m i)) magic (sym (length-handles m i)) in
    let same : bytes_equal magic magic ≡ true = unfold bytes_equal in refl in
    rw read (rw letters (rw same (footer_handles-bytes m i a b)))

-- The metaindex has the filter first, if there is one.
filter_entries : Option BlockHandle → List Entry
filter_entries none = []
filter_entries (some h) = (bloom_filter_name, encode h) ∷ []

metaindex_entries : Option BlockHandle → BlockHandle → List Entry
metaindex_entries f props = filter_entries f ++ (properties_name, encode props) ∷ []

metaindex_block-eq :
    (f : Option BlockHandle) (props : BlockHandle)
    → metaindex_block f props ≡ finish (add_all (metaindex_entries f props) (new_block_writer 1))
unfolding metaindex_block filter_entry metaindex_entries filter_entries add_all
metaindex_block-eq none props = refl
metaindex_block-eq (some h) props = refl

metaindex_Fits :
    (f : Option BlockHandle) (props : BlockHandle) → All Fits (metaindex_entries f props)
unfolding metaindex_entries filter_entries
metaindex_Fits none props = ((omega arith, omega (arith, length-encode props)), tt)
metaindex_Fits (some h) props = (
  (omega arith, omega (arith, length-encode h)),
  ((omega arith, omega (arith, length-encode props)), tt),
)

length-metaindex :
    (f : Option BlockHandle) (props : BlockHandle) → length (metaindex_entries f props) ≤ 2
unfolding metaindex_entries filter_entries
length-metaindex none props = omega arith
length-metaindex (some h) props = omega arith

metaindex_runs :
    (f : Option BlockHandle) (props : BlockHandle)
    → Runs (metaindex_entries f props) (Block.first (new_block_iterator (metaindex_block f props)))
metaindex_runs f props =
    subst (λ b. Runs (metaindex_entries f props) (Block.first (new_block_iterator b)))
      (sym (metaindex_block-eq f props))
      (Runs-finish 1 (metaindex_entries f props) (metaindex_Fits f props) (
        omega (
          arith,
          add_all_restarts (metaindex_entries f props) (new_block_writer 1),
          length-metaindex f props,
        )))

abbrev value_of : Option BlockHandle → Option (List ℕ)
value_of none = none
value_of (some h) = some (encode h)

find_filter-runs :
    (f : Option BlockHandle) (props : BlockHandle) (fuel : ℕ) (s : Option (Bool × BlockIterator))
    → Runs (metaindex_entries f props) s
    → 2 ≤ fuel
    → find_filter fuel s ≡ ok (value_of f)
unfolding find_filter metaindex_entries filter_entries
find_filter-runs f props zero s r h = absurd (omega arith)
find_filter-runs f props (suc zero) s r h = absurd (omega arith)
find_filter-runs none props (suc (suc fuel)) s (it, e, ok₁, k, v, (it', e', ok₂)) h =
    let other : bytes_equal properties_name bloom_filter_name ≡ false =
      unfold bytes_equal in refl in
    rw (e, find_filter) (rw ok₁ (rw k (rw other (rw (e', find_filter) (rw ok₂ refl)))))
find_filter-runs (some b) props (suc (suc fuel)) s (it, e, ok₁, k, v, r) h =
    let same : bytes_equal bloom_filter_name bloom_filter_name ≡ true =
      unfold bytes_equal in refl in
    rw (e, find_filter) (rw ok₁ (rw k (rw same (rw v refl))))

abbrev pub decoded : Option (List ℕ) → Option BloomFilter
decoded none = none
decoded (some block) = decode_bloom_filter block

module _ (p : Platform) (file : List ℕ) (uint32 : IsChecksum p.crc32c)
    (short : length file < int_mod) where
  load_filter-FilterAt :
      (f : Option (List ℕ)) (h : Option BlockHandle)
      → FilterAt p file f h
      → load_filter p file (value_of h) ≡ ok (decoded f)
  unfolding load_filter
  load_filter-FilterAt none none v = refl
  load_filter-FilterAt none (some h) v = absurd v
  load_filter-FilterAt (some block) none v = absurd v
  load_filter-FilterAt (some block) (some h) v =
      let (a, b) = Placed-InRange p file h block short v in
      let handle : decode_block_handle (encode h) ≡ some (h, some (length (encode h))) =
        ap decode_block_handle (sym (append-nil (encode h))) ∙ decode-encode h [] a b in
      rw handle (rw (read_raw_block-Placed p file h block uint32 short v) refl)

  read_filter-Laid :
      (f : Option (List ℕ)) (h : Option BlockHandle) (props m : BlockHandle)
      → Placed p file m (metaindex_block h props)
      → FilterAt p file f h
      → read_filter p file m ≡ ok (decoded f)
  unfolding read_filter
  read_filter-Laid f h props m v at =
      let block = metaindex_block h props in
      let fuel : 2 ≤ length block + 1 = omega (
        arith,
        ap (length {0}) (metaindex_block-eq h props),
        length-finish (add_all (metaindex_entries h props) (new_block_writer 1)),
      ) in
      rw (read_raw_block-Placed p file m block uint32 short v) (
        rw (find_filter-runs h props (length block + 1) _ (metaindex_runs h props) fuel)
          (load_filter-FilterAt f h at))

-- The reader that `NewReader` makes of a file that the writer closed: the index block and the filter
-- are those that were written.
pub new_reader-Laid :
    (p : Platform) (opts : WriterOptions) (es : List Entry) (front : List ℕ) (m i : BlockHandle)
    (file_id : ℕ)
    → IsChecksum p.crc32c
    → length (front ++ footer_bytes m i) < int_mod
    → (v : Laid p opts es front m i)
    → new_reader p (front ++ footer_bytes m i) (length (front ++ footer_bytes m i)) file_id
      ≡ ok (record {
        file = front ++ footer_bytes m i;
        size = length (front ++ footer_bytes m i);
        file_id = file_id;
        index_block = finish (add_all (index_entries v.chunks) (new_block_writer 1));
        filter = decoded (filter_of p opts.bloom_bits_per_key es);
        metaindex_handle = m;
        index_handle = i;
      })
unfolding new_reader
new_reader-Laid p opts es front m i file_id uint32 short v =
    let foot = footer_bytes m i in
    let file = front ++ foot in
    let index = finish (add_all (index_entries v.chunks) (new_block_writer 1)) in
    let meta = metaindex_block v.filter v.props in
    let index_at = Placed-append p front foot i index v.index_at in
    let meta_at = Placed-append p front foot m meta v.metaindex_at in
    let filter = filter_of p opts.bloom_bits_per_key es in
    rw
      (le→ltb_false (length file) footer_size
        (omega (arith, length-append front foot, length-footer_bytes m i)))
      (rw
        (read_footer-bytes front m i short (Placed-InRange p file m meta short meta_at)
          (Placed-InRange p file i index short index_at))
        (rw (read_raw_block-Placed p file i index uint32 short index_at) (
          rw
            (read_filter-Laid p file uint32 short filter v.filter v.props m meta_at
              (FilterAt-append p front foot filter v.filter v.filter_at))
            refl)))
