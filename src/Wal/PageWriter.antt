-- ===== src/Wal/PageWriter.antt =====
-- pkg/wal/pagewriter.go: the buffered writer that keeps to page boundaries. The underlying
-- io.Writer is a parameter. The buffer is an array: `copy` stops at its end.
pub mod Room
pub mod Stream
pub mod Pending
pub mod Runs
use indexed_watch.Prelude.{
  ℕ, ◌+◌, ◌-◌, ◌*◌, ◌/◌, ◌%◌, ◌≡◌, Bool, true, false, List, [], ◌∷◌, ◌++◌, length, take, drop,
  replicate, ltb, leb, ◌==◌, if◌then◌else◌,
}

-- An io.Writer: the number of bytes written, whether there was no error, and the next state. What
-- it has accepted so far are its contents; without an error it has taken all bytes.
pub record Writer : Type 1 where
  pub State : Type 0
  pub contents : State → List ℕ
  pub write : List ℕ → State → ℕ × Bool × State
  pub write_all : (p : List ℕ) (s : State) → (write p s).1 ≡ true → (write p s).0 ≡ length p
  pub contents-write :
      (p : List ℕ) (s : State) → (write p s).1 ≡ true → contents (write p s).2 ≡ contents s ++ p

abbrev pub default_buffer_bytes : ℕ
default_buffer_bytes = 128 * 1024

abbrev pub default_page_bytes : ℕ
default_page_bytes = 4096

-- copy(buf[off:], p)
unfoldable pub copy_at : ℕ → List ℕ → List ℕ → List ℕ
copy_at off p buf = take off buf ++ (take (length buf - off) p ++ drop (off + length p) buf)

module _ (writer : Writer) where
  pub record PageWriter : Type 0 where
    pub w : writer.State
    pub page_offset : ℕ
    pub page_bytes : ℕ
    pub buffered_bytes : ℕ
    pub buf : List ℕ
    pub buf_watermark_bytes : ℕ

  -- The sizes are not negative: 0 asks for the default.
  unfoldable pub new_page_writer : writer.State → ℕ → ℕ → ℕ → PageWriter
  new_page_writer w page_bytes page_offset buffer_size =
      let page = if page_bytes == 0 then default_page_bytes else page_bytes in
      let size = if buffer_size == 0 then default_buffer_bytes else buffer_size in
      record {
        w = w;
        page_offset = page_offset;
        page_bytes = page;
        buffered_bytes = 0;
        buf = replicate (size + page) 0;
        buf_watermark_bytes = size;
      }

  -- The result is whether there was no error.
  unfoldable pub flush : PageWriter → Bool × PageWriter
  flush pw =
      if pw.buffered_bytes == 0
      then (true, pw)
      else let (n, ok, w') = writer.write (take pw.buffered_bytes pw.buf) pw.w in
        (
          ok,
          record pw {
            w = w';
            page_offset = (pw.page_offset + pw.buffered_bytes) % pw.page_bytes;
            buffered_bytes = 0;
          },
        )

  -- Copying into the buffer behind what is pending.
  unfoldable pub buffer : List ℕ → PageWriter → PageWriter
  buffer p pw = record pw {
    buf = copy_at pw.buffered_bytes p pw.buf;
    buffered_bytes = pw.buffered_bytes + length p;
  }

  -- The complete pages go out directly, the tail into the buffer. `n` bytes were taken before.
  unfoldable pub write_tail : ℕ → List ℕ → PageWriter → ℕ × Bool × PageWriter
  write_tail n p pw = if ltb 0 (length p) then (n + length p, true, buffer p pw) else (n, true, pw)

  unfoldable pub write_pages : ℕ → List ℕ → PageWriter → ℕ × Bool × PageWriter
  write_pages n p pw =
      if ltb pw.page_bytes (length p)
      then (let whole = length p / pw.page_bytes * pw.page_bytes in
          let (c, ok, w') = writer.write (take whole p) pw.w in
          if ok
          then write_tail (n + c) (drop whole p) (record pw { w = w' })
          else (n + c, false, record pw { w = w' }))
      else write_tail n p pw

  -- From the flush on.
  unfoldable pub write_flushed : ℕ → List ℕ → PageWriter → ℕ × Bool × PageWriter
  write_flushed n p pw =
      let (ok, pw') = flush pw in if ok then write_pages n p pw' else (n, false, pw')

  unfoldable pub write : List ℕ → PageWriter → ℕ × Bool × PageWriter
  write p pw =
      let slack = pw.page_bytes - (pw.page_offset + pw.buffered_bytes) % pw.page_bytes in
      if leb (length p + pw.buffered_bytes) pw.buf_watermark_bytes
      then (length p, true, buffer p pw)
      else if slack == pw.page_bytes
      then write_flushed 0 p pw
      else if ltb (length p) slack
      then (length p, true, buffer p pw)
      else write_flushed slack (drop slack p) (buffer (take slack p) pw)
