-- ===== src/Buffer/Write.antt =====
-- Putting bytes into a buffer, at its end and before its start (Buffer.h).
use cc_server.Prelude.{
  ℕ, ◌+◌, ◌-◌, ◌≤◌, ◌<◌, ◌≡◌, ap, ap₂, ◌∙◌, sym, List, ◌++◌, arith, take, length,
}
use cc_server.Prelude.Slices.{
  slice, overwrite, slice-add, length-overwrite, slice-overwrite_self, slice-overwrite_before,
  slice-overwrite_after, take-slice,
}
use cc_server.Prelude.Outcome.{ok, aborts}
use cc_server.Buffer.{
  Buffer, max_size, prependable_bytes, begin_write, ensure_writable_bytes, has_written, unwrite,
  append, prepend,
}
use cc_server.Buffer.Invariant.{
  IsValid, contents, length-contents, readable_bytes-eq, writable_bytes-eq, copy_to_ok,
  ensure_writable_bytes-Room,
}

-- `b` with `source` written where the writer stands.
abbrev pub written : Buffer → List ℕ → Buffer
written b source = record b {
  bytes = overwrite b.writer_index source b.bytes;
  writer_index = b.writer_index + length source;
}

-- What a write at the writer leaves, if there is room for it.
pub written_lem :
    (b : Buffer) (source : List ℕ)
    → IsValid b
    → b.writer_index + length source ≤ length b.bytes
    → IsValid (written b source) × (contents (written b source) ≡ contents b ++ source)
written_lem b source v h = (omega (arith, size), joined)
  where
    open b use {bytes, reader_index, writer_index}

    size : length (written b source).bytes ≡ length bytes
    size = length-overwrite writer_index source bytes h

    joined : contents (written b source) ≡ contents b ++ source
    joined =
        ap (λ n. slice reader_index n (overwrite writer_index source bytes))
          {x = writer_index + length source - reader_index}
          {y = writer_index - reader_index + length source} (omega arith)
        ∙ slice-add reader_index (writer_index - reader_index) (length source)
            (overwrite writer_index source bytes)
        ∙ ap₂ ◌++◌
            (slice-overwrite_before reader_index (writer_index - reader_index) writer_index source
              bytes (omega arith) (omega arith))
            (ap (λ i. slice i (length source) (overwrite writer_index source bytes))
                {x = reader_index + (writer_index - reader_index)} {y = writer_index} (omega arith)
              ∙ slice-overwrite_self writer_index source bytes (omega arith))

append-written :
    (b b' : Buffer) (source : List ℕ)
    → ensure_writable_bytes b (length source) ≡ ok b'
    → IsValid b'
    → b'.writer_index + length source ≤ length b'.bytes
    → append b source ≡ ok (written b' source)
unfolding append has_written begin_write
append-written b b' source e v h =
    ground
      (arith, copy_to_ok b'.writer_index source b'.bytes, writable_bytes-eq copied-IsValid, size)
  where
    copied : Buffer
    copied = record b' { bytes = overwrite b'.writer_index source b'.bytes }

    size : length copied.bytes ≡ length b'.bytes
    size = length-overwrite b'.writer_index source b'.bytes h

    copied-IsValid : IsValid copied
    copied-IsValid = omega (arith, size)

-- `append` puts the bytes at the end of those held, moving or growing the storage as needed. No
-- assertion fails and nothing is written outside the vector.
pub append_lem :
    (b : Buffer) (source : List ℕ)
    → IsValid b
    → b.writer_index + length source ≤ max_size
    → (b' : Buffer) × (append b source ≡ ok b')
      × IsValid b'
      × (contents b' ≡ contents b ++ source)
      × (b'.writer_index ≤ b.writer_index + length source)
append_lem b source v h =
    let (b', e, r) = ensure_writable_bytes-Room b (length source) v h in
    let (valid, joined) = written_lem b' source r.valid r.room in
    (
      written b' source,
      append-written b b' source e r.valid r.room,
      valid,
      joined ∙ ap (λ l. l ++ source) r.same,
      omega (arith, r.low),
    )

-- `prepend` puts the bytes before those held, and aborts just when there is no room for them.
pub prepend_lem :
    (b : Buffer) (source : List ℕ)
    → IsValid b
    → length source ≤ b.reader_index
    → (b' : Buffer) × (prepend b source ≡ ok b') × IsValid b' × (contents b' ≡ source ++ contents b)
unfolding prepend prependable_bytes
prepend_lem b source v h =
    (b', ground (arith, copy_to_ok start source bytes), omega (arith, size), joined)
  where
    open b use {bytes, reader_index, writer_index}

    start : ℕ
    start = reader_index - length source

    b' : Buffer
    b' = record b { bytes = overwrite start source bytes; reader_index = start }

    size : length b'.bytes ≡ length bytes
    size = length-overwrite start source bytes (omega arith)

    joined : contents b' ≡ source ++ contents b
    joined =
        ap (λ n. slice start n (overwrite start source bytes)) {x = writer_index - start}
          {y = length source + (writer_index - reader_index)} (omega arith)
        ∙ slice-add start (length source) (writer_index - reader_index)
            (overwrite start source bytes)
        ∙ ap₂ ◌++◌ (slice-overwrite_self start source bytes (omega arith)) (
            ap (λ i. slice i (writer_index - reader_index) (overwrite start source bytes))
              {x = start + length source} {y = reader_index} (omega arith)
            ∙ slice-overwrite_after reader_index (writer_index - reader_index) start source bytes
                (omega arith) (omega arith))

-- Without enough space before the readable bytes `prepend` aborts.
prepend-aborts :
    (b : Buffer) (source : List ℕ) → b.reader_index < length source → prepend b source ≡ aborts
unfolding prepend prependable_bytes
prepend-aborts b source h = ground arith

-- `unwrite` takes the last `len` bytes away, and aborts when fewer are held.
pub unwrite_lem :
    (b : Buffer) (len : ℕ)
    → IsValid b
    → (len ≤ b.writer_index - b.reader_index
        → (b' : Buffer) × (unwrite b len ≡ ok b')
          × IsValid b'
          × (contents b' ≡ take (length (contents b) - len) (contents b))
          × (b'.writer_index ≤ b.writer_index))
      × (b.writer_index - b.reader_index < len → unwrite b len ≡ aborts)
unfolding unwrite
unwrite_lem b len v = (
  λ h. (
    record b { writer_index = b.writer_index - len },
    ground (arith, readable_bytes-eq v),
    omega arith,
    shorter h,
    omega arith,
  ),
  λ h. ground (arith, readable_bytes-eq v),
)
  where
    open b use {bytes, reader_index, writer_index}

    shorter :
        len ≤ writer_index - reader_index
        → slice reader_index (writer_index - len - reader_index) bytes
          ≡ take (length (contents b) - len) (contents b)
    shorter h =
        ap (λ n. slice reader_index n bytes) {x = writer_index - len - reader_index}
          {y = length (contents b) - len} (omega (arith, length-contents v))
        ∙ sym (
            take-slice (length (contents b) - len) reader_index (writer_index - reader_index) bytes
              (omega (arith, length-contents v)))
