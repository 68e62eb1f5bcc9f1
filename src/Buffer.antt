-- ===== src/Buffer.antt =====
-- Buffer.h: the byte buffer of a connection, a vector with a read and a write index.
-- A pointer into the buffer is its offset from `begin()`.
pub mod Invariant
pub mod Write
pub mod Read
pub mod Ints
pub mod Search
pub mod ReadFd
pub mod Refine
mod Tests
use cc_server.Prelude.{
  ℕ, zero, suc, ◌+◌, ◌-◌, ◌*◌, ◌^◌, ◌≤◌, Bool, true, false, List, [], ◌∷◌, ◌++◌, Option, none, some,
  if◌then◌else◌, ltb, leb, ◌==◌, ◌&&◌, length, take, drop, replicate,
}
use cc_server.Prelude.Slices.{slice, overwrite}
use cc_server.Prelude.Outcome.{
  Outcome, ok, aborts, throws, undefined, ◌>>=◌, ◌>>◌, assert, in_bounds, add_size, sub_size,
}
use mathlib.Core.Option

abbrev pub cheap_prepend : ℕ
cheap_prepend = 8

abbrev pub initial_size : ℕ
initial_size = 1024

pub record Buffer : Type 0 where
  pub bytes : List ℕ
  pub reader_index : ℕ
  pub writer_index : ℕ

-- `std::vector<char>::max_size()`
abbrev pub max_size : ℕ
max_size = 2 ^ 63 - 1

-- `std::vector<char>::resize`
unfoldable pub resize : List ℕ → ℕ → Outcome (List ℕ)
resize xs n =
    if ltb max_size n
    then throws
    else if leb n (length xs)
    then ok (take n xs)
    else ok (xs ++ replicate (n - length xs) 0)

-- `std::copy` into the array, at an offset
unfoldable pub copy_to : ℕ → List ℕ → List ℕ → Outcome (List ℕ)
copy_to i ys xs = do in_bounds (leb (i + length ys) (length xs)); ok (overwrite i ys xs)

-- the `n` bytes at an offset
unfoldable pub copy_from : ℕ → ℕ → List ℕ → Outcome (List ℕ)
copy_from i n xs = do in_bounds (leb (i + n) (length xs)); ok (slice i n xs)

unfoldable pub readable_bytes : Buffer → ℕ
readable_bytes b = sub_size b.writer_index b.reader_index

unfoldable pub writable_bytes : Buffer → ℕ
writable_bytes b = sub_size (length b.bytes) b.writer_index

unfoldable pub prependable_bytes : Buffer → ℕ
prependable_bytes b = b.reader_index

unfoldable pub peek : Buffer → ℕ
peek b = b.reader_index

unfoldable pub begin_write : Buffer → ℕ
begin_write b = b.writer_index

unfoldable pub create : ℕ → Outcome Buffer
unfolding prependable_bytes
create n = do
  bytes ← resize [] (add_size cheap_prepend n)
  let b : Buffer = record {
    bytes = bytes;
    reader_index = cheap_prepend;
    writer_index = cheap_prepend;
  }
  assert (readable_bytes b == 0)
  assert (writable_bytes b == n)
  assert (prependable_bytes b == cheap_prepend)
  ok b

-- The two buffers after `a.swap(b)`.
unfoldable pub swap : Buffer → Buffer → Buffer × Buffer
swap a b = (
  record { bytes = b.bytes; reader_index = b.reader_index; writer_index = b.writer_index },
  record { bytes = a.bytes; reader_index = a.reader_index; writer_index = a.writer_index },
)

unfoldable pub retrieve_all : Buffer → Buffer
retrieve_all b = record b { reader_index = cheap_prepend; writer_index = cheap_prepend }

unfoldable pub retrieve : Buffer → ℕ → Outcome Buffer
unfolding retrieve_all
retrieve b len = do
  assert (leb len (readable_bytes b))
  if ltb len (readable_bytes b)
      then ok (record b { reader_index = add_size b.reader_index len })
      else ok (retrieve_all b)

unfoldable pub retrieve_until : Buffer → ℕ → Outcome Buffer
unfolding peek begin_write
retrieve_until b end = do
  assert (leb (peek b) end)
  assert (leb end (begin_write b))
  retrieve b (end - peek b)

unfoldable pub retrieve_as_string : Buffer → ℕ → Outcome (List ℕ × Buffer)
unfolding peek
retrieve_as_string b len = do
  assert (leb len (readable_bytes b))
  result ← copy_from (peek b) len b.bytes
  b' ← retrieve b len
  ok (result, b')

unfoldable pub retrieve_all_as_string : Buffer → Outcome (List ℕ × Buffer)
retrieve_all_as_string b = retrieve_as_string b (readable_bytes b)

unfoldable pub has_written : Buffer → ℕ → Outcome Buffer
has_written b len = do
  assert (leb len (writable_bytes b))
  ok (record b { writer_index = add_size b.writer_index len })

unfoldable pub unwrite : Buffer → ℕ → Outcome Buffer
unwrite b len = do
  assert (leb len (readable_bytes b))
  ok (record b { writer_index = sub_size b.writer_index len })

-- Either the vector grows, or the readable bytes move down to `cheap_prepend`.
unfoldable pub make_space : Buffer → ℕ → Outcome Buffer
make_space b len =
    if ltb (add_size (writable_bytes b) (prependable_bytes b)) (add_size len cheap_prepend)
    then (do bytes ← resize b.bytes (add_size b.writer_index len); ok (record b { bytes = bytes }))
    else (do
      assert (ltb cheap_prepend b.reader_index)
      let readable = readable_bytes b
      moved ← copy_from b.reader_index readable b.bytes
      bytes ← copy_to cheap_prepend moved b.bytes
      let b' : Buffer = record {
        bytes = bytes;
        reader_index = cheap_prepend;
        writer_index = add_size cheap_prepend readable;
      }
      assert (readable == readable_bytes b')
      ok b')

unfoldable pub ensure_writable_bytes : Buffer → ℕ → Outcome Buffer
ensure_writable_bytes b len = do
  b' ← (if ltb (writable_bytes b) len then make_space b len else ok b)
  assert (leb len (writable_bytes b'))
  ok b'

-- `source` is the `len` bytes that the caller passes.
unfoldable pub append : Buffer → List ℕ → Outcome Buffer
unfolding begin_write
append b source = do
  b' ← ensure_writable_bytes b (length source)
  bytes ← copy_to (begin_write b') source b'.bytes
  has_written (record b' { bytes = bytes }) (length source)

unfoldable pub prepend : Buffer → List ℕ → Outcome Buffer
unfolding prependable_bytes
prepend b source = do
  assert (leb (length source) (prependable_bytes b))
  let reader = sub_size b.reader_index (length source)
  bytes ← copy_to reader source b.bytes
  ok (record b { bytes = bytes; reader_index = reader })
