-- ===== src/Buffer/Invariant.antt =====
-- The invariant of a buffer, the bytes that it holds, and how room is made for more (Buffer.h).
use cc_server.Prelude.{
  dec_lt, ℕ, ◌+◌, ◌-◌, ◌≤◌, ◌<◌, ◌≡◌, refl, ap, ◌∙◌, List, [], ◌++◌, arith, length, replicate,
  length-append, length-replicate,
}
use cc_server.Prelude.Slices.{
  slice, overwrite, slice-append, length-slice, length-overwrite, slice-overwrite_self,
}
use cc_server.Prelude.Outcome.{ok}
use cc_server.Buffer.{
  Buffer, max_size, cheap_prepend, resize, copy_to, copy_from, readable_bytes, writable_bytes,
  prependable_bytes, make_space, ensure_writable_bytes, create,
}

pub record IsValid (b : Buffer) : Type 0 where
  pub ordered : b.reader_index ≤ b.writer_index
  pub within : b.writer_index ≤ length b.bytes
  pub small : length b.bytes ≤ max_size
  pub prefixed : cheap_prepend ≤ length b.bytes

-- The readable bytes.
abbrev pub contents : Buffer → List ℕ
contents b = slice b.reader_index (b.writer_index - b.reader_index) b.bytes

pub readable_bytes-eq :
    {b : Buffer} → IsValid b → readable_bytes b ≡ b.writer_index - b.reader_index
unfolding readable_bytes
readable_bytes-eq v = omega arith

pub writable_bytes-eq :
    {b : Buffer} → IsValid b → writable_bytes b ≡ length b.bytes - b.writer_index
unfolding writable_bytes
writable_bytes-eq v = omega arith

pub length-contents :
    {b : Buffer} → IsValid b → length (contents b) ≡ b.writer_index - b.reader_index
length-contents {b} v =
    length-slice b.reader_index (b.writer_index - b.reader_index) b.bytes (omega arith)

pub copy_to_ok :
    (i : ℕ) (ys xs : List ℕ) → i + length ys ≤ length xs → copy_to i ys xs ≡ ok (overwrite i ys xs)
unfolding copy_to
copy_to_ok i ys xs h = ground arith

pub copy_from_ok :
    (i n : ℕ) (xs : List ℕ) → i + n ≤ length xs → copy_from i n xs ≡ ok (slice i n xs)
unfolding copy_from
copy_from_ok i n xs h = ground arith

-- The buffer after the vector grew to `n` bytes.
abbrev grown : Buffer → ℕ → Buffer
grown b n = record b { bytes = b.bytes ++ replicate (n - length b.bytes) 0 }

-- The buffer after its bytes moved down to `cheap_prepend`.
abbrev moved_down : Buffer → Buffer
moved_down b = record {
  bytes = overwrite cheap_prepend (contents b) b.bytes;
  reader_index = cheap_prepend;
  writer_index = cheap_prepend + (b.writer_index - b.reader_index);
}

resize-grows :
    (xs : List ℕ) (n : ℕ)
    → length xs < n
    → n ≤ max_size
    → resize xs n ≡ ok (xs ++ replicate (n - length xs) 0)
unfolding resize
resize-grows xs n h k = ground arith

-- What `make_space` has done: the same bytes are held, with room for `len` more.
pub record Room (b : Buffer) (len : ℕ) (b' : Buffer) : Type 0 where
  pub valid : IsValid b'
  pub same : contents b' ≡ contents b
  pub room : b'.writer_index + len ≤ length b'.bytes
  pub low : b'.writer_index ≤ b.writer_index

grown-Room :
    (b : Buffer) (len : ℕ)
    → IsValid b
    → length b.bytes < b.writer_index + len
    → b.writer_index + len ≤ max_size
    → Room b len (grown b (b.writer_index + len))
grown-Room b len v h k = record {
  valid = record {
    ordered = v.ordered;
    within = omega (arith, grows);
    small = omega (arith, grows);
    prefixed = omega (arith, grows);
  };
  same = slice-append b.reader_index (b.writer_index - b.reader_index) b.bytes _ (omega arith);
  room = omega (arith, grows);
  low = omega arith;
}
  where
    grows : length (grown b (b.writer_index + len)).bytes ≡ b.writer_index + len
    grows = omega (
      arith,
      length-append b.bytes (replicate (b.writer_index + len - length b.bytes) 0),
      length-replicate {A = ℕ} (b.writer_index + len - length b.bytes) 0,
    )

moved_down-Room :
    (b : Buffer) (len : ℕ)
    → IsValid b
    → cheap_prepend < b.reader_index
    → len + cheap_prepend ≤ length b.bytes - b.writer_index + b.reader_index
    → Room b len (moved_down b)
moved_down-Room b len v h k = record {
  valid = record {
    ordered = omega arith;
    within = omega (arith, kept);
    small = omega (arith, kept);
    prefixed = omega (arith, kept);
  };
  same =
      ap (λ n. slice cheap_prepend n (moved_down b).bytes)
        {x = cheap_prepend + (b.writer_index - b.reader_index) - cheap_prepend}
        {y = length (contents b)} (omega (arith, length-contents v))
      ∙ slice-overwrite_self cheap_prepend (contents b) b.bytes (omega arith);
  room = omega (arith, kept);
  low = omega arith;
}
  where
    kept : length (moved_down b).bytes ≡ length b.bytes
    kept = length-overwrite cheap_prepend (contents b) b.bytes (omega (arith, length-contents v))

make_space-grows :
    (b : Buffer) (len : ℕ)
    → IsValid b
    → length b.bytes - b.writer_index + b.reader_index < len + cheap_prepend
    → length b.bytes - b.writer_index < len
    → b.writer_index + len ≤ max_size
    → make_space b len ≡ ok (grown b (b.writer_index + len))
unfolding make_space prependable_bytes
make_space-grows b len v h short k =
    ground (arith, writable_bytes-eq v, resize-grows b.bytes (b.writer_index + len))

make_space-moves :
    (b : Buffer) (len : ℕ)
    → IsValid b
    → cheap_prepend < b.reader_index
    → len + cheap_prepend ≤ length b.bytes - b.writer_index + b.reader_index
    → make_space b len ≡ ok (moved_down b)
unfolding make_space prependable_bytes readable_bytes
make_space-moves b len v h k = ground (
  arith,
  writable_bytes-eq v,
  length-contents v,
  copy_from_ok b.reader_index (b.writer_index - b.reader_index) b.bytes,
  copy_to_ok cheap_prepend (contents b) b.bytes,
)

-- In an `ensure_writable_bytes` no assertion fails, and afterwards there is room.
pub ensure_writable_bytes-Room :
    (b : Buffer) (len : ℕ)
    → IsValid b
    → b.writer_index + len ≤ max_size
    → (b' : Buffer) × (ensure_writable_bytes b len ≡ ok b') × Room b len b'
unfolding ensure_writable_bytes
ensure_writable_bytes-Room b len v h = elim (dec_lt (length b.bytes - b.writer_index) len) [
  | no fits ↦ (
    b,
    ground (arith, writable_bytes-eq v),
    record { valid = v; same = refl; room = omega arith; low = omega arith },
  )
  | yes short ↦
      elim (dec_lt (length b.bytes - b.writer_index + b.reader_index) (len + cheap_prepend)) [
        | yes small ↦
            let r = grown-Room b len v (omega arith) h in
            (
              grown b (b.writer_index + len),
              ground (
                arith,
                writable_bytes-eq v,
                writable_bytes-eq r.valid,
                r.room,
                make_space-grows b len v small short h,
              ),
              r,
            )
        | no large ↦
            let r = moved_down-Room b len v (omega arith) (omega arith) in
            (
              moved_down b,
              ground (
                arith,
                writable_bytes-eq v,
                writable_bytes-eq r.valid,
                r.room,
                make_space-moves b len v,
              ),
              r,
            )
      ]
]

-- A new buffer is empty, with the size asked for.
pub create_lem :
    (n : ℕ)
    → cheap_prepend + n ≤ max_size
    → (b : Buffer) × (create n ≡ ok b) × IsValid b × (contents b ≡ []) × (writable_bytes b ≡ n)
unfolding create resize
create_lem n h = (fresh, ground (arith, readable_bytes-eq v, room), v, refl, room)
  where
    fresh : Buffer
    fresh = record {
      bytes = replicate (cheap_prepend + n) 0;
      reader_index = cheap_prepend;
      writer_index = cheap_prepend;
    }

    size : length fresh.bytes ≡ cheap_prepend + n
    size = length-replicate (cheap_prepend + n) 0

    v : IsValid fresh
    v = omega (arith, size)

    room : writable_bytes fresh ≡ n
    room = omega (arith, writable_bytes-eq v, size)
