-- ===== src/Buffer/Read.antt =====
-- Taking bytes out of a buffer (Buffer.h).
use cc_server.Prelude.{
  ◌⊎◌, ℕ, ◌+◌, ◌-◌, ◌≤◌, ◌<◌, ◌≡◌, ap, ◌∙◌, sym, [], arith, length, take, drop, dec_lt,
  drop_of_length_le, take_of_length_le,
}
use Prim.Native.Nat.{max}
use cc_server.Prelude.Slices.{slice, drop-slice, take-slice}
use cc_server.Prelude.Outcome.{ok, aborts}
use cc_server.Buffer.{
  Buffer, cheap_prepend, readable_bytes, retrieve_all, retrieve, retrieve_until, retrieve_as_string,
  retrieve_all_as_string,
}
use cc_server.Buffer.Invariant.{IsValid, contents, length-contents, readable_bytes-eq, copy_from_ok}

pub retrieve_all-IsValid : (b : Buffer) → IsValid b → IsValid (retrieve_all b)
unfolding retrieve_all
retrieve_all-IsValid b v = omega arith

-- `retrieve` drops the first `len` of the bytes held; asked for more than that it aborts.
pub retrieve_lem :
    (b : Buffer) (len : ℕ)
    → IsValid b
    → (len ≤ length (contents b)
        → (b' : Buffer) × (retrieve b len ≡ ok b')
          × IsValid b'
          × (contents b' ≡ drop len (contents b))
          × (b'.writer_index ≤ max b.writer_index cheap_prepend))
      × (length (contents b) < len → retrieve b len ≡ aborts)
unfolding retrieve
retrieve_lem b len v = (kept, λ h. ground (arith, readable_bytes-eq v, length-contents v))
  where
    open b use {bytes, reader_index, writer_index}

    kept :
        len ≤ length (contents b)
        → (b' : Buffer) × (retrieve b len ≡ ok b')
          × IsValid b'
          × (contents b' ≡ drop len (contents b))
          × (b'.writer_index ≤ max b.writer_index cheap_prepend)
    kept h = elim (dec_lt len (writer_index - reader_index)) [
      | yes part ↦ (
        record b { reader_index = reader_index + len },
        ground (arith, readable_bytes-eq v),
        omega arith,
        ap (λ n. slice (reader_index + len) n bytes) {x = writer_index - (reader_index + len)}
              {y = writer_index - reader_index - len} (omega arith)
            ∙ sym (drop-slice len reader_index (writer_index - reader_index) bytes),
        omega arith,
      )
      | no whole ↦ (
        retrieve_all b,
        ground (arith, readable_bytes-eq v, length-contents v),
        retrieve_all-IsValid b v,
        sym (drop_of_length_le len (contents b) (omega (arith, length-contents v))),
        omega arith,
      )
    ]

-- `retrieve_as_string` returns the first `len` bytes and keeps the others.
pub retrieve_as_string_lem :
    (b : Buffer) (len : ℕ)
    → IsValid b
    → len ≤ length (contents b)
    → (b' : Buffer) × (retrieve_as_string b len ≡ ok (take len (contents b), b'))
      × IsValid b'
      × (contents b' ≡ drop len (contents b))
      × (b'.writer_index ≤ max b.writer_index cheap_prepend)
unfolding retrieve_as_string
retrieve_as_string_lem b len v h =
    let (b', e, valid, rest, low) = (retrieve_lem b len v).0 h in
    (
      b',
      ground (
        arith,
        e,
        readable_bytes-eq v,
        length-contents v,
        copy_from_ok b.reader_index len b.bytes,
        take-slice len b.reader_index (b.writer_index - b.reader_index) b.bytes,
      ),
      valid,
      rest,
      low,
    )

pub retrieve_as_string-aborts :
    (b : Buffer) (len : ℕ)
    → IsValid b
    → length (contents b) < len
    → retrieve_as_string b len ≡ aborts
unfolding retrieve_as_string
retrieve_as_string-aborts b len v h = ground (arith, readable_bytes-eq v, length-contents v)

-- `retrieve_all_as_string` returns all that the buffer holds, and empties it.
pub retrieve_all_as_string_lem :
    (b : Buffer)
    → IsValid b
    → (b' : Buffer) × (retrieve_all_as_string b ≡ ok (contents b, b'))
      × IsValid b'
      × (contents b' ≡ [])
      × (b'.writer_index ≤ max b.writer_index cheap_prepend)
unfolding retrieve_all_as_string
retrieve_all_as_string_lem b v =
    let len = readable_bytes b in
    let (b', e, valid, rest, low) =
      retrieve_as_string_lem b len v (omega (arith, readable_bytes-eq v, length-contents v)) in
    (
      b',
      e
          ∙ ap (λ l. ok (l, b'))
              (take_of_length_le len (contents b)
                (omega (arith, readable_bytes-eq v, length-contents v))),
      valid,
      rest
          ∙ drop_of_length_le len (contents b)
              (omega (arith, readable_bytes-eq v, length-contents v)),
      low,
    )

-- `retrieve_until` takes an offset between the indices, drops the bytes before it, and aborts at
-- every other offset.
pub retrieve_until_lem :
    (b : Buffer) (end : ℕ)
    → IsValid b
    → (b.reader_index ≤ end
        → end ≤ b.writer_index
        → (b' : Buffer) × (retrieve_until b end ≡ ok b')
          × IsValid b'
          × (contents b' ≡ drop (end - b.reader_index) (contents b)))
      × ((end < b.reader_index) ⊎ (b.writer_index < end) → retrieve_until b end ≡ aborts)
unfolding retrieve_until
retrieve_until_lem b end v = (
  λ lo hi.
      let (b', e, valid, rest, _) =
        (retrieve_lem b (end - b.reader_index) v).0 (omega (arith, length-contents v)) in
      (b', ground (arith, e), valid, rest),
  λ out. ground arith,
)
