-- ===== src/Buffer/ReadFd.antt =====
-- Buffer.cpp: `readFd`, a scattered read into the free end of the buffer and 64 KiB of stack.
use cc_server.Prelude.{
  refl, ℕ, ◌+◌, ◌-◌, ◌≤◌, ◌<◌, ◌≡◌, ap, ◌∙◌, List, ◌++◌, Option, none, some, arith, ltb, leb,
  if◌then◌else◌, length, take, drop, length-take, length-drop, take-append-drop, take_of_length_le,
  dec_lt, append_assoc,
}
use cc_server.Prelude.Slices.{overwrite, length-overwrite}
use cc_server.Prelude.Outcome.{Outcome, ok, ◌>>=◌, add_size}
use cc_server.Buffer.{Buffer, max_size, writable_bytes, append}
use cc_server.Buffer.Invariant.{IsValid, contents, writable_bytes-eq}
use cc_server.Buffer.Write.{append_lem, written, written_lem}

-- What `readv` does when it is offered room for so many bytes: it fails with an error number, or
-- delivers bytes, none of them at the end of the stream.
pub data ReadResult : Type 0 where
  failed : ℕ → ReadResult
  received : List ℕ → ReadResult

-- `readv` delivers no more than it is offered.
abbrev pub Delivers : ReadResult → ℕ → Type 0
Delivers (failed e) capacity = Unit {0}
Delivers (received xs) capacity = length xs ≤ capacity

-- The return value, `none` for -1, and what is stored through `savedErrno`.
pub record ReadFd : Type 0 where
  pub buffer : Buffer
  pub count : Option ℕ
  pub saved_errno : Option ℕ

abbrev pub extra_size : ℕ
extra_size = 65536

-- The room in the one or two `iovec`s.
abbrev pub capacity : ℕ → ℕ
capacity writable = if ltb writable extra_size then writable + extra_size else writable

-- The first bytes stand behind the writer already, and the others in `extrabuf`.
keep : Buffer → List ℕ → Outcome Buffer
keep b xs =
    let writable = writable_bytes b in
    let filled : Buffer = record b {
      bytes = overwrite b.writer_index (take writable xs) b.bytes;
    } in
    if leb (length xs) writable
    then ok (record filled { writer_index = add_size b.writer_index (length xs) })
    else append (record filled { writer_index = length filled.bytes }) (drop writable xs)

finish : Buffer → ReadResult → Outcome ReadFd
finish b (failed e) = ok (record { buffer = b; count = none; saved_errno = some e })
finish b (received xs) = do
  b' ← keep b xs
  ok (record { buffer = b'; count = some (length xs); saved_errno = none })

-- `readv` is the kernel's answer to the room offered.
unfoldable pub read_fd : (ℕ → ReadResult) → Buffer → Outcome ReadFd
unfolding finish keep
read_fd readv b = finish b (readv (capacity (writable_bytes b)))

keep_lem :
    (b : Buffer) (xs : List ℕ)
    → IsValid b
    → b.writer_index + length xs ≤ max_size
    → (b' : Buffer) × (keep b xs ≡ ok b') × IsValid b' × (contents b' ≡ contents b ++ xs)
unfolding keep
keep_lem b xs v room = elim (dec_lt (length b.bytes - b.writer_index) (length xs)) [
  | no fits ↦
      let (valid, joined) = written_lem b xs v (omega arith) in
      (
        written b xs,
        ground (
          arith,
          writable_bytes-eq v,
          take_of_length_le (length b.bytes - b.writer_index) xs (omega arith),
        ),
        valid,
        joined,
      )
  | yes more ↦
      let (valid, joined) = written_lem b front v full in
      let (b', e, valid', all, _) =
        append_lem (written b front) back valid
          (omega (arith, ends more, length-drop writable xs)) in
      (
        b',
        ground (arith, writable_bytes-eq v, e, size, ends more),
        valid',
        all
            ∙ ap (λ l. l ++ back) joined
            ∙ append_assoc (contents b) front back
            ∙ ap (λ l. contents b ++ l) (take-append-drop writable xs),
      )
]
  where
    writable : ℕ
    writable = length b.bytes - b.writer_index

    front : List ℕ
    front = take writable xs

    back : List ℕ
    back = drop writable xs

    full : b.writer_index + length front ≤ length b.bytes
    full = omega (arith, length-take writable xs)

    size : length (overwrite b.writer_index front b.bytes) ≡ length b.bytes
    size = length-overwrite b.writer_index front b.bytes full

    ends : writable < length xs → b.writer_index + length front ≡ length b.bytes
    ends more = omega (arith, length-take writable xs)

-- What `readFd` comes to for an answer of the kernel.
abbrev pub Meets : Buffer → ReadResult → Outcome ReadFd → Type 0
Meets b (failed e) o = o ≡ ok (record { buffer = b; count = none; saved_errno = some e })
Meets b (received xs) o =
    (b' : Buffer) × (o ≡ ok (record { buffer = b'; count = some (length xs); saved_errno = none }))
    × IsValid b'
    × (contents b' ≡ contents b ++ xs)

finish-Meets :
    (b : Buffer) (r : ReadResult)
    → IsValid b
    → Delivers r (capacity (writable_bytes b))
    → length b.bytes + extra_size ≤ max_size
    → Meets b r (finish b r)
unfolding finish
finish-Meets b (failed e) v fits room = refl
finish-Meets b (received xs) v fits room =
    let (b', e, valid, all) = keep_lem b xs v (ground (arith, writable_bytes-eq v)) in
    (b', ground (arith, e), valid, all)

-- After a `readFd` that fails the buffer is as it was, -1 is returned and the error number saved;
-- after one that receives bytes, they stand behind those held before, in order, in a valid buffer,
-- and their number is returned. Assumed: the kernel delivers no more than it is offered, and the
-- vector can grow by the 64 KiB of the second `iovec`.
pub read_fd-Meets :
    (readv : ℕ → ReadResult) (b : Buffer)
    → IsValid b
    → Delivers (readv (capacity (writable_bytes b))) (capacity (writable_bytes b))
    → length b.bytes + extra_size ≤ max_size
    → Meets b (readv (capacity (writable_bytes b))) (read_fd readv b)
unfolding read_fd
read_fd-Meets readv b v fits room = finish-Meets b (readv (capacity (writable_bytes b))) v fits room
