-- ===== src/Buffer/Tests.antt =====
-- Runs of the buffer, and its theorems at concrete inputs.
use cc_server.Prelude.{ℕ, ◌+◌, ◌≤◌, ◌≡◌, refl, List, [], ◌∷◌, Option, arith}
use cc_server.Prelude.Outcome.{ok}
use cc_server.Endian.{little}
use cc_server.ByteQueue
use cc_server.ByteQueue.{Op, put, discard, read, read_all, give_back}
use cc_server.Buffer.{Buffer, append, retrieve, writable_bytes}
use cc_server.Buffer.Invariant.{IsValid, contents}
use cc_server.Buffer.Write.{append_lem}
use cc_server.Buffer.Ints.{
  int16, int32, append_int, prepend_int, read_int, read_int-append_int, read_int-prepend_int,
}
use cc_server.Buffer.Search.{find_crlf, CrlfAt, First, find_crlf_lem}
use cc_server.Buffer.ReadFd.{ReadResult, received, capacity, read_fd, Meets, read_fd-Meets}
use cc_server.Buffer.Refine.{run, observe, run_refines}
use mathlib.Core.Option

-- Eight bytes of storage in front, "ab\r\nc" held, one byte free.
abbrev lines : Buffer
lines = record {
  bytes = 0 ∷ 0 ∷ 0 ∷ 0 ∷ 0 ∷ 0 ∷ 0 ∷ 0 ∷ 97 ∷ 98 ∷ 13 ∷ 10 ∷ 99 ∷ 0 ∷ [];
  reader_index = 8;
  writer_index = 13;
}

lines-IsValid : IsValid lines
lines-IsValid = omega arith

-- Ten bytes were read already, so that a longer write moves the rest down.
abbrev consumed : Buffer
consumed = record {
  bytes = 0 ∷ 0 ∷ 0 ∷ 0 ∷ 0 ∷ 0 ∷ 0 ∷ 0 ∷ 97 ∷ 98 ∷ 13 ∷ 10 ∷ 99 ∷ 0 ∷ [];
  reader_index = 12;
  writer_index = 13;
}

consumed-IsValid : IsValid consumed
consumed-IsValid = omega arith

abbrev script : List Op
script = put (1 ∷ 2 ∷ 3 ∷ []) ∷ read 2 ∷ discard 1 ∷ give_back 1 ∷ read_all ∷ []

run_refines_example : observe (run lines script) ≡ ByteQueue.run (contents lines) script
run_refines_example = run_refines lines script lines-IsValid (omega arith)

queue_runs :
    ByteQueue.run (contents lines) script
    ≡ ok ([] ∷ (97 ∷ 98 ∷ []) ∷ [] ∷ [] ∷ (10 ∷ 99 ∷ 1 ∷ 2 ∷ []) ∷ [], [])
unfolding ByteQueue.run ByteQueue.step
queue_runs = refl

append_lem_example :
    (b' : Buffer) × (append consumed (1 ∷ 2 ∷ 3 ∷ []) ≡ ok b')
    × IsValid b'
    × (contents b' ≡ 99 ∷ 1 ∷ 2 ∷ 3 ∷ [])
    × (b'.writer_index ≤ 16)
append_lem_example = append_lem consumed (1 ∷ 2 ∷ 3 ∷ []) consumed-IsValid (omega arith)

read_int-append_int_example :
    (b₁ : Buffer) × (b₂ : Buffer) × (b₃ : Buffer) × (append_int little int32 lines 0x01020304
      ≡ ok b₁)
    × (retrieve b₁ 5 ≡ ok b₂)
    × (read_int little int32 b₂ ≡ ok (0x01020304, b₃))
    × (contents b₃ ≡ [])
read_int-append_int_example =
    read_int-append_int little int32 lines 0x01020304 lines-IsValid (omega arith) (omega arith)

read_int-prepend_int_example :
    (b₁ : Buffer) × (b₂ : Buffer) × (prepend_int little int16 lines 5 ≡ ok b₁)
    × (read_int little int16 b₁ ≡ ok (5, b₂))
    × (contents b₂ ≡ contents lines)
read_int-prepend_int_example =
    read_int-prepend_int little int16 lines 5 lines-IsValid (omega arith) (omega arith)

find_crlf_lem_example :
    (r : Option ℕ) × (find_crlf lines ≡ ok (Option.map (λ i. 8 + i) r))
    × First (CrlfAt (contents lines)) r
find_crlf_lem_example = find_crlf_lem lines lines-IsValid

-- A kernel that has three bytes to deliver.
abbrev three : ℕ → ReadResult
three room = received (1 ∷ 2 ∷ 3 ∷ [])

read_fd-Meets_example : Meets lines (three (capacity (writable_bytes lines))) (read_fd three lines)
read_fd-Meets_example = read_fd-Meets three lines lines-IsValid (ground arith) (omega arith)
