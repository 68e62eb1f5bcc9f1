-- ===== src/Buffer/Ints.antt =====
-- Integers in network order (Buffer.h: appendInt64 to prependInt8). One function here stands for
-- the four that the source has for the widths.
use cc_server.Prelude.{
  [], append-nil, sym, ℕ, ◌+◌, ◌-◌, ◌≤◌, ◌<◌, ◌^◌, ◌≡◌, refl, ap, ◌∙◌, List, ◌++◌, arith, leb,
  length, take, drop, take-append_left, drop-append_left, length-append,
}
use cc_server.Prelude.Slices.{slice, take-slice}
use cc_server.Prelude.Outcome.{Outcome, ok, ◌>>=◌, ◌>>◌, assert}
use cc_server.Endian.{
  ByteOrder, store, load, htobe, betoh, network_bytes, length-network_bytes, store-htobe,
  betoh-load, store_one, load_one,
}
use cc_server.Buffer.{Buffer, max_size, copy_from, readable_bytes, peek, retrieve, append, prepend}
use cc_server.Buffer.Invariant.{IsValid, contents, length-contents, readable_bytes-eq, copy_from_ok}
use cc_server.Buffer.Write.{append_lem, prepend_lem}
use cc_server.Buffer.Read.{retrieve_lem}

pub data Width : Type 0 where
  int8 int16 int32 int64 : Width

-- `sizeof`
abbrev pub size_of : Width → ℕ
size_of int8 = 1
size_of int16 = 2
size_of int32 = 4
size_of int64 = 8

-- A value of the type, as its bit pattern.
abbrev pub Fits : Width → ℕ → Type 0
Fits w x = x < 256 ^ size_of w

-- The bytes that are handed to `append` and `prepend`: `int8_t` is not converted.
abbrev wire : ByteOrder → Width → ℕ → List ℕ
wire o int8 x = store o (size_of int8) x
wire o int16 x = store o (size_of int16) (htobe o (size_of int16) x)
wire o int32 x = store o (size_of int32) (htobe o (size_of int32) x)
wire o int64 x = store o (size_of int64) (htobe o (size_of int64) x)

unfoldable pub append_int : ByteOrder → Width → Buffer → ℕ → Outcome Buffer
append_int o w b x = append b (wire o w x)

unfoldable pub prepend_int : ByteOrder → Width → Buffer → ℕ → Outcome Buffer
prepend_int o w b x = prepend b (wire o w x)

abbrev from_wire : ByteOrder → Width → List ℕ → ℕ
from_wire o int8 raw = load o raw
from_wire o int16 raw = betoh o (size_of int16) (load o raw)
from_wire o int32 raw = betoh o (size_of int32) (load o raw)
from_wire o int64 raw = betoh o (size_of int64) (load o raw)

unfoldable pub peek_int : ByteOrder → Width → Buffer → Outcome ℕ
unfolding peek
peek_int o w b = do
  assert (leb (size_of w) (readable_bytes b))
  raw ← copy_from (peek b) (size_of w) b.bytes
  ok (from_wire o w raw)

unfoldable pub retrieve_int : Width → Buffer → Outcome Buffer
retrieve_int w b = retrieve b (size_of w)

unfoldable pub read_int : ByteOrder → Width → Buffer → Outcome (ℕ × Buffer)
unfolding retrieve_int
read_int o w b = do result ← peek_int o w b; b' ← retrieve_int w b; ok (result, b')

wire-network : (o : ByteOrder) (w : Width) (x : ℕ) → wire o w x ≡ network_bytes (size_of w) x
wire-network o int8 x = store_one o x
wire-network o int16 x = store-htobe o 2 x
wire-network o int32 x = store-htobe o 4 x
wire-network o int64 x = store-htobe o 8 x

from_wire-network :
    (o : ByteOrder) (w : Width) (x : ℕ) → Fits w x → from_wire o w (network_bytes (size_of w) x) ≡ x
from_wire-network o int8 x h = load_one o x h
from_wire-network o int16 x h = betoh-load o 2 x h
from_wire-network o int32 x h = betoh-load o 4 x h
from_wire-network o int64 x h = betoh-load o 8 x h

-- `append_int` puts the integer at the end in network order, whatever the host's byte order.
pub append_int_lem :
    (o : ByteOrder) (w : Width) (b : Buffer) (x : ℕ)
    → IsValid b
    → b.writer_index + size_of w ≤ max_size
    → (b' : Buffer) × (append_int o w b x ≡ ok b')
      × IsValid b'
      × (contents b' ≡ contents b ++ network_bytes (size_of w) x)
unfolding append_int
append_int_lem o w b x v h = rw (wire-network o w x) (
    let (b', e, valid, all, _) =
      append_lem b (network_bytes (size_of w) x) v
        (omega (arith, length-network_bytes (size_of w) x)) in
    (b', e, valid, all))

pub prepend_int_lem :
    (o : ByteOrder) (w : Width) (b : Buffer) (x : ℕ)
    → IsValid b
    → size_of w ≤ b.reader_index
    → (b' : Buffer) × (prepend_int o w b x ≡ ok b')
      × IsValid b'
      × (contents b' ≡ network_bytes (size_of w) x ++ contents b)
unfolding prepend_int
prepend_int_lem o w b x v h = rw (wire-network o w x) (
    prepend_lem b (network_bytes (size_of w) x) v
      (omega (arith, length-network_bytes (size_of w) x)))

-- `read_int` on bytes that begin with an integer in network order returns it and drops its bytes.
pub read_int_lem :
    (o : ByteOrder) (w : Width) (b : Buffer) (x : ℕ) (rest : List ℕ)
    → IsValid b
    → Fits w x
    → contents b ≡ network_bytes (size_of w) x ++ rest
    → (b' : Buffer) × (read_int o w b ≡ ok (x, b')) × IsValid b' × (contents b' ≡ rest)
unfolding read_int peek_int
read_int_lem o w b x rest v fits held =
    let (b', e, valid, left, _) = (retrieve_lem b n v).0 (omega (arith, size)) in
    (
      b',
      ground (
        arith,
        e,
        readable_bytes-eq v,
        size,
        length-contents v,
        copy_from_ok b.reader_index n b.bytes,
        raw,
        from_wire-network o w x fits,
      ),
      valid,
      left
          ∙ ap (drop n) held
          ∙ drop-append_left n (network_bytes n x) rest (sym (length-network_bytes n x)),
    )
  where
    n : ℕ
    n = size_of w

    size : length (contents b) ≡ n + length rest
    size =
        omega
          (arith, ap length held, length-append (network_bytes n x) rest, length-network_bytes n x)

    raw : slice b.reader_index n b.bytes ≡ network_bytes n x
    raw =
        sym (
          take-slice n b.reader_index (b.writer_index - b.reader_index) b.bytes
            (omega (arith, size, length-contents v)))
        ∙ ap (take n) held
        ∙ take-append_left n (network_bytes n x) rest (sym (length-network_bytes n x))

-- An integer appended behind any bytes is read again once those are retrieved, for each width and
-- byte order of the host, and nothing is left behind it.
pub read_int-append_int :
    (o : ByteOrder) (w : Width) (b : Buffer) (x : ℕ)
    → IsValid b
    → Fits w x
    → b.writer_index + size_of w ≤ max_size
    → (b₁ : Buffer) × (b₂ : Buffer) × (b₃ : Buffer) × (append_int o w b x ≡ ok b₁)
      × (retrieve b₁ (length (contents b)) ≡ ok b₂)
      × (read_int o w b₂ ≡ ok (x, b₃))
      × (contents b₃ ≡ [])
read_int-append_int o w b x v fits room =
    let (b₁, e₁, v₁, all) = append_int_lem o w b x v room in
    let (b₂, e₂, v₂, rest, _) =
      (retrieve_lem b₁ (length (contents b)) v₁).0
        (omega (arith, ap length all, length-append (contents b) (network_bytes (size_of w) x))) in
    let (b₃, e₃, _, left) = read_int_lem o w b₂ x [] v₂ fits (
      rest
      ∙ ap (drop (length (contents b))) all
      ∙ drop-append_left (length (contents b)) (contents b) (network_bytes (size_of w) x) refl
      ∙ sym (append-nil (network_bytes (size_of w) x))) in
    (b₁, b₂, b₃, e₁, e₂, e₃, left)

-- An integer prepended to a buffer with room for it in front is read again at once, for each width
-- and byte order of the host, and leaves the bytes held before.
pub read_int-prepend_int :
    (o : ByteOrder) (w : Width) (b : Buffer) (x : ℕ)
    → IsValid b
    → Fits w x
    → size_of w ≤ b.reader_index
    → (b₁ : Buffer) × (b₂ : Buffer) × (prepend_int o w b x ≡ ok b₁)
      × (read_int o w b₁ ≡ ok (x, b₂))
      × (contents b₂ ≡ contents b)
read_int-prepend_int o w b x v fits room =
    let (b₁, e₁, v₁, all) = prepend_int_lem o w b x v room in
    let (b₂, e₂, _, left) = read_int_lem o w b₁ x (contents b) v₁ fits all in (b₁, b₂, e₁, e₂, left)
