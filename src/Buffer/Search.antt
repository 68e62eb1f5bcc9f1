-- ===== src/Buffer/Search.antt =====
-- Finding the end of a line (Buffer.h: findCRLF, findEOL). An answer is an offset from `begin()`.
use cc_server.Prelude.{
  Bool-cases, drop, ap₂, sym, ℕ, zero, suc, ◌+◌, ◌-◌, ◌≤◌, ◌<◌, ◌≡◌, ap, ◌∙◌, List, [], ◌∷◌, arith,
  leb, get_elem?, Option, none, some, if◌then◌else◌, ◌==◌, ◌&&◌, ◌⊎◌, inl, inr,
}
use cc_server.Prelude.Slices.{slice, drop-slice}
use cc_server.Prelude.Outcome.{Outcome, ok, aborts, ◌>>=◌, ◌>>◌, assert}
use cc_server.Buffer.{Buffer, peek, begin_write, copy_from, readable_bytes}
use cc_server.Buffer.Invariant.{IsValid, contents, readable_bytes-eq, copy_from_ok}
use mathlib.Core.Option

abbrev pub carriage_return : ℕ
carriage_return = 13

abbrev pub newline : ℕ
newline = 10

-- `std::search` for the two bytes of KCRLF: how far into the range the first match is.
unfoldable pub search_crlf : List ℕ → Option ℕ
search_crlf [] = none
search_crlf (a ∷ []) = none
search_crlf (a ∷ b ∷ rest) =
    if a == carriage_return && b == newline then some 0 else Option.map suc (search_crlf (b ∷ rest))

-- `memchr`
unfoldable pub search_byte : ℕ → List ℕ → Option ℕ
search_byte c [] = none
search_byte c (a ∷ rest) = if a == c then some 0 else Option.map suc (search_byte c rest)

-- `std::search` answers the end of the range for no match, which the code turns into NULL.
unfoldable pub find_crlf : Buffer → Outcome (Option ℕ)
unfolding peek
find_crlf b = do
  range ← copy_from (peek b) (begin_write b - peek b) b.bytes
  ok (Option.map (λ i. peek b + i) (search_crlf range))

unfoldable pub find_crlf_from : Buffer → ℕ → Outcome (Option ℕ)
unfolding peek begin_write
find_crlf_from b start = do
  assert (leb (peek b) start)
  assert (leb start (begin_write b))
  range ← copy_from start (begin_write b - start) b.bytes
  ok (Option.map (λ i. start + i) (search_crlf range))

unfoldable pub find_eol : Buffer → Outcome (Option ℕ)
unfolding peek
find_eol b = do
  range ← copy_from (peek b) (readable_bytes b) b.bytes
  ok (Option.map (λ i. peek b + i) (search_byte newline range))

unfoldable pub find_eol_from : Buffer → ℕ → Outcome (Option ℕ)
unfolding peek begin_write
find_eol_from b start = do
  assert (leb (peek b) start)
  assert (leb start (begin_write b))
  range ← copy_from start (begin_write b - start) b.bytes
  ok (Option.map (λ i. start + i) (search_byte newline range))

-- A CRLF stands at index `i`.
abbrev pub CrlfAt : List ℕ → ℕ → Type 0
CrlfAt xs i = (get_elem? xs i ≡ some carriage_return) × (get_elem? xs (suc i) ≡ some newline)

-- What a search must answer: the first place where `P` holds, or that there is none.
abbrev pub First {κ} : (ℕ → Type κ) → Option ℕ → Type κ
First P none = (i : ℕ) → ¬ P i
First P (some i) = P i × ((j : ℕ) → j < i → ¬ P j)

First-zero {κ} : (P : ℕ → Type κ) → P 0 → First P (some 0)
First-zero P h = (h, λ j lt. absurd (omega arith))

First-suc {κ} :
    (P : ℕ → Type κ) (r : Option ℕ) → ¬ P 0 → First (λ i. P (suc i)) r → First P (Option.map suc r)
First-suc P none h f = λ i. elim i as (λ k. ¬ P k) [ zero ↦ h | suc k ↦ f k ]
First-suc P (some i) h (here, before) = (
  here,
  λ j. elim j as (λ k. k < suc i → ¬ P k) [ zero ↦ λ _. h | suc k ↦ λ lt. before k (omega arith) ],
)

search_byte-First : (c : ℕ) (xs : List ℕ) → First (λ i. get_elem? xs i ≡ some c) (search_byte c xs)
unfolding search_byte
search_byte-First c [] = λ i e. cc
search_byte-First c (a ∷ rest) = elim (Bool-cases (a == c)) [
  | inl hit ↦ rw hit (First-zero P (ground arith))
  | inr miss ↦
      rw miss (First-suc P (search_byte c rest) (λ e. ground arith) (search_byte-First c rest))
]
  where
    P : ℕ → Type 0
    P i = get_elem? (a ∷ rest) i ≡ some c

search_crlf-First : (xs : List ℕ) → First (CrlfAt xs) (search_crlf xs)
unfolding search_crlf
search_crlf-First [] = λ i h. cc
search_crlf-First (a ∷ []) = λ i h. ground arith
search_crlf-First (a ∷ b ∷ rest) = elim (Bool-cases (a == carriage_return && b == newline)) [
  | inl hit ↦ rw hit (First-zero (CrlfAt (a ∷ b ∷ rest)) (ground arith))
  | inr miss ↦ rw miss (
      First-suc (CrlfAt (a ∷ b ∷ rest)) (search_crlf (b ∷ rest)) (λ h. ground arith)
        (search_crlf-First (b ∷ rest)))
]

-- The bytes from an offset between the indices up to the writer.
from_offset :
    (b : Buffer) (start : ℕ)
    → IsValid b
    → b.reader_index ≤ start
    → start ≤ b.writer_index
    → copy_from start (b.writer_index - start) b.bytes
      ≡ ok (drop (start - b.reader_index) (contents b))
from_offset b start v lo hi =
    copy_from_ok start (b.writer_index - start) b.bytes (omega arith)
    ∙ ap ok (
        sym (
          drop-slice (start - b.reader_index) b.reader_index (b.writer_index - b.reader_index)
            b.bytes
          ∙ ap₂ (λ i n. slice i n b.bytes) {x = b.reader_index + (start - b.reader_index)}
              {y = start} {u = b.writer_index - b.reader_index - (start - b.reader_index)}
              {v = b.writer_index - start} (omega arith) (omega arith)))

-- `findCRLF()` answers where the first CRLF of the bytes held begins, and NULL if there is none.
pub find_crlf_lem :
    (b : Buffer)
    → IsValid b
    → (r : Option ℕ) × (find_crlf b ≡ ok (Option.map (λ i. b.reader_index + i) r))
      × First (CrlfAt (contents b)) r
unfolding find_crlf begin_write
find_crlf_lem b v = (
  search_crlf (contents b),
  ground (arith, copy_from_ok b.reader_index (b.writer_index - b.reader_index) b.bytes),
  search_crlf-First (contents b),
)

-- `findCRLF(start)` does so from an offset between the indices, and aborts for any other.
pub find_crlf_from_lem :
    (b : Buffer) (start : ℕ)
    → IsValid b
    → (b.reader_index ≤ start
        → start ≤ b.writer_index
        → (r : Option ℕ) × (find_crlf_from b start ≡ ok (Option.map (λ i. start + i) r))
          × First (CrlfAt (drop (start - b.reader_index) (contents b))) r)
      × ((start < b.reader_index) ⊎ (b.writer_index < start) → find_crlf_from b start ≡ aborts)
unfolding find_crlf_from
find_crlf_from_lem b start v = (
  λ lo hi. (
    search_crlf (drop (start - b.reader_index) (contents b)),
    ground (arith, from_offset b start v),
    search_crlf-First (drop (start - b.reader_index) (contents b)),
  ),
  λ out. ground arith,
)

-- `findEOL()` answers where the first newline of the bytes held is, and NULL if there is none.
pub find_eol_lem :
    (b : Buffer)
    → IsValid b
    → (r : Option ℕ) × (find_eol b ≡ ok (Option.map (λ i. b.reader_index + i) r))
      × First (λ i. get_elem? (contents b) i ≡ some newline) r
unfolding find_eol
find_eol_lem b v = (
  search_byte newline (contents b),
  ground (
    arith,
    readable_bytes-eq v,
    copy_from_ok b.reader_index (b.writer_index - b.reader_index) b.bytes,
  ),
  search_byte-First newline (contents b),
)

-- `findEOL(start)` does so from an offset between the indices, and aborts for any other.
pub find_eol_from_lem :
    (b : Buffer) (start : ℕ)
    → IsValid b
    → (b.reader_index ≤ start
        → start ≤ b.writer_index
        → (r : Option ℕ) × (find_eol_from b start ≡ ok (Option.map (λ i. start + i) r))
          × First (λ i. get_elem? (drop (start - b.reader_index) (contents b)) i ≡ some newline) r)
      × ((start < b.reader_index) ⊎ (b.writer_index < start) → find_eol_from b start ≡ aborts)
unfolding find_eol_from
find_eol_from_lem b start v = (
  λ lo hi. (
    search_byte newline (drop (start - b.reader_index) (contents b)),
    ground (arith, from_offset b start v),
    search_byte-First newline (drop (start - b.reader_index) (contents b)),
  ),
  λ out. ground arith,
)
