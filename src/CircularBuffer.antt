-- ===== src/CircularBuffer.antt =====
-- base/CircularBuffer.h and base/CircularBufferImpl.h: the last N values that were pushed.
pub mod Push
pub mod Recent
pub mod Create
pub mod Refine
pub mod Clear
pub mod Traverse
use cc_server.Prelude.{
  ℕ, zero, suc, ◌+◌, ◌-◌, ◌%◌, Bool, List, [], ◌∷◌, ◌++◌, Option, none, some, ltb, leb, ◌==◌,
  if◌then◌else◌, length, get_or, set, replicate,
}
use cc_server.Prelude.Outcome.{Outcome, ok, undefined, in_bounds, add_size, sub_size, ◌>>=◌, ◌>>◌}

-- A cell is `none` while it holds no object. An index is kept as the `size_t` that it converts to.
pub record CircularBuffer {ℓ} (A : Type ℓ) : Type ℓ where
  pub cells : List (Option A)
  pub head : ℕ
  pub tail : ℕ
  pub size : ℕ

unfoldable pub next_index : ℕ → ℕ → ℕ
next_index capacity i = add_size i 1 % capacity

-- `++` and `--` of an iterator, which is its index.
unfoldable pub increment : ℕ → ℕ → ℕ
increment capacity i = add_size i 1 % capacity

unfoldable pub decrement : ℕ → ℕ → ℕ
decrement capacity i = if i == 0 then capacity - 1 else i - 1

module _ {ℓ} {A : Type ℓ} where
  abbrev pub cell : List (Option A) → ℕ → Option A
  cell cells i = get_or cells i none

  -- A use of the object of a cell.
  abbrev pub object : Option A → Outcome A
  object none = undefined
  object (some a) = ok a

  abbrev pub read : List (Option A) → ℕ → Outcome A
  read cells i = object (cell cells i)

  abbrev pub construct : List (Option A) → ℕ → A → Outcome (List (Option A))
  construct cells i v = do in_bounds (ltb i (length cells)); ok (set cells i (some v))

  abbrev pub destroy : List (Option A) → ℕ → Outcome (List (Option A))
  destroy cells i = do a ← read cells i; ok (set cells i none)

module _ {ℓ} {A : Type ℓ} (capacity : ℕ) where
  unfoldable pub full : CircularBuffer A → Bool
  full c = c.size == capacity

  unfoldable pub empty : CircularBuffer A → Bool
  empty c = c.size == 0

  -- `value` is `value_type()`.
  unfoldable pub create : A → ℕ → A → CircularBuffer A
  create value n v =
      if leb capacity n
      then record {
        cells = replicate capacity (some v);
        head = 0;
        tail = sub_size capacity 1;
        size = capacity;
      }
      else record {
        cells = replicate n (some v) ++ replicate (capacity - n) (some value);
        head = 0;
        tail = sub_size n 1;
        size = n;
      }

  unfoldable pub push_back : CircularBuffer A → A → Outcome (CircularBuffer A)
  unfolding next_index full
  push_back c v =
      let tail = next_index capacity c.tail in
      if full c
      then (do
        destroyed ← destroy c.cells tail
        constructed ← construct destroyed tail v
        ok (record c { cells = constructed; tail = tail; head = next_index capacity c.head }))
      else (do
        constructed ← construct c.cells tail v
        ok (record c { cells = constructed; tail = tail; size = c.size + 1 }))

  -- The loop of `clear`, over the size.
  unfoldable pub destroy_all : ℕ → ℕ → List (Option A) → Outcome (List (Option A))
  destroy_all zero head cells = ok cells
  destroy_all (suc size) head cells = do
    rest ← destroy cells head
    destroy_all size (next_index capacity head) rest

  unfoldable pub clear : CircularBuffer A → Outcome (CircularBuffer A)
  clear c = do
    cells ← destroy_all c.size c.head c.cells
    ok (record { cells = cells; head = 0; tail = 0; size = 0 })

  unfoldable pub front : CircularBuffer A → Outcome A
  front c = read c.cells c.head

  unfoldable pub back : CircularBuffer A → Outcome A
  back c = read c.cells c.tail

  -- `operator[]`
  unfoldable pub at : CircularBuffer A → ℕ → Outcome A
  at c i = read c.cells i

  -- A copy of each object.
  unfoldable pub copy_cells : List (Option A) → Outcome (List (Option A))
  copy_cells [] = ok []
  copy_cells (x ∷ xs) = do a ← object x; rest ← copy_cells xs; ok (some a ∷ rest)

  unfoldable pub clone : CircularBuffer A → Outcome (CircularBuffer A)
  clone c = do
    cells ← copy_cells c.cells
    ok (record { cells = cells; head = c.head; tail = c.tail; size = capacity })

  -- The move constructor: the new buffer, and what is left of the old one.
  unfoldable pub move : CircularBuffer A → CircularBuffer A × CircularBuffer A
  move c = (c, record { cells = []; head = 0; tail = 0; size = 0 })

  -- `*` of an iterator reads its cell.
  unfoldable pub begin : CircularBuffer A → ℕ
  begin c = c.head

  unfoldable pub end : CircularBuffer A → ℕ
  end c = c.tail
