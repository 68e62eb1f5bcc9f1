-- ===== src/AsyncLogging/Live.antt =====
-- What holds of the buffers, the logger and its thread (base/AsyncLogging.cpp).
use cc_server.Prelude.{
  zero, suc, get_or, ℕ, ◌<◌, ◌≡◌, refl, ap, sym, ◌∙◌, ◌⊎◌, List, [], ◌∷◌, ◌++◌, none, some, arith,
  length, take, append_assoc, append-nil,
}
use cc_server.Prelude.Outcome.{ok}
use cc_server.FixedBuffer
use cc_server.FixedBuffer.{FixedBuffer, avail, contents, fixed_append_lem}
use cc_server.AsyncLogging.{BufferPtr, Logger, Writer, System, bytes_of}

-- What the buffers hold, in order.
abbrev pub bytes : List BufferPtr → List ℕ
bytes [] = []
bytes (none ∷ rest) = bytes rest
bytes (some b ∷ rest) = contents b ++ bytes rest

bytes-append : (xs ys : List BufferPtr) → bytes (xs ++ ys) ≡ bytes xs ++ bytes ys
bytes-append [] ys = refl
bytes-append (none ∷ xs) ys = bytes-append xs ys
bytes-append (some b ∷ xs) ys =
    ap (λ l. contents b ++ l) (bytes-append xs ys)
    ∙ sym (append_assoc (contents b) (bytes xs) (bytes ys))

module _ (size : ℕ) (fresh : FixedBuffer) where
  abbrev pub Valid : FixedBuffer → Type 0
  Valid b = FixedBuffer.IsValid size b

  -- A buffer that is there and empty.
  abbrev pub IsSpare : BufferPtr → Type 0
  IsSpare p = (b : FixedBuffer) × (p ≡ some b) × Valid b × (b.cur ≡ 0)

  abbrev pub AllLive : List BufferPtr → Type 0
  AllLive [] = Unit {0}
  AllLive (none ∷ rest) = ⊥
  AllLive (some b ∷ rest) = Valid b × AllLive rest

  pub AllLive-append : (xs ys : List BufferPtr) → AllLive xs → AllLive ys → AllLive (xs ++ ys)
  AllLive-append [] ys v w = w
  AllLive-append (none ∷ xs) ys v w = absurd v
  AllLive-append (some b ∷ xs) ys (v, vs) w = (v, AllLive-append xs ys vs w)

  pub bytes_of-bytes : (xs : List BufferPtr) → AllLive xs → bytes_of size fresh xs ≡ ok (bytes xs)
  bytes_of-bytes [] v = refl
  bytes_of-bytes (none ∷ xs) v = absurd v
  bytes_of-bytes (some b ∷ xs) (v, vs) = ground (arith, bytes_of-bytes xs vs)

  -- The spare buffer is gone only if a full buffer waits.
  abbrev pub HasSpare : BufferPtr → List BufferPtr → Type 0
  HasSpare p buffers = ((p ≡ none) × (0 < length buffers)) ⊎ IsSpare p

  pub record Ready (l : Logger) : Type 0 where
    pub buffer : FixedBuffer
    pub current : l.current ≡ some buffer
    pub valid : Valid buffer
    pub next : HasSpare l.next l.buffers
    pub live : AllLive l.buffers

  -- What waits to be taken by the writing thread.
  abbrev pub waiting : Logger → List ℕ
  waiting l = bytes (l.buffers ++ (l.current ∷ []))

  pub bytes-snoc :
      (xs : List BufferPtr) (b : FixedBuffer) → bytes (xs ++ (some b ∷ [])) ≡ bytes xs ++ contents b
  bytes-snoc xs b =
      bytes-append xs (some b ∷ []) ∙ ap (λ l. bytes xs ++ l) (append-nil (contents b))

  -- The writing thread at the head of its loop, and between the exchange and the write.
  pub data IsWriter (w : Writer) : Type 0 where
    idle : IsSpare w.new_buffer1 → IsSpare w.new_buffer2 → w.to_write ≡ [] → IsWriter w
    writing :
        w.new_buffer1 ≡ none
        → AllLive w.to_write
        → ((w.new_buffer2 ≡ none) × (1 < length w.to_write))
          ⊎ (IsSpare w.new_buffer2 × (0 < length w.to_write))
        → IsWriter w

  pub record Inv (s : System size fresh) : Type 0 where
    pub ready : Ready s.logger
    pub writer : IsWriter s.writer
    pub accounted :
        (0 < s.dropped)
        ⊎ (s.writer.output ++ (bytes s.writer.to_write ++ waiting s.logger) ≡ s.logged)

  pub live-get :
      (l : List BufferPtr) (i : ℕ)
      → AllLive l
      → i < length l
      → (b : FixedBuffer) × (get_or l i none ≡ some b) × Valid b
  live-get [] i v h = absurd (omega arith)
  live-get (none ∷ l) i v h = absurd v
  live-get (some b ∷ l) zero (v, vs) h = (b, refl, v)
  live-get (some b ∷ l) (suc i) (v, vs) h = live-get l i vs (omega arith)

  pub AllLive-take : (n : ℕ) (l : List BufferPtr) → AllLive l → AllLive (take n l)
  AllLive-take zero l v = tt
  AllLive-take (suc n) [] v = tt
  AllLive-take (suc n) (none ∷ l) v = absurd v
  AllLive-take (suc n) (some b ∷ l) (v, vs) = (v, AllLive-take n l vs)
