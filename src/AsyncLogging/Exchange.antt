-- ===== src/AsyncLogging/Exchange.antt =====
-- Logging a line, and the critical section of the writing thread (base/AsyncLogging.cpp).
use cc_server.Prelude.{
  ℕ, ◌+◌, ◌-◌, ◌^◌, ◌<◌, ◌≡◌, refl, ap, sym, ◌∙◌, ◌⊎◌, inl, inr, List, [], ◌∷◌, ◌++◌, none, some,
  arith, length, take, dec_lt, length-append, append_assoc, append-nil,
}
use cc_server.Prelude.Outcome.{ok}
use cc_server.FixedBuffer.{FixedBuffer, avail, contents, fixed_append_lem}
use cc_server.AsyncLogging.{BufferPtr, Logger, System, turn, step, spare, append, exchange}
use cc_server.AsyncLogging.Live.{
  Valid, IsSpare, AllLive-append, HasSpare, Ready, waiting, bytes-snoc, Inv, writing, bytes,
}

module _ (size : ℕ) (fresh : FixedBuffer) where
  spare-Valid :
      (p : BufferPtr) (buffers : List BufferPtr)
      → Valid size fresh fresh
      → fresh.cur ≡ 0
      → HasSpare size fresh p buffers
      → Valid size fresh (spare size fresh p) × ((spare size fresh p).cur ≡ 0)
  spare-Valid p buffers v z (inl (e, some_full)) = rw e (v, z)
  spare-Valid p buffers v z (inr (b, e, valid, clear)) = rw e (valid, clear)

  pub append-Ready :
      (l : Logger) (line : List ℕ)
      → Valid size fresh fresh
      → fresh.cur ≡ 0
      → length line < size
      → size < 2 ^ 31
      → Ready size fresh l
      → (l' : Logger) × (append size fresh l line ≡ ok l')
        × Ready size fresh l'
        × (waiting size fresh l' ≡ waiting size fresh l ++ line)
  unfolding append avail
  append-Ready l line v z fits small r = elim (dec_lt (length line) (size - r.buffer.cur)) [
    | yes room ↦
        let (c, e, valid, all) = fixed_append_lem size r.buffer line r.valid (omega arith) in
        (
          record l { current = some c },
          ground (arith, r.current, e),
          record { buffer = c; current = refl; valid = valid; next = r.next; live = r.live },
          bytes-snoc size fresh l.buffers c
              ∙ ap (λ x. bytes l.buffers ++ x) (all ∙ ground arith)
              ∙ sym (append_assoc (bytes l.buffers) (contents r.buffer) line)
              ∙ ap (λ x. x ++ line)
                  (sym (bytes-snoc size fresh l.buffers r.buffer)
                    ∙ ap (λ p. bytes (l.buffers ++ (p ∷ []))) (sym r.current)),
        )
    | no full ↦
        let (spare_valid, clear) = spare-Valid l.next l.buffers v z r.next in
        let (c, e, valid, all) =
          fixed_append_lem size (spare size fresh l.next) line spare_valid (omega arith) in
        (
          record { current = some c; next = none; buffers = l.buffers ++ (some r.buffer ∷ []) },
          ground (arith, r.current, e),
          record {
            buffer = c;
            current = refl;
            valid = valid;
            next = inl (refl, omega (arith, length-append l.buffers (some r.buffer ∷ [])));
            live = AllLive-append size fresh l.buffers (some r.buffer ∷ []) r.live (r.valid, tt);
          },
          bytes-snoc size fresh (l.buffers ++ (some r.buffer ∷ [])) c
              ∙ ap (λ x. bytes (l.buffers ++ (some r.buffer ∷ [])) ++ x)
                  (all ∙ ground (arith, clear))
              ∙ ap (λ p. bytes (l.buffers ++ (p ∷ [])) ++ line) (sym r.current),
        )
  ]

  -- The state after the critical section of the writing thread.
  abbrev exchanged : System size fresh → BufferPtr → BufferPtr → System size fresh
  exchanged s next new_buffer2 = record s {
    logger = record { current = s.writer.new_buffer1; next = next; buffers = [] };
    writer = record s.writer {
      new_buffer1 = none;
      new_buffer2 = new_buffer2;
      to_write = s.logger.buffers ++ (s.logger.current ∷ []);
    };
  }

  exchanged-Inv :
      (s : System size fresh) (next new_buffer2 : BufferPtr)
      → Inv size fresh s
      → s.writer.to_write ≡ []
      → IsSpare size fresh s.writer.new_buffer1
      → HasSpare size fresh next []
      → ((new_buffer2 ≡ none) × (0 < length s.logger.buffers)) ⊎ IsSpare size fresh new_buffer2
      → Inv size fresh (exchanged s next new_buffer2)
  exchanged-Inv s next new_buffer2 v empty (b, e, valid, clear) some_next some_new = record {
    ready = record { buffer = b; current = e; valid = valid; next = some_next; live = tt };
    writer =
        writing refl
          (rw v.ready.current (
            AllLive-append size fresh s.logger.buffers (some v.ready.buffer ∷ []) v.ready.live
              (v.ready.valid, tt)))
          (elim some_new [
            | inl (none_left, full) ↦ inl (none_left, omega (arith, taken))
            | inr some_left ↦ inr (some_left, omega (arith, taken))
          ]);
    accounted = elim v.accounted [
      | inl lost ↦ inl lost
      | inr all ↦ inr (
          ap (λ p. s.writer.output ++ (waiting size fresh s.logger ++ bytes (p ∷ []))) e
          ∙ ap (λ x. s.writer.output ++ (waiting size fresh s.logger ++ x)) nothing
          ∙ ap (λ x. s.writer.output ++ x) (append-nil (waiting size fresh s.logger))
          ∙ ap (λ x. s.writer.output ++ (bytes x ++ waiting size fresh s.logger)) (sym empty)
          ∙ all)
    ];
  }
    where
      taken : length (s.logger.buffers ++ (s.logger.current ∷ [])) ≡ length s.logger.buffers + 1
      taken = length-append s.logger.buffers (s.logger.current ∷ [])

      nothing : bytes (some b ∷ []) ≡ []
      nothing = append-nil (contents b) ∙ ap (λ n. take n b.data_bytes) clear

  pub exchange-Inv :
      (s : System size fresh)
      → Inv size fresh s
      → s.writer.to_write ≡ []
      → IsSpare size fresh s.writer.new_buffer1
      → IsSpare size fresh s.writer.new_buffer2
      → (t : System size fresh) × (step size fresh s turn ≡ ok t) × Inv size fresh t
  unfolding step exchange
  exchange-Inv s v empty one two =
      let (b₁, e₁, valid₁, clear₁) = one in
      let (b₂, e₂, valid₂, clear₂) = two in
      let taken = length-append s.logger.buffers (s.logger.current ∷ []) in
      elim v.ready.next [
        | inl (e, full) ↦ (
          exchanged s s.writer.new_buffer2 none,
          ground (arith, e₁, e₂, clear₁, clear₂, e, empty, taken),
          exchanged-Inv s s.writer.new_buffer2 none v empty one (inr two) (inl (refl, full)),
        )
        | inr (b, e, valid, clear) ↦ (
          exchanged s s.logger.next s.writer.new_buffer2,
          ground (arith, e₁, e₂, clear₁, clear₂, e, empty, taken),
          exchanged-Inv s s.logger.next s.writer.new_buffer2 v empty one (inr (b, e, valid, clear))
              (inr two),
        )
      ]
