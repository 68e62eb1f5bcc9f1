-- ===== src/AsyncLogging/Drained.antt =====
-- The writing thread while no line is logged (base/AsyncLogging.cpp: threadFunc).
use cc_server.Prelude.{
  ℕ, ◌<◌, ◌≡◌, ap, ap₂, sym, ◌∙◌, ◌⊎◌, inl, inr, [], ◌∷◌, ◌++◌, some, arith, length, length-append,
  append-nil, take,
}
use cc_server.Prelude.Outcome.{ok}
use cc_server.FixedBuffer.{FixedBuffer, contents}
use cc_server.AsyncLogging.{System, turn, step, exchange, recycle}
use cc_server.AsyncLogging.Live.{IsSpare, Inv, waiting, idle, writing, bytes}
use cc_server.AsyncLogging.Lossless.{turn-Inv}

module _ (size : ℕ) (fresh : FixedBuffer) where
  -- A turn at the head of the loop takes all that waits.
  exchange_takes :
      (s t : System size fresh)
      → IsSpare size fresh s.writer.new_buffer1
      → IsSpare size fresh s.writer.new_buffer2
      → s.writer.to_write ≡ []
      → step size fresh s turn ≡ ok t
      → (bytes t.writer.to_write ≡ waiting size fresh s.logger)
        × (waiting size fresh t.logger ≡ [])
        × (t.logged ≡ s.logged)
        × (0 < length t.writer.to_write)
  unfolding step exchange
  exchange_takes s t (b₁, e₁, v₁, c₁) (b₂, e₂, v₂, c₂) empty e =
      let nothing : bytes (some b₁ ∷ []) ≡ [] =
        append-nil (contents b₁) ∙ ap (λ n. take n b₁.data_bytes) c₁ in
      let taken = length-append s.logger.buffers (s.logger.current ∷ []) in
      (
        ground (arith, e, e₁, e₂, c₁, c₂, empty, taken),
        ground (arith, e, e₁, e₂, c₁, c₂, empty, taken, nothing),
        ground (arith, e, e₁, e₂, c₁, c₂, empty, taken),
        ground (arith, e, e₁, e₂, c₁, c₂, empty, taken),
      )

  -- A turn that writes leaves nothing to write.
  write_clears :
      (s t : System size fresh)
      → 0 < length s.writer.to_write
      → step size fresh s turn ≡ ok t
      → (t.writer.to_write ≡ []) × (t.logger ≡ s.logger) × (t.logged ≡ s.logged)
  unfolding step recycle
  write_clears s t busy e = (ground (arith, e), ground (arith, e), ground (arith, e))

  -- What a round leaves, with nothing logged meanwhile.
  pub record Round (s t : System size fresh) : Type 0 where
    pub step : step size fresh s turn ≡ ok t
    pub inv : Inv size fresh t
    pub logged : t.logged ≡ s.logged

  -- Nothing waits, and nothing is held for writing.
  abbrev pub IsWritten : System size fresh → Type 0
  IsWritten s = (bytes s.writer.to_write ≡ []) × (waiting size fresh s.logger ≡ [])

  turn_of_idle :
      (s : System size fresh)
      → Inv size fresh s
      → IsSpare size fresh s.writer.new_buffer1
      → IsSpare size fresh s.writer.new_buffer2
      → s.writer.to_write ≡ []
      → (t : System size fresh) × Round s t
        × (bytes t.writer.to_write ≡ waiting size fresh s.logger)
        × (waiting size fresh t.logger ≡ [])
        × (0 < length t.writer.to_write)
  turn_of_idle s v one two empty =
      let (t, e, w) = turn-Inv size fresh s v in
      let (held, gone, same, busy) = exchange_takes s t one two empty e in
      (t, record { step = e; inv = w; logged = same }, held, gone, busy)

  spares_free :
      (s : System size fresh)
      → Inv size fresh s
      → s.writer.to_write ≡ []
      → IsSpare size fresh s.writer.new_buffer1 × IsSpare size fresh s.writer.new_buffer2
  spares_free s v empty = elim v.writer [
    | idle one two _ ↦ (one, two)
    | writing none_left live some_left ↦ elim some_left [
      | inl (g, h) ↦ absurd (omega (arith, ap length empty))
      | inr (g, h) ↦ absurd (omega (arith, ap length empty))
    ]
  ]

  turn_of_busy :
      (s : System size fresh)
      → Inv size fresh s
      → 0 < length s.writer.to_write
      → (t : System size fresh) × Round s t
        × (t.logger ≡ s.logger)
        × (t.writer.to_write ≡ [])
        × IsSpare size fresh t.writer.new_buffer1
        × IsSpare size fresh t.writer.new_buffer2
  turn_of_busy s v busy =
      let (t, e, w) = turn-Inv size fresh s v in
      let (empty, same, logged) = write_clears s t busy e in
      let (one, two) = spares_free t w empty in
      (t, record { step = e; inv = w; logged = logged }, same, empty, one, two)

  pub one_turn : (s : System size fresh) → Inv size fresh s → (t : System size fresh) × Round s t
  one_turn s v = elim v.writer [
    | idle one two empty ↦ let (t, r, _, _, _) = turn_of_idle s v one two empty in (t, r)
    | writing none_left live some_left ↦
        let (t, r, _, _, _, _) =
          turn_of_busy s v (elim some_left [ inl (g, h) ↦ omega arith | inr (g, h) ↦ h ]) in
        (t, r)
  ]

  -- From the head of the loop, two turns write all that waits.
  pub two_turns :
      (s : System size fresh)
      → Inv size fresh s
      → s.writer.to_write ≡ []
      → (t₁ t₂ : System size fresh) × Round s t₁
        × Round t₁ t₂
        × (0 < length t₁.writer.to_write)
        × (t₂.writer.to_write ≡ [])
        × IsWritten t₂
  two_turns s v empty =
      let (one, two) = spares_free s v empty in
      let (t₁, r₁, held, gone, busy) = turn_of_idle s v one two empty in
      let (t₂, r₂, same, empty₂, one₂, two₂) = turn_of_busy t₁ r₁.inv busy in
      (t₁, t₂, r₁, r₂, busy, empty₂, (ap bytes empty₂, ap (waiting size fresh) same ∙ gone))

  -- Three turns of the thread while nothing is logged go through, and leave nothing that is not
  -- written.
  pub three_turns :
      (s : System size fresh)
      → Inv size fresh s
      → (t₁ t₂ t₃ : System size fresh) × Round s t₁ × Round t₁ t₂ × Round t₂ t₃ × IsWritten t₃
  three_turns s v = elim v.writer [
    | idle one two empty ↦
        let (t₁, r₁, held, gone, busy) = turn_of_idle s v one two empty in
        let (t₂, r₂, same, empty₂, one₂, two₂) = turn_of_busy t₁ r₁.inv busy in
        let (t₃, r₃, held₃, gone₃, busy₃) = turn_of_idle t₂ r₂.inv one₂ two₂ empty₂ in
        (t₁, t₂, t₃, r₁, r₂, r₃, (held₃ ∙ ap (waiting size fresh) same ∙ gone, gone₃))
    | writing none_left live some_left ↦
        let busy : 0 < length s.writer.to_write = elim some_left [
          | inl (g, h) ↦ omega arith
          | inr (g, h) ↦ h
        ] in
        let (t₁, r₁, same, empty, one, two) = turn_of_busy s v busy in
        let (t₂, r₂, held, gone, busy₂) = turn_of_idle t₁ r₁.inv one two empty in
        let (t₃, r₃, same₃, empty₃, one₃, two₃) = turn_of_busy t₂ r₂.inv busy₂ in
        (t₁, t₂, t₃, r₁, r₂, r₃, (ap bytes empty₃, ap (waiting size fresh) same₃ ∙ gone))
  ]

  -- Then the bytes written are all that was logged, unless buffers were thrown away.
  pub IsWritten-all :
      (s : System size fresh)
      → Inv size fresh s
      → IsWritten s
      → (0 < s.dropped) ⊎ (s.writer.output ≡ s.logged)
  IsWritten-all s v (held, gone) = elim v.accounted [
    | inl lost ↦ inl lost
    | inr all ↦ inr (
        sym (append-nil s.writer.output)
        ∙ ap₂ (λ x y. s.writer.output ++ (x ++ y)) (sym held) (sym gone)
        ∙ all)
  ]
