-- ===== src/AsyncLogging/Session/Stop.antt =====
-- What is written when the logging thread is stopped (base/AsyncLogging.cpp).
use cc_server.Prelude.{
  ℕ, ◌^◌, ◌<◌, ◌≡◌, refl, ap, sym, ◌∙◌, ◌⊎◌, inl, inr, true, false, List, [], ◌∷◌, ◌++◌, arith,
  length,
}
use cc_server.Prelude.Outcome.{ok}
use cc_server.FixedBuffer.{FixedBuffer}
use cc_server.AsyncLogging.Live.{Valid, waiting, Inv, bytes}
use cc_server.AsyncLogging.Lossless.{log-Inv}
use cc_server.AsyncLogging.Drained.{two_turns, IsWritten-all}
use cc_server.AsyncLogging.Session.{
  Event, said, stopped, turned, stop, Session, start, turn_thread, happen, happens,
}
use cc_server.AsyncLogging.Session.Going.{AllShort, IsGoing, start-Inv, happens-Inv}

module _ (size : ℕ) (fresh : FixedBuffer) where
  -- What the thread leaves that is stopped right after a line was logged, while it was at the head of
  -- its loop.
  abbrev pub Leaves : Session size fresh → List ℕ → Type 0
  Leaves s line =
      (t : Session size fresh) × (happens size fresh s (said line ∷ stopped ∷ turned ∷ []) ≡ ok t)
      × (t.ended ≡ true)
      × ((0 < t.system.dropped)
          ⊎ ((rest : List ℕ) × (t.system.writer.output ++ (rest ++ line) ≡ t.system.logged)))

  -- While it was in its wait.
  abbrev pub Writes : Session size fresh → List ℕ → Type 0
  Writes s line =
      (t : Session size fresh) × (happens size fresh s
          (said line ∷ stopped ∷ turned ∷ turned ∷ turned ∷ [])
        ≡ ok t)
      × (t.ended ≡ true)
      × ((0 < t.system.dropped) ⊎ (t.system.writer.output ≡ t.system.logged))

  stops :
      (s : Session size fresh) (line : List ℕ)
      → Valid size fresh fresh
      → fresh.cur ≡ 0
      → size < 2 ^ 31
      → length line < size
      → Inv size fresh s.system
      → IsGoing size fresh s
      → s.waiting ≡ false
      → s.system.writer.to_write ≡ []
      → Leaves s line
  unfolding happens happen turn_thread stop
  stops s line fv fc small short v g on head =
      let (u, e, w, same, _, grows) = log-Inv size fresh s.system line fv fc short small v in
      let idle_still : u.writer.to_write ≡ [] = ap (λ x. x.to_write) same ∙ head in
      (
        record s { system = u; running = false; ended = true; joined = true },
        ground (arith, e, g.ended, g.joined, on, idle_still),
        refl,
        elim w.accounted [
          | inl lost ↦ inl lost
          | inr all ↦ inr (
            waiting size fresh s.system.logger,
            ap (λ x. u.writer.output ++ x) (sym grows)
                ∙ ap (λ l. u.writer.output ++ (bytes l ++ waiting size fresh u.logger))
                    (sym idle_still)
                ∙ all,
          )
        ],
      )

  finishes :
      (s : Session size fresh) (line : List ℕ)
      → Valid size fresh fresh
      → fresh.cur ≡ 0
      → size < 2 ^ 31
      → length line < size
      → Inv size fresh s.system
      → IsGoing size fresh s
      → s.waiting ≡ true
      → s.system.writer.to_write ≡ []
      → Writes s line
  unfolding happens happen turn_thread stop
  finishes s line fv fc small short v g in_wait head =
      let (u, e, w, same, _, grows) = log-Inv size fresh s.system line fv fc short small v in
      let idle_still : u.writer.to_write ≡ [] = ap (λ x. x.to_write) same ∙ head in
      let (t₁, t₂, r₁, r₂, busy, empty, written) = two_turns size fresh u w idle_still in
      (
        record s { system = t₂; running = false; waiting = false; ended = true; joined = true },
        ground (arith, e, g.ended, g.joined, in_wait, idle_still, r₁.step, r₂.step, busy, empty),
        refl,
        IsWritten-all size fresh t₂ r₂.inv written,
      )

  -- From the constructor and `start` on, in any order of lines and turns of the thread, no assertion
  -- fails, no null pointer is used and the thread does not end. If then a line is logged while the
  -- thread is between two rounds, `stop` is called before it goes on, and nothing else happens, `stop`
  -- passes its assertion and the thread ends. If it was at the head of its loop, before the test of
  -- running_, the log file is not handed that line at least: unless buffers were thrown away, what it
  -- was handed, something more and the line are together the lines logged, in order. If it was past the
  -- test, in its wait, the log file was handed all the lines logged, in order, unless buffers were
  -- thrown away. Assumed: a name of two characters, empty new buffers, and lines shorter than a buffer
  -- of less than 2 ^ 31 bytes.
  pub session_lem :
      (basename : List ℕ) (es : List Event) (line : List ℕ)
      → Valid size fresh fresh
      → fresh.cur ≡ 0
      → size < 2 ^ 31
      → 1 < length basename
      → AllShort size fresh es
      → length line < size
      → (s t : Session size fresh) × (start size fresh basename ≡ ok s)
        × (happens size fresh s es ≡ ok t)
        × (t.ended ≡ false)
        × (t.system.writer.to_write ≡ [] → t.waiting ≡ false → Leaves t line)
        × (t.system.writer.to_write ≡ [] → t.waiting ≡ true → Writes t line)
  session_lem basename es line fv fc small named shorts short =
      let (s, e, v, on) = start-Inv size fresh basename fv fc named in
      let (t, e', w, g) = happens-Inv size fresh s es fv fc small shorts v on in
      (
        s,
        t,
        e,
        e',
        g.ended,
        λ head at_test. stops t line fv fc small short w g at_test head,
        λ head in_wait. finishes t line fv fc small short w g in_wait head,
      )
