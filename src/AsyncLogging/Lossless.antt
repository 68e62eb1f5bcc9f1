-- ===== src/AsyncLogging/Lossless.antt =====
-- Any sequence of logged lines and turns of the writing thread (base/AsyncLogging.cpp).
use cc_server.Prelude.{
  ℕ, ◌^◌, ◌<◌, ◌≡◌, refl, ap, sym, ◌∙◌, inl, inr, List, [], ◌∷◌, ◌++◌, arith, length, append_assoc,
}
use cc_server.Prelude.Outcome.{ok, ◌>>=◌}
use cc_server.FixedBuffer.{FixedBuffer}
use cc_server.AsyncLogging.{System, Event, log, turn, step, run}
use cc_server.AsyncLogging.Live.{Valid, waiting, Inv, idle, writing, bytes}
use cc_server.AsyncLogging.Exchange.{append-Ready, exchange-Inv}
use cc_server.AsyncLogging.Write.{write-Inv}

module _ (size : ℕ) (fresh : FixedBuffer) where
  pub turn-Inv :
      (s : System size fresh)
      → Inv size fresh s
      → (t : System size fresh) × (step size fresh s turn ≡ ok t) × Inv size fresh t
  turn-Inv s v = elim v.writer [
    | idle one two empty ↦ exchange-Inv size fresh s v empty one two
    | writing gone live two ↦ write-Inv size fresh s v gone live two
  ]

  -- A line that is logged goes to what waits.
  pub log-Inv :
      (s : System size fresh) (line : List ℕ)
      → Valid size fresh fresh
      → fresh.cur ≡ 0
      → length line < size
      → size < 2 ^ 31
      → Inv size fresh s
      → (t : System size fresh) × (step size fresh s (log line) ≡ ok t)
        × Inv size fresh t
        × (t.writer ≡ s.writer)
        × (t.dropped ≡ s.dropped)
        × (waiting size fresh t.logger ≡ waiting size fresh s.logger ++ line)
  unfolding step
  log-Inv s line fv fc short small v =
      let (l, e, ready, grows) = append-Ready size fresh s.logger line fv fc short small v.ready in
      let t : System size fresh = record s { logger = l; logged = s.logged ++ line } in
      (
        t,
        ground (arith, e),
        record {
          ready = ready;
          writer = v.writer;
          accounted = elim v.accounted [
            | inl lost ↦ inl lost
            | inr all ↦ inr (
                ap (λ x. s.writer.output ++ (bytes s.writer.to_write ++ x)) grows
                ∙ ap (λ x. s.writer.output ++ x)
                    (sym
                      (append_assoc (bytes s.writer.to_write) (waiting size fresh s.logger) line))
                ∙ sym (
                    append_assoc s.writer.output
                      (bytes s.writer.to_write ++ waiting size fresh s.logger) line)
                ∙ ap (λ x. x ++ line) all)
          ];
        },
        refl,
        refl,
        grows,
      )

  -- The lines are shorter than a buffer.
  abbrev pub ShortLines : List Event → Type 0
  ShortLines [] = Unit {0}
  ShortLines (log line ∷ es) = (length line < size) × ShortLines es
  ShortLines (turn ∷ es) = ShortLines es

  -- In any order of logged lines and turns of the writing thread no assertion fails and no null
  -- pointer is used, and unless buffers were thrown away, the bytes written, those that the thread
  -- holds and those that wait are together the lines logged, in order. Assumed: the invariant at the
  -- start, empty new buffers, and lines shorter than a buffer of less than 2 ^ 31 bytes.
  pub run-Inv :
      (s : System size fresh) (es : List Event)
      → Valid size fresh fresh
      → fresh.cur ≡ 0
      → size < 2 ^ 31
      → ShortLines es
      → Inv size fresh s
      → (t : System size fresh) × (run size fresh s es ≡ ok t) × Inv size fresh t
  unfolding run
  run-Inv s [] fv fc small short v = (s, refl, v)
  run-Inv s (log line ∷ es) fv fc small (short, shorts) v =
      let (t, e, w, _, _, _) = log-Inv s line fv fc short small v in
      let (u, e', w') = run-Inv t es fv fc small shorts w in
      (u, ap (λ o. o >>= λ x. run size fresh x es) e ∙ e', w')
  run-Inv s (turn ∷ es) fv fc small short v =
      let (s', e, v') = turn-Inv s v in
      let (t, e', v'') = run-Inv s' es fv fc small short v' in
      (t, ap (λ o. o >>= λ x. run size fresh x es) e ∙ e', v'')
