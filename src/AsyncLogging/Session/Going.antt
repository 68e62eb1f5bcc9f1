-- ===== src/AsyncLogging/Session/Going.antt =====
-- The logging thread from its start on, before it is stopped (base/AsyncLogging.cpp).
use cc_server.Prelude.{
  ℕ, ◌^◌, ◌<◌, ◌≡◌, refl, ap, inl, inr, true, false, List, [], ◌∷◌, ◌++◌, some, arith, length,
  length-replicate, Bool-cases, ◌==◌, not, ◌&&◌,
}
use cc_server.Prelude.Outcome.{ok}
use cc_server.FixedBuffer.{FixedBuffer, bzero, contents}
use cc_server.AsyncLogging.Live.{Valid, Inv, idle}
use cc_server.AsyncLogging.Lossless.{turn-Inv, log-Inv}
use cc_server.AsyncLogging.Session.{
  Event, said, stopped, turned, tested, test_running, Session, create, begin_thread, start,
  turn_thread, happen, happens,
}

module _ (size : ℕ) (fresh : FixedBuffer) where
  -- The lines are shorter than a buffer, and `stop` is not called.
  abbrev pub AllShort : List Event → Type 0
  AllShort [] = Unit {0}
  AllShort (said line ∷ es) = (length line < size) × AllShort es
  AllShort (stopped ∷ es) = ⊥
  AllShort (tested ∷ es) = AllShort es
  AllShort (turned ∷ es) = AllShort es

  bzero-Valid : Valid size fresh fresh → fresh.cur ≡ 0 → Valid size fresh (bzero size fresh)
  unfolding bzero
  bzero-Valid v c = (length-replicate size 0, omega (arith, v.1))

  -- The thread was not stopped.
  pub record IsGoing (s : Session size fresh) : Type 0 where
    pub running : s.running ≡ true
    pub ended : s.ended ≡ false
    pub joined : s.joined ≡ false

  pub start-Inv :
      (basename : List ℕ)
      → Valid size fresh fresh
      → fresh.cur ≡ 0
      → 1 < length basename
      → (s : Session size fresh) × (start size fresh basename ≡ ok s)
        × Inv size fresh s.system
        × IsGoing s
  unfolding start create begin_thread bzero
  start-Inv basename v c named =
      let b = bzero size fresh in
      let valid = bzero-Valid v c in
      let none_yet : contents b ≡ [] = ground (arith, c) in
      (
        record {
          system = record {
            logger = record { current = some b; next = some b; buffers = [] };
            writer = record {
              new_buffer1 = some b;
              new_buffer2 = some b;
              to_write = [];
              output = [];
            };
            logged = [];
            dropped = 0;
          };
          running = true;
          waiting = false;
          ended = false;
          joined = false;
        },
        ground (arith, named),
        record {
          ready = record {
            buffer = b;
            current = refl;
            valid = valid;
            next = inr (b, refl, valid, c);
            live = tt;
          };
          writer = idle (b, refl, valid, c) (b, refl, valid, c) refl;
          accounted = inr (ap (λ l. l ++ []) none_yet);
        },
        record { running = refl; ended = refl; joined = refl },
      )

  turn_thread-Inv :
      (s : Session size fresh)
      → Inv size fresh s.system
      → IsGoing s
      → (t : Session size fresh) × (turn_thread size fresh s ≡ ok t)
        × Inv size fresh t.system
        × IsGoing t
  unfolding turn_thread
  turn_thread-Inv s v g =
      let (t, e, w) = turn-Inv size fresh s.system v in
      let on : IsGoing (record s { system = t }) = record {
        running = g.running;
        ended = g.ended;
        joined = g.joined;
      } in
      elim (Bool-cases (length s.system.writer.to_write == 0)) [
        | inr busy ↦ (record s { system = t }, ground (arith, g.ended, busy, e), w, on)
        | inl head ↦ (
          record s { system = t; waiting = false },
          ground (arith, g.ended, head, g.running, e),
          w,
          record { running = g.running; ended = g.ended; joined = g.joined },
        )
      ]

  test_running-Inv :
      (s : Session size fresh)
      → Inv size fresh s.system
      → IsGoing s
      → Inv size fresh (test_running size fresh s).system × IsGoing (test_running size fresh s)
  unfolding test_running
  test_running-Inv s v g =
      elim (Bool-cases (not s.ended && not s.waiting && length s.system.writer.to_write == 0)) [
        | inl head ↦
            rw (head, g.running) (v, record { running = refl; ended = g.ended; joined = g.joined })
        | inr off ↦ rw off (v, g)
      ]

  pub happens-Inv :
      (s : Session size fresh) (es : List Event)
      → Valid size fresh fresh
      → fresh.cur ≡ 0
      → size < 2 ^ 31
      → AllShort es
      → Inv size fresh s.system
      → IsGoing s
      → (t : Session size fresh) × (happens size fresh s es ≡ ok t)
        × Inv size fresh t.system
        × IsGoing t
  unfolding happens happen
  happens-Inv s [] fv fc small short v g = (s, refl, v, g)
  happens-Inv s (said line ∷ es) fv fc small (short, shorts) v g =
      let (t, e, w, _, _, _) = log-Inv size fresh s.system line fv fc short small v in
      let (u, e', w', h) =
        happens-Inv (record s { system = t }) es fv fc small shorts w
          (record { running = g.running; ended = g.ended; joined = g.joined }) in
      (u, ground (arith, e, e'), w', h)
  happens-Inv s (stopped ∷ es) fv fc small short v g = absurd short
  happens-Inv s (tested ∷ es) fv fc small short v g =
      let (w, h) = test_running-Inv s v g in
      happens-Inv (test_running size fresh s) es fv fc small short w h
  happens-Inv s (turned ∷ es) fv fc small short v g =
      let (t, e, w, h) = turn_thread-Inv s v g in
      let (u, e', w', k) = happens-Inv t es fv fc small short w h in
      (u, ground (arith, e, e'), w', k)
