-- ===== src/AsyncLogging/Write.antt =====
-- What the writing thread does outside the critical section (base/AsyncLogging.cpp).
use cc_server.Prelude.{
  ltb, if◌then◌else◌, length-take, ℕ, ◌+◌, ◌-◌, ◌≤◌, ◌<◌, ◌≡◌, refl, ap, ◌∙◌, ◌⊎◌, inl, inr, List,
  [], ◌++◌, none, some, arith, length, take, dec_lt, append_assoc,
}
use cc_server.Prelude.Outcome.{ok, ◌>>=◌}
use cc_server.FixedBuffer
use cc_server.FixedBuffer.{FixedBuffer, avail, contents, fixed_append_lem}
use cc_server.AsyncLogging.{
  BufferPtr, Writer, System, turn, step, write_out, recycle, take_over, pop_back, write_out,
}
use cc_server.AsyncLogging.Live.{
  IsSpare, AllLive, bytes_of-bytes, waiting, Inv, live-get, AllLive-take, idle, bytes,
}

module _ (size : ℕ) (fresh : FixedBuffer) where
  take_over-none :
      (l : List BufferPtr)
      → AllLive size fresh l
      → 0 < length l
      → (p : BufferPtr) × (take_over size fresh none l ≡ ok (p, pop_back l)) × IsSpare size fresh p
  unfolding take_over FixedBuffer.reset
  take_over-none l v some_left =
      let (b, e, valid) = live-get size fresh l (length l - 1) v (omega arith) in
      (
        some (record b { cur = 0 }),
        ground (arith, e),
        (record b { cur = 0 }, refl, (valid.0, omega arith), refl),
      )

  take_over-some :
      (p : BufferPtr) (l : List BufferPtr)
      → IsSpare size fresh p
      → take_over size fresh p l ≡ ok (p, l)
  unfolding take_over
  take_over-some p l (b, e, valid, clear) = rw e refl

  -- The writing thread has both its buffers again.
  recycle_lem :
      (w : Writer)
      → w.new_buffer1 ≡ none
      → AllLive size fresh w.to_write
      → ((w.new_buffer2 ≡ none) × (1 < length w.to_write))
        ⊎ (IsSpare size fresh w.new_buffer2 × (0 < length w.to_write))
      → (p₁ : BufferPtr) × (p₂ : BufferPtr) × (recycle size fresh w
          ≡ ok (record w { new_buffer1 = p₁; new_buffer2 = p₂; to_write = [] }))
        × IsSpare size fresh p₁
        × IsSpare size fresh p₂
  unfolding recycle
  recycle_lem w gone live (inl (gone₂, two)) =
      let (p₁, e₁, s₁) = take_over-none w.to_write live (omega arith) in
      let (p₂, e₂, s₂) =
        take_over-none (pop_back w.to_write)
          (AllLive-take size fresh (length w.to_write - 1) w.to_write live)
          (omega (arith, length-take (length w.to_write - 1) w.to_write)) in
      (p₁, p₂, ground (arith, gone, gone₂, e₁, e₂), s₁, s₂)
  recycle_lem w gone live (inr (spare₂, one)) =
      let (p₁, e₁, s₁) = take_over-none w.to_write live one in
      (
        p₁,
        w.new_buffer2,
        ground (arith, gone, e₁, take_over-some w.new_buffer2 (pop_back w.to_write) spare₂),
        s₁,
        spare₂,
      )

  -- At most two of the buffers written are kept.
  abbrev trimmed : List BufferPtr → List BufferPtr
  trimmed l =
      let kept = if ltb 25 (length l) then take 2 l else l in
      if ltb 2 (length kept) then take 2 kept else kept

  trimmed_lem :
      (l : List BufferPtr) (n : ℕ)
      → AllLive size fresh l
      → n ≤ 2
      → n ≤ length l
      → AllLive size fresh (trimmed l) × (n ≤ length (trimmed l))
  trimmed_lem l n v a b = elim (dec_lt 2 (length l)) [
    | yes many ↦ elim (dec_lt 25 (length l)) [
      | yes flood ↦ ground (arith, AllLive-take size fresh 2 l v, length-take 2 l)
      | no some_few ↦ ground (arith, AllLive-take size fresh 2 l v, length-take 2 l)
    ]
    | no few ↦ ground (arith, v)
  ]

  abbrev kept : List BufferPtr → List BufferPtr
  kept l = if ltb 25 (length l) then take 2 l else l

  kept-AllLive : (l : List BufferPtr) → AllLive size fresh l → AllLive size fresh (kept l)
  kept-AllLive l v = elim (dec_lt 25 (length l)) [
    | yes flood ↦ ground (arith, AllLive-take size fresh 2 l v)
    | no few ↦ ground (arith, v)
  ]

  write_out_lem :
      (w : Writer)
      → AllLive size fresh w.to_write
      → write_out size fresh w
        ≡ ok (record w {
          output = w.output ++ bytes (kept w.to_write);
          to_write = trimmed w.to_write;
        })
  unfolding write_out
  write_out_lem w live =
      ap (λ o. o >>= λ b. ok (record w { output = w.output ++ b; to_write = trimmed w.to_write }))
        (bytes_of-bytes size fresh (kept w.to_write) (kept-AllLive w.to_write live))

  -- The state after the write.
  abbrev wrote : System size fresh → BufferPtr → BufferPtr → System size fresh
  wrote s p₁ p₂ = record s {
    writer = record {
      new_buffer1 = p₁;
      new_buffer2 = p₂;
      to_write = [];
      output = s.writer.output ++ bytes (kept s.writer.to_write);
    };
    dropped =
        (if ltb 25 (length s.writer.to_write)
          then s.dropped + (length s.writer.to_write - 2)
          else s.dropped);
  }

  wrote-Inv :
      (s : System size fresh) (p₁ p₂ : BufferPtr)
      → Inv size fresh s
      → IsSpare size fresh p₁
      → IsSpare size fresh p₂
      → Inv size fresh (wrote s p₁ p₂)
  wrote-Inv s p₁ p₂ v one two = record {
    ready = v.ready;
    writer = idle one two refl;
    accounted = elim (dec_lt 25 (length s.writer.to_write)) [
      | yes flood ↦ inl (ground arith)
      | no few ↦ elim v.accounted [
        | inl lost ↦ inl (ground arith)
        | inr all ↦ inr (
            ap (λ l. (s.writer.output ++ bytes l) ++ waiting size fresh s.logger)
              {x = kept s.writer.to_write} {y = s.writer.to_write} (ground arith)
            ∙ append_assoc s.writer.output (bytes s.writer.to_write) (waiting size fresh s.logger)
            ∙ all)
      ]
    ];
  }

  pub write-Inv :
      (s : System size fresh)
      → Inv size fresh s
      → s.writer.new_buffer1 ≡ none
      → AllLive size fresh s.writer.to_write
      → ((s.writer.new_buffer2 ≡ none) × (1 < length s.writer.to_write))
        ⊎ (IsSpare size fresh s.writer.new_buffer2 × (0 < length s.writer.to_write))
      → (t : System size fresh) × (step size fresh s turn ≡ ok t) × Inv size fresh t
  unfolding step
  write-Inv s v gone live two =
      let l = s.writer.to_write in
      let w : Writer = record s.writer {
        output = s.writer.output ++ bytes (kept l);
        to_write = trimmed l;
      } in
      let left : ((w.new_buffer2 ≡ none) × (1 < length w.to_write))
          ⊎ (IsSpare size fresh w.new_buffer2 × (0 < length w.to_write)) =
        elim two [
          | inl (gone₂, h) ↦ inl (gone₂, (trimmed_lem l 2 live (omega arith) (omega arith)).1)
          | inr (some₂, h) ↦ inr (some₂, (trimmed_lem l 1 live (omega arith) (omega arith)).1)
        ] in
      let (p₁, p₂, e, one, two') =
        recycle_lem w gone (trimmed_lem l 0 live (omega arith) (omega arith)).0 left in
      let busy : 0 < length l = elim two [ inl (g, h) ↦ omega arith | inr (g, h) ↦ h ] in
      (
        wrote s p₁ p₂,
        ground (arith, write_out_lem s.writer live, e, busy),
        wrote-Inv s p₁ p₂ v one two',
      )
