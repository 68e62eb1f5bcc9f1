-- ===== src/Thread/Returns.antt =====
-- `start` returns, with the number of the new thread (base/Thread.cpp).
use cc_server.Prelude.{ℕ, ◌≡◌, ◌<◌, ap, refl, true, false, arith, ◌⊎◌, inl, inr}
use cc_server.Prelude.Outcome.{ok}
use cc_server.CountDownLatch.{Place, outside, asleep, woken, returned, test_count, is_positive}
use cc_server.Thread.{end_start, publish_tid, release_owner}
use cc_server.Thread.Start.{
  waiting, finished, Child, unborn, born, known, released, Starting, place, with_latch, Next, waits,
  returns, publishes, releases, Steps, stop, next, Reach, Inv, is_known, Next-Inv, start-Inv,
}

-- `id` is what gettid(2) answers in the new thread.
module _ (id : ℕ) where
  -- What `start` comes to from here on.
  abbrev Finishes : Starting → Type 0
  Finishes s =
      (t : Starting) × Steps id s t
      × (t.owner ≡ finished)
      × (t.thread.tid ≡ id)
      × (t.thread.started ≡ true)

  goes_on : (s t : Starting) → Next id s t → Finishes t → Finishes s
  goes_on s t one (u, rest, done, named, started) = (u, next one rest, done, named, started)

  end_ok :
      (s : Starting)
      → 0 < id
      → Inv id s
      → is_known id s.child ≡ true
      → end_start s.thread ≡ ok s.thread
  unfolding end_start
  end_ok s some_id v k = ground (arith, some_id, v.named k)

  -- The count is 0 and the owner has seen it.
  returned-Finishes :
      (s : Starting)
      → 0 < id
      → Inv id s
      → s.owner ≡ waiting
      → s.child ≡ released
      → place s ≡ returned
      → Finishes s
  returned-Finishes s some_id v w r p =
      let k : is_known id s.child ≡ true = ap (is_known id) r in
      goes_on s (record s { owner = finished }) (returns s.thread w p (end_ok s some_id v k) refl)
        (record s { owner = finished }, stop, refl, v.named k, v.begun (λ f. cc))

  tests_Finishes :
      (s : Starting)
      → 0 < id
      → Inv id s
      → s.owner ≡ waiting
      → s.child ≡ released
      → (place s ≡ outside) ⊎ (place s ≡ woken)
      → Finishes s
  unfolding test_count
  tests_Finishes s some_id v w r p =
      let l = test_count 0 s.thread.latch in
      let one : Next id s (with_latch s l) = waits l w p refl refl in
      let low : is_positive s.thread.latch.count ≡ false = ground (arith, v.count, r) in
      goes_on s (with_latch s l) one (
        returned-Finishes (with_latch s l) some_id (Next-Inv id s (with_latch s l) one v) w r
          (ground (arith, low)))

  released-Finishes :
      (s : Starting) (p : Place)
      → 0 < id
      → Inv id s
      → s.owner ≡ waiting
      → s.child ≡ released
      → place s ≡ p
      → Finishes s
  released-Finishes s outside some_id v w r p = tests_Finishes s some_id v w r (inl p)
  released-Finishes s woken some_id v w r p = tests_Finishes s some_id v w r (inr p)
  released-Finishes s returned some_id v w r p = returned-Finishes s some_id v w r p
  released-Finishes s asleep some_id v w r p =
      absurd (ground (arith, v.count, r, v.latch.sleeps 0 p))

  known-Finishes :
      (s : Starting) → 0 < id → Inv id s → s.owner ≡ waiting → s.child ≡ known → Finishes s
  known-Finishes s some_id v w k =
      let t : Starting = record s { thread = release_owner s.thread; child = released } in
      goes_on s t (releases k refl)
        (released-Finishes t (place t) some_id (Next-Inv id s t (releases k refl) v) w refl refl)

  waiting-Finishes :
      (s : Starting) (c : Child) → 0 < id → Inv id s → s.owner ≡ waiting → s.child ≡ c → Finishes s
  waiting-Finishes s unborn some_id v w c = absurd (cc (v.late c, w))
  waiting-Finishes s born some_id v w c =
      let t : Starting = record s { thread = publish_tid id s.thread; child = known } in
      goes_on s t (publishes c refl)
        (known-Finishes t some_id (Next-Inv id s t (publishes c refl) v) w refl)
  waiting-Finishes s known some_id v w c = known-Finishes s some_id v w c
  waiting-Finishes s released some_id v w c = released-Finishes s (place s) some_id v w c refl

  -- A wait that is over means that the new thread told its number.
  passed_ok :
      (s : Starting) (c : Child)
      → 0 < id
      → Inv id s
      → s.child ≡ c
      → place s ≡ returned
      → end_start s.thread ≡ ok s.thread
  passed_ok s released some_id v c p = end_ok s some_id v (ap (is_known id) c)
  passed_ok s known some_id v c p = end_ok s some_id v (ap (is_known id) c)
  passed_ok s born some_id v c p = absurd (ground (arith, v.count, c, v.latch.passed 0 p))
  passed_ok s unborn some_id v c p = absurd (ground (arith, v.count, c, v.latch.passed 0 p))

  -- Once pthread_create(3) succeeded, whatever the owner and the new thread did since, in any order
  -- and with wake-ups that nobody asked for: if the wait is over, the assertion of `start` on the
  -- thread's number holds; and the two go on to where `start` has returned and the owner knows the
  -- number that gettid(2) answered, provided that is not 0.
  pub start_returns :
      (s : Starting)
      → 0 < id
      → Reach id s
      → s.owner ≡ waiting
      → (place s ≡ returned → end_start s.thread ≡ ok s.thread)
        × ((t : Starting) × Steps id s t
            × (t.owner ≡ finished)
            × (t.thread.tid ≡ id)
            × (t.thread.started ≡ true))
  start_returns s some_id reach w =
      let v = start-Inv id s reach in
      (λ p. passed_ok s s.child some_id v refl p, waiting-Finishes s s.child some_id v w refl)
