-- ===== src/Thread/Start.antt =====
-- `start` and the new thread, step by step in any order (base/Thread.cpp).
use cc_server.Prelude.{ℕ, ◌≡◌, ◌≢◌, ◌∙◌, ap, refl, Bool, true, false, arith, ◌⊎◌, inl, inr, List}
use cc_server.Prelude.Outcome.{ok}
use cc_server.Prelude.Int.{ℤ, pos}
use cc_server.Prelude.Map.{update}
use cc_server.CountDownLatch
use cc_server.CountDownLatch.{
  Place, outside, asleep, woken, returned, CountDownLatch, test_count, count_down, notify_all,
  is_positive,
}
use cc_server.CountDownLatch.Waiting
use cc_server.CountDownLatch.Waiting.{Step, enters, tests_again, wakes_up, Step-Inv, count_down-Inv}
use cc_server.Thread.{
  Thread, create, set_default_name, begin_start, end_start, publish_tid, release_owner,
}

-- Where the owner is in `start`, and the new thread in `runInThread`.
pub data Owner : Type 0 where
  fresh waiting finished : Owner

pub data Child : Type 0 where
  unborn born known released : Child

pub record Starting : Type 0 where
  pub thread : Thread
  pub owner : Owner
  pub child : Child

-- The owner waits at the latch as its thread 0.
abbrev pub place : Starting → Place
place s = s.thread.latch.places 0

abbrev pub with_latch : Starting → CountDownLatch → Starting
with_latch s l = record s { thread = record s.thread { latch = l } }

-- `id` is what gettid(2) answers in the new thread.
module _ (id : ℕ) where
  pub data Next (s t : Starting) : Type 0 where
    creates :
        (thread : Thread)
        → s.owner ≡ fresh
        → begin_start true s.thread ≡ ok thread
        → t ≡ record { thread = thread; owner = waiting; child = born }
        → Next s t
    waits :
        (l : CountDownLatch)
        → s.owner ≡ waiting
        → (place s ≡ outside) ⊎ (place s ≡ woken)
        → l ≡ test_count 0 s.thread.latch
        → t ≡ with_latch s l
        → Next s t
    stirs :
        (l : CountDownLatch)
        → s.owner ≡ waiting
        → place s ≡ asleep
        → l ≡ record s.thread.latch { places = update s.thread.latch.places 0 woken }
        → t ≡ with_latch s l
        → Next s t
    returns :
        (thread : Thread)
        → s.owner ≡ waiting
        → place s ≡ returned
        → end_start s.thread ≡ ok thread
        → t ≡ record s { thread = thread; owner = finished }
        → Next s t
    publishes :
        s.child ≡ born → t ≡ record s { thread = publish_tid id s.thread; child = known } → Next s t
    releases :
        s.child ≡ known
        → t ≡ record s { thread = release_owner s.thread; child = released }
        → Next s t

  pub data Steps : Starting → Starting → Type 0 where
    stop : {s : Starting} → Steps s s
    next : {s t u : Starting} → Next s t → Steps t u → Steps s u

  -- The states that a new thread object can come to in `start`.
  pub data Reach : Starting → Type 0 where
    here :
        (print : ℕ → List ℕ) (num_created : ℕ) (name : List ℕ)
        → Reach
            (record { thread = (create print num_created name).0; owner = fresh; child = unborn })
    step : {s t : Starting} → Reach s → Next s t → Reach t

  abbrev pub expected_count : Child → ℤ
  expected_count unborn = pos 1
  expected_count born = pos 1
  expected_count known = pos 1
  expected_count released = pos 0

  abbrev pub is_known : Child → Bool
  is_known unborn = false
  is_known born = false
  is_known known = true
  is_known released = true

  -- What holds while `start` goes on.
  pub record Inv (s : Starting) : Type 0 where
    pub latch : Waiting.Inv s.thread.latch
    pub count : s.thread.latch.count ≡ expected_count s.child
    pub named : is_known s.child ≡ true → s.thread.tid ≡ id
    pub early : s.owner ≡ fresh → s.child ≡ unborn
    pub late : s.child ≡ unborn → s.owner ≡ fresh
    pub begun : s.owner ≢ fresh → s.thread.started ≡ true

  latch-Inv :
      (s : Starting) (l : CountDownLatch)
      → Step s.thread.latch l
      → l.count ≡ s.thread.latch.count
      → Inv s
      → Inv (with_latch s l)
  latch-Inv s l goes same v = record {
    latch = Step-Inv s.thread.latch l goes v.latch;
    count = same ∙ v.count;
    named = v.named;
    early = v.early;
    late = v.late;
    begun = v.begun;
  }

  pub Next-Inv : (s t : Starting) → Next s t → Inv s → Inv t
  unfolding test_count begin_start end_start publish_tid release_owner count_down notify_all
  Next-Inv s t (creates thread h e q) v =
      let begun : thread ≡ record s.thread { started = true } = ground (arith, e) in
      rw (q, begun)
        record {
          latch = v.latch;
          count = v.count ∙ ap expected_count (v.early h);
          named = λ k. cc;
          early = λ o. cc;
          late = λ c. cc;
          begun = λ o. refl;
        }
  Next-Inv s t (waits l h p q e) v =
      let same : l.count ≡ s.thread.latch.count = ap (λ x. x.count) q in
      rw e (elim p [
        | inl out ↦ latch-Inv s l (enters 0 out q) same v
        | inr woke ↦ latch-Inv s l (tests_again 0 woke q) same v
      ])
  Next-Inv s t (stirs l h p q e) v = rw e (latch-Inv s l (wakes_up 0 p q) (ap (λ x. x.count) q) v)
  Next-Inv s t (returns thread h p q e) v =
      let same : thread ≡ s.thread = ground (arith, q) in
      rw (e, same)
        record {
          latch = v.latch;
          count = v.count;
          named = v.named;
          early = λ o. cc;
          late = λ c. absurd (cc (v.late c, h));
          begun = λ o. v.begun (λ f. cc);
        }
  Next-Inv s t (publishes h e) v = rw e record {
    latch = v.latch;
    count = v.count ∙ ap expected_count h;
    named = λ k. refl;
    early = λ o. absurd (cc (v.early o, h));
    late = λ c. cc;
    begun = v.begun;
  }
  Next-Inv s t (releases h e) v = rw e record {
    latch = count_down-Inv s.thread.latch v.latch;
    count = ground (arith, v.count, h);
    named = λ k. v.named (ap is_known h);
    early = λ o. absurd (cc (v.early o, h));
    late = λ c. cc;
    begun = v.begun;
  }

  new_latch :
      (print : ℕ → List ℕ) (num_created : ℕ) (name : List ℕ)
      → (create print num_created name).0.latch ≡ CountDownLatch.create (pos 1)
  unfolding create set_default_name
  new_latch print num_created name = ground arith

  pub start-Inv : (s : Starting) → Reach s → Inv s
  unfolding CountDownLatch.create
  start-Inv s (here print num_created name) = record {
    latch = rw (new_latch print num_created name) record { sleeps = λ t h. cc; passed = λ t h. cc };
    count = ap (λ l. l.count) (new_latch print num_created name);
    named = λ k. cc;
    early = λ o. refl;
    late = λ c. refl;
    begun = λ o. absurd (o refl);
  }
  start-Inv s (step {s = r} reach goes) = Next-Inv r s goes (start-Inv r reach)
