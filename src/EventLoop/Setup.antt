-- ===== src/EventLoop/Setup.antt =====
-- The constructor and the destructor of an event loop, with its poller, its timer queue and the
-- thread's pointer to it (EventLoop.cpp, Epoll.cpp, Channel.cpp, TimerQueue.cpp).
use cc_server.Prelude.{
  ℕ, ◌≡◌, ◌≢◌, refl, ap, sym, ◌∙◌, inl, inr, Bool, true, false, not, List, [], ◌∷◌, Option, none,
  some, arith, if◌then◌else◌,
}
use cc_server.Prelude.Outcome.{Outcome, ok, assert, ◌>>=◌, ◌>>◌}
use cc_server.Channel.{Channel, Events, no_events, enable_read, disable_all, is_zero, change_events}
use cc_server.Channel
use cc_server.Epoll.{EpollKernel, Poller, change}
use cc_server.Epoll.Sync.{InSync, wanted, change_ok}
use cc_server.TimerQueue.{TimerQueue, Timer}
use cc_server.TimerQueue.Life.{Life}
use cc_server.TimerQueue.Destroy.{make, unmake, no_timers, no_timers-Life, unmake_lem}

abbrev pub reading : Events
reading = record no_events { epoll_in = true; epoll_pri = true }

module _ (epoll : EpollKernel) where
  -- `Epoll::Epoll`, where epoll_create1(2) answers `kernel`, and channels as `Channel::Channel` makes
  -- them.
  unfoldable pub open_poller : epoll.Kernel → Poller epoll
  unfolding Channel.create
  open_poller kernel = record {
    kernel = kernel;
    channels = Channel.create;
    max_events = 128;
    errors = 0;
  }

  -- The loop as far as it is set up once: `t_loopInThisThread` is of its thread.
  pub record LoopObject : Type 0 where
    pub poller : Poller epoll
    pub timers : TimerQueue
    pub wakeup_fd : ℕ
    pub timer_fd : ℕ
    pub epoll_fd : ℕ
    pub looping : Bool

  -- `t_loopInThisThread` after the constructor of the loop at `this`.
  unfoldable pub claim_thread : ℕ → Option ℕ → Option ℕ
  claim_thread this none = some this
  claim_thread this (some other) = some other

  -- The constructor, where epoll_create1(2) answers `epoll_fd`, a new `kernel`, and eventfd(2) and
  -- timerfd_create(2) answer `wakeup_fd` and `timer_fd`.
  unfoldable pub construct :
      ℕ → ℕ → epoll.Kernel → ℕ → ℕ → Option ℕ → Outcome (LoopObject × Option ℕ)
  unfolding open_poller make claim_thread
  construct this epoll_fd kernel wakeup_fd timer_fd current = do
    (q, p) ← make epoll timer_fd (open_poller kernel)
    p' ← change epoll p wakeup_fd enable_read
    ok (
      record {
        poller = p';
        timers = q;
        wakeup_fd = wakeup_fd;
        timer_fd = timer_fd;
        epoll_fd = epoll_fd;
        looping = false;
      },
      claim_thread this current,
    )

  -- What the destructor leaves: the poller as the first close(2) finds it, the timers left,
  -- `t_loopInThisThread`, and the descriptors closed, in order.
  pub record Destructed : Type 0 where
    pub poller : Poller epoll
    pub heap : ℕ → Option Timer
    pub thread_loop : Option ℕ
    pub closed : List ℕ

  -- The destructor, and then those of the timer queue and the poller.
  unfoldable pub destruct : LoopObject → Outcome Destructed
  unfolding unmake
  destruct l = do
    assert (not l.looping)
    p ← change epoll l.poller l.wakeup_fd disable_all
    (heap, timer_fd) ← unmake l.timer_fd l.timers
    ok (record {
      poller = p;
      heap = heap;
      thread_loop = none;
      closed = l.wakeup_fd ∷ timer_fd ∷ l.epoll_fd ∷ [];
    })

  -- A loop between its constructor and its destructor.
  pub record IsSetUp (l : LoopObject) : Type 0 where
    pub in_sync : InSync epoll l.poller
    pub timers : Life l.timers []
    pub wakeup : (l.poller.channels l.wakeup_fd).events ≡ reading
    pub timer : (l.poller.channels l.timer_fd).events ≡ reading
    pub stopped : l.looping ≡ false

  open_poller-InSync :
      (kernel : epoll.Kernel)
      → ((fd : ℕ) → epoll.registered kernel fd ≡ none)
      → InSync epoll (open_poller kernel)
  unfolding open_poller is_zero
  open_poller-InSync kernel fresh = record {
    own_fd = λ j. refl;
    listed = λ j. fresh j;
    polled = λ j. refl;
    no_errors = refl;
  }

  -- The constructor registers the eventfd and the timerfd for input, and nothing else.
  pub construct_lem :
      (this epoll_fd : ℕ) (kernel : epoll.Kernel) (wakeup_fd timer_fd : ℕ) (current : Option ℕ)
      → ((fd : ℕ) → epoll.registered kernel fd ≡ none)
      → wakeup_fd ≢ timer_fd
      → (l : LoopObject) × (construct this epoll_fd kernel wakeup_fd timer_fd current
          ≡ ok (l, claim_thread this current))
        × IsSetUp l
        × ((fd : ℕ) → wakeup_fd ≢ fd → timer_fd ≢ fd → epoll.registered l.poller.kernel fd ≡ none)
        × (l.wakeup_fd ≡ wakeup_fd)
        × (l.timer_fd ≡ timer_fd)
  unfolding construct make open_poller change_events is_zero Channel.create
  construct_lem this epoll_fd kernel wakeup_fd timer_fd current fresh apart =
      let p₀ = open_poller kernel in
      let s₀ = open_poller-InSync kernel fresh in
      let (p₁, e₁, c₁) = change_ok epoll p₀ timer_fd enable_read s₀ (inr refl) in
      let (p₂, e₂, c₂) = change_ok epoll p₁ wakeup_fd enable_read c₁.in_sync (inr (ground arith)) in
      let l : LoopObject = record {
        poller = p₂;
        timers = no_timers;
        wakeup_fd = wakeup_fd;
        timer_fd = timer_fd;
        epoll_fd = epoll_fd;
        looping = false;
      } in
      (
        l,
        ground (arith, e₁, e₂),
        record {
          in_sync = c₂.in_sync;
          timers = no_timers-Life;
          wakeup =
              c₂.here
              ∙ ap (λ c. change_events enable_read c.events)
                  (c₁.elsewhere wakeup_fd (λ e. apart (sym e)));
          timer = ap (λ c. c.events) (c₂.elsewhere timer_fd apart) ∙ c₁.here;
          stopped = refl;
        },
        λ fd w t. c₂.in_sync.listed fd ∙ ap (wanted epoll) (c₂.elsewhere fd w ∙ c₁.elsewhere fd t),
        refl,
        refl,
      )

  -- The destructor of a loop that is not looping passes its assertion. Before it closes a descriptor,
  -- the kernel polls the eventfd no more, and the others as before; then it closes the eventfd, the
  -- timerfd and the poller's own descriptor, in that order and each once. No timer is left, each was
  -- deleted once, and the thread has no loop.
  pub destruct_lem :
      (l : LoopObject)
      → IsSetUp l
      → (d : Destructed) × (destruct l ≡ ok d)
        × InSync epoll d.poller
        × (epoll.registered d.poller.kernel l.wakeup_fd ≡ none)
        × ((fd : ℕ)
            → l.wakeup_fd ≢ fd
            → epoll.registered d.poller.kernel fd ≡ epoll.registered l.poller.kernel fd)
        × (d.closed ≡ l.wakeup_fd ∷ l.timer_fd ∷ l.epoll_fd ∷ [])
        × ((pointer : ℕ) → d.heap pointer ≡ none)
        × (d.thread_loop ≡ none)
  unfolding destruct is_zero change_events
  destruct_lem l v =
      let polled : (l.poller.channels l.wakeup_fd).polling ≡ true =
        v.in_sync.polled l.wakeup_fd ∙ ap (λ e. not (is_zero e)) v.wakeup in
      let (p, e, c) = change_ok epoll l.poller l.wakeup_fd disable_all v.in_sync (inl polled) in
      let (heap, gone, none_left) = unmake_lem l.timer_fd l.timers v.timers in
      (
        record {
          poller = p;
          heap = heap;
          thread_loop = none;
          closed = l.wakeup_fd ∷ l.timer_fd ∷ l.epoll_fd ∷ [];
        },
        ground (arith, v.stopped, e, gone),
        c.in_sync,
        c.in_sync.listed l.wakeup_fd
            ∙ ap (λ b. if b then some (p.channels l.wakeup_fd).events else none)
                (c.in_sync.polled l.wakeup_fd ∙ ap (λ e. not (is_zero e)) c.here),
        λ fd other.
            c.in_sync.listed fd
            ∙ ap (wanted epoll) (c.elsewhere fd other)
            ∙ sym (v.in_sync.listed fd),
        refl,
        none_left,
        refl,
      )
