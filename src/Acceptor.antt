-- ===== src/Acceptor.antt =====
-- Acceptor.h and Accept.cpp: a listening socket that hands each connection to a callback. What
-- accept4(2) answers is an argument; log lines are left out.
use cc_server.Prelude.{
  ℕ, ◌≡◌, ap, ◌∙◌, not, Bool, List, [], ◌∷◌, ◌++◌, Option, arith, if◌then◌else◌, inl, true, false,
}
use cc_server.Prelude.Outcome.{Outcome, ok, aborts, ◌>>=◌}
use cc_server.Channel.{enable_read, disable_all, change_events, is_zero}
use cc_server.Epoll.{EpollKernel, Poller, change, remove}
use cc_server.Epoll.Sync.{InSync, change_ok}

module _ (epoll : EpollKernel) where
  -- `handed` are the descriptors that the callback was given and `closed` those closed at once, where
  -- `none` is -1.
  pub record Acceptor : Type 0 where
    pub accept_fd : ℕ
    pub poller : Poller epoll
    pub has_callback : Bool
    pub handed : List (Option ℕ)
    pub closed : List (Option ℕ)

  unfoldable pub listen : Acceptor → Outcome Acceptor
  listen a = do p ← change epoll a.poller a.accept_fd enable_read; ok (record a { poller = p })

  -- An error of accept4(2) is logged, and the call goes on.
  unfoldable pub accept_one : Option ℕ → Acceptor → Acceptor
  accept_one sockfd a =
      if a.has_callback
      then record a { handed = a.handed ++ (sockfd ∷ []) }
      else record a { closed = a.closed ++ (sockfd ∷ []) }

  -- The destructor, up to the close.
  unfoldable pub destroy : Acceptor → Outcome Acceptor
  destroy a = do
    p ← change epoll a.poller a.accept_fd disable_all
    p' ← remove epoll p a.accept_fd
    ok (record a { poller = p' })

  -- The destructor of an acceptor that listens, over a poller in sync with the kernel, fails the
  -- assertion of `Channel::remove`.
  pub destroy-aborts :
      (a : Acceptor)
      → InSync epoll a.poller
      → (a.poller.channels a.accept_fd).polling ≡ true
      → destroy a ≡ aborts
  unfolding destroy remove change_events is_zero
  destroy-aborts a s listening =
      let (p, e, changed) = change_ok epoll a.poller a.accept_fd disable_all s (inl listening) in
      let gone : (p.channels a.accept_fd).polling ≡ false =
        changed.in_sync.polled a.accept_fd ∙ ap (λ x. not (is_zero x)) changed.here in
      ground (arith, e, gone)
