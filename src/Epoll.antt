-- ===== src/Epoll.antt =====
-- Epoll.h and Epoll.cpp: the poller. The kernel's side is an interface, whose laws are what
-- epoll_ctl(2) documents.
pub mod Sync
pub mod Poll
use cc_server.Prelude.{
  suc, ℕ, ◌*◌, Bool, true, false, not, ◌≡◌, ◌==◌, Option, none, some, List, [], ◌∷◌, ◌++◌,
  if◌then◌else◌, length, map,
}
use cc_server.Prelude.Outcome.{Outcome, ok, assert, ◌>>=◌, ◌>>◌}
use cc_server.Prelude.Map.{update}
use cc_server.Channel.{
  Events, Channel, Change, change_events, is_zero, is_none_event, set_revents, create,
}

pub data Ctl : Type 0 where
  add modify delete : Ctl

-- An interest list: `registered` is what it holds for a descriptor. A call that the manual allows
-- succeeds (there is memory, and the descriptor can be polled).
pub record EpollKernel : Type 1 where
  pub Kernel : Type 0
  pub registered : Kernel → ℕ → Option Events
  pub epoll_ctl : Kernel → Ctl → ℕ → Events → Kernel × Bool
  pub add_ok :
      (k : Kernel) (fd : ℕ) (e : Events) → registered k fd ≡ none → (epoll_ctl k add fd e).1 ≡ true
  pub add_registers :
      (k : Kernel) (fd : ℕ) (e : Events)
      → registered k fd ≡ none
      → (j : ℕ) → registered (epoll_ctl k add fd e).0 j ≡ update (registered k) fd (some e) j
  pub modify_ok :
      (k : Kernel) (fd : ℕ) (e old : Events)
      → registered k fd ≡ some old
      → (epoll_ctl k modify fd e).1 ≡ true
  pub modify_registers :
      (k : Kernel) (fd : ℕ) (e old : Events)
      → registered k fd ≡ some old
      → (j : ℕ) → registered (epoll_ctl k modify fd e).0 j ≡ update (registered k) fd (some e) j
  pub delete_ok :
      (k : Kernel) (fd : ℕ) (e old : Events)
      → registered k fd ≡ some old
      → (epoll_ctl k delete fd e).1 ≡ true
  pub delete_registers :
      (k : Kernel) (fd : ℕ) (e old : Events)
      → registered k fd ≡ some old
      → (j : ℕ) → registered (epoll_ctl k delete fd e).0 j ≡ update (registered k) fd none j

module _ (epoll : EpollKernel) where
  open epoll use {Kernel, epoll_ctl}

  -- The channels by descriptor, the size of `events_`, and how often an error was logged.
  pub record Poller : Type 0 where
    pub kernel : Kernel
    pub channels : ℕ → Channel
    pub max_events : ℕ
    pub errors : ℕ

  -- `updateChannel(int op, Channel*)`: a failure is logged and nothing else.
  unfoldable pub control : Poller → Ctl → Channel → Poller
  control p op c =
      let (k, done) = epoll_ctl p.kernel op c.fd c.events in
      record p { kernel = k; errors = (if done then p.errors else suc p.errors) }

  abbrev pub store : Poller → Channel → Poller
  store p c = record p { channels = update p.channels c.fd c }

  -- `updateChannel(Channel*)`
  unfoldable pub update_channel : Poller → Channel → Outcome Poller
  unfolding control is_none_event
  update_channel p c =
      if not c.polling
      then (do
        assert (not (is_none_event c))
        let c' = record c { polling = true }
        ok (store (control p add c') c'))
      else if not (is_none_event c)
      then ok (store (control p modify c) c)
      else let c' = record c { polling = false } in ok (store (control p delete c') c')

  -- `enableRead()` and its like: `events_` changes, and then `update()` is called.
  unfoldable pub change : Poller → ℕ → Change → Outcome Poller
  unfolding change_events
  change p fd ch =
      let c = p.channels fd in update_channel p (record c { events = change_events ch c.events })

  -- `Channel::remove()`, by way of `EventLoop::removeChannel`.
  unfoldable pub remove : Poller → ℕ → Outcome Poller
  remove p fd = do assert (p.channels fd).polling; change p fd Change.disable_all
