-- ===== src/Channel.antt =====
-- Channel.h and Channel.cpp: a file descriptor with the events that it waits for, and the callbacks
-- for those that happen. The part of the poller that concerns one channel is in Epoll.antt.
pub mod Dispatch
use cc_server.Prelude.{Bool, true, false, ◌&&◌, ◌||◌, not, ℕ}

-- The bits of `events_` and `revents_` that the code tests or sets.
pub record Events : Type 0 where
  pub epoll_in : Bool
  pub epoll_pri : Bool
  pub epoll_out : Bool
  pub epoll_err : Bool
  pub epoll_hup : Bool
  pub epoll_rdhup : Bool

abbrev pub no_events : Events
no_events = record {
  epoll_in = false;
  epoll_pri = false;
  epoll_out = false;
  epoll_err = false;
  epoll_hup = false;
  epoll_rdhup = false;
}

-- The callbacks are arguments of `Dispatch.handle_event`, and `tie_` is there whether its object is
-- still alive.
pub record Channel : Type 0 where
  pub fd : ℕ
  pub events : Events
  pub revents : Events
  pub polling : Bool
  pub tied : Bool
  pub handling_events : Bool

unfoldable pub create : ℕ → Channel
create fd = record {
  fd = fd;
  events = no_events;
  revents = no_events;
  polling = false;
  tied = false;
  handling_events = false;
}

-- `events == 0`
unfoldable pub is_zero : Events → Bool
is_zero e =
    not (e.epoll_in || e.epoll_pri || e.epoll_out || e.epoll_err || e.epoll_hup || e.epoll_rdhup)

unfoldable pub is_none_event : Channel → Bool
unfolding is_zero
is_none_event c = is_zero c.events

unfoldable pub is_reading : Channel → Bool
is_reading c = c.events.epoll_in

unfoldable pub is_writing : Channel → Bool
is_writing c = c.events.epoll_out

unfoldable pub set_revents : Channel → Events → Channel
set_revents c e = record c { revents = e }

unfoldable pub tie : Channel → Channel
tie c = record c { tied = true }

-- The five changes of `events_`, each followed by `update()`.
pub data Change : Type 0 where
  enable_read enable_write disable_read disable_write disable_all : Change

unfoldable pub change_events : Change → Events → Events
change_events enable_read e = record e { epoll_in = true; epoll_pri = true }
change_events enable_write e = record e { epoll_out = true }
change_events disable_read e = record e { epoll_in = false }
change_events disable_write e = record e { epoll_out = false }
change_events disable_all e = no_events
