-- ===== src/Tests/Polling.antt =====
-- The poller at concrete inputs.
use cc_server.Prelude.{ℕ, ◌≡◌, refl, ◌⊎◌, List, [], ◌∷◌, true, false, none}
use cc_server.Prelude.Outcome.{ok, aborts}
use cc_server.Channel.{Events, Change, enable_read, enable_write, disable_write, no_events, is_zero}
use cc_server.Epoll.{Poller}
use cc_server.Epoll.Sync.{InSync, changes, wants, changes_refines}
use cc_server.Interest
use cc_server.Tests.Kernel.{list_kernel}

-- A poller with unused channels.
abbrev quiet : Poller list_kernel
quiet = record {
  kernel = λ fd. none;
  channels = λ fd. record {
    fd = fd;
    events = no_events;
    revents = no_events;
    polling = false;
    tied = false;
    handling_events = false;
  };
  max_events = 2;
  errors = 0;
}

quiet-InSync : InSync list_kernel quiet
unfolding is_zero
quiet-InSync = record {
  own_fd = λ j. refl;
  listed = λ j. refl;
  polled = λ j. refl;
  no_errors = refl;
}

abbrev edits : List (ℕ × Change)
edits = (3, enable_read) ∷ (4, enable_write) ∷ (4, disable_write) ∷ (3, enable_write) ∷ []

changes_refines_example :
    ((q : Poller list_kernel) × (changes list_kernel quiet edits ≡ ok q)
      × InSync list_kernel q
      × (Interest.changes (wants list_kernel quiet) edits ≡ ok (wants list_kernel q)))
    ⊎ ((changes list_kernel quiet edits ≡ aborts)
        × (Interest.changes (wants list_kernel quiet) edits ≡ aborts))
changes_refines_example = changes_refines list_kernel quiet edits quiet-InSync

abbrev input_ready : Events
input_ready = record no_events { epoll_in = true }
