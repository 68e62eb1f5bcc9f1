-- ===== src/Channel/Dispatch.antt =====
-- Channel.cpp: which callbacks the events of a channel call, and in which order.
use cc_server.Prelude.{Bool, true, false, ◌&&◌, ◌||◌, not, Option, none, some, if◌then◌else◌}
use cc_server.Prelude.Outcome.{Outcome, ok, ◌>>=◌}
use cc_server.Channel.{Events, Channel}

-- The four callbacks act on a state, in which the channel itself may stand.
pub record Callbacks {ℓ} (S : Type ℓ) : Type ℓ where
  pub close_callback : Option (S → Outcome S)
  pub error_callback : Option (S → Outcome S)
  pub read_callback : Option (S → Outcome S)
  pub write_callback : Option (S → Outcome S)

module _ {ℓ} {S : Type ℓ} where
  -- `if (test) { if (callback) callback(); }`
  abbrev pub call_if : Bool → Option (S → Outcome S) → S → Outcome S
  call_if false f s = ok s
  call_if true none s = ok s
  call_if true (some f) s = f s

  -- Only the poller writes `revents_`, and it does not run meanwhile.
  unfoldable pub handle_event_with_guard : Callbacks S → Events → S → Outcome S
  handle_event_with_guard cb revents s = do
    s₁ ← call_if (revents.epoll_hup && not revents.epoll_in) cb.close_callback s
    s₂ ← call_if revents.epoll_err cb.error_callback s₁
    s₃ ← call_if (revents.epoll_in || revents.epoll_pri || revents.epoll_rdhup) cb.read_callback s₂
    call_if revents.epoll_out cb.write_callback s₃

  -- A tied channel whose object is gone calls nothing.
  unfoldable pub handle_event : Callbacks S → Bool → Channel → S → Outcome S
  unfolding handle_event_with_guard
  handle_event cb alive c s =
      if c.tied
      then if alive then handle_event_with_guard cb c.revents s else ok s
      else handle_event_with_guard cb c.revents s
