-- ===== src/Interest.antt =====
-- What Epoll.cpp promises its channels: to wait for the events that each of them asked for last.
use cc_server.Prelude.{ℕ, ◌&&◌, List, [], ◌∷◌, if◌then◌else◌}
use cc_server.Prelude.Outcome.{Outcome, ok, aborts, ◌>>=◌}
use cc_server.Prelude.Map.{update}
use cc_server.Channel.{Events, Change, change_events, is_zero}

-- The events asked for, by descriptor.
abbrev pub Interest : Type 0
Interest = ℕ → Events

-- To ask for nothing when nothing was asked for is an error of the caller.
unfoldable pub change : Interest → ℕ → Change → Outcome Interest
change w fd ch =
    if is_zero (w fd) && is_zero (change_events ch (w fd))
    then aborts
    else ok (update w fd (change_events ch (w fd)))

unfoldable pub changes : Interest → List (ℕ × Change) → Outcome Interest
changes w [] = ok w
changes w ((fd, ch) ∷ rest) = do w' ← change w fd ch; changes w' rest
