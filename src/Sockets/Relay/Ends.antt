-- ===== src/Sockets/Relay/Ends.antt =====
-- A socket is told of its end once.
use zeolite.Prelude.{ℕ, ◌≤◌, ◌≡◌, List, some, nat_eq}
use zeolite.Prelude.Maps.{get}
use zeolite.Sockets.Relay.{Conn, no_conns, Event, run}
use zeolite.Sockets.Relay.Sound.{close_count, no_conns-IsSound}
use zeolite.Sockets.Relay.Steps.{run-IsSound}

-- Whatever the pages, the relay and the timers do, no socket is told of its close twice, and none of
-- those in the table has been told.
pub close_count-run :
    (es : List Event) (rid j : ℕ) (c : Conn)
    → get rid (run es no_conns).conns ≡ some c
    → (close_count rid (run es no_conns).told ≡ 0) × (close_count j (run es no_conns).told ≤ 1)
close_count-run es rid j c found =
    let v = run-IsSound es no_conns no_conns-IsSound in (v.quiet rid c found, v.once j)
