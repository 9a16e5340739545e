-- ===== src/Tests/Reaper.antt =====
-- The thread of the reaper over two wakings; another thread stops the server before the third.
use libsiot.Base.{◌≡◌, ◌↔◌, refl, false, List, [], ◌∷◌, ok}
use libsiot.Server.{stop}
use libsiot.Server.Reaper.{
  Wake, to_u64, is_due, reap_from, reap_round, reap_loop, reap_connections_epoll,
}
use libsiot.Server.Wakes.{ComesBack, AllWakesLive, waits, reaper_only_waits}
use libsiot.Tests.Daemon.{system, two_connections}

abbrev wakings : List Wake
wakings =
    record { meanwhile = (λ s. record s { connections = [] }); answers = system }
    ∷ record { meanwhile = (λ s. s); answers = system }
    ∷ record { meanwhile = stop; answers = system }
    ∷ []

-- It comes back where another thread has emptied the table, and the server is stopped.
comes_back :
    reap_connections_epoll wakings two_connections
    ≡ (ok false, record two_connections { connections = []; running_ = false })
unfolding reap_connections_epoll reap_loop reap_round reap_from is_due to_u64 stop
comes_back = refl

reaper_only_waits_example :
    (ComesBack (reap_connections_epoll wakings two_connections)
      ↔ AllWakesLive (to_u64 two_connections.max_idle) wakings two_connections)
    × ((reap_connections_epoll wakings two_connections ≡ waits wakings two_connections)
        ↔ AllWakesLive (to_u64 two_connections.max_idle) wakings two_connections)
reaper_only_waits_example = reaper_only_waits wakings two_connections
