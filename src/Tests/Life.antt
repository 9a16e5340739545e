-- ===== src/Tests/Life.antt =====
-- The ends of a server: its threads after `Shutdown`, its closures, its connections and its
-- resources.
use libsiot.Server.Connections.{lookup}
use libsiot.Base.{◌≡◌, refl, true, false, none, some, [], ◌∷◌, ok, arith, List, ◌<◌, ap, ◌∙◌, ℕ}
use libsiot.Base.Int.{pos}
use libsiot.Server.{
  Env, Server, guarded, established, server, stop, set_max_idle, set_connection_callback, unlock,
  ran, callback_reset,
}
use libsiot.Server.Registry.{defer_shutdown, run_task}
use libsiot.Server.Reaper.{reap_round, is_due}
use libsiot.Server.Listener.{
  Event, handle_event, handle_events, accept_connection, accept_by, constructed, register,
}
use libsiot.Server.Rounds.{
  Setup, Turn, set_up, watch_listening, Wait, ready, wait_failed, finished, listen_round,
  listen_loop, listen_epoll,
}
use libsiot.Server.Locks.{taken, given_back}
use libsiot.Server.Life.{failed, made, frees, closes, life, life_releases}
use libsiot.Server.Threads.{defers, here, next, Reach, sets_idle, listens, by_none, by_next}
use libsiot.Server.Threads.Final.{stop_is_final}
use libsiot.Server.Threads.Shutdowns.{shutdowns}
use libsiot.Server.Threads.Deadlock.{reaper_deadlock}
use libsiot.Server.Threads.Watched.{watched, is_connection, Reach-IsWatched}
use libsiot.Server.Threads.Current.{TimelyReach, reset_leaves_callbacks}
use libsiot.Tests.Daemon.{system, two_connections, readable, on}

-- A round in which the other threads do nothing.
abbrev quiet_turn : Wait → Turn
quiet_turn w = record { meanwhile = λ s. s; answers = system; wait = w }

-- A stopped server that has been asked to defer the shutdown of a connection.
abbrev stopped_after : Server
stopped_after = (defer_shutdown 30 (stop two_connections)).1

stop_is_final_example :
    (listen_loop (quiet_turn (ready (readable 3 ∷ [])) ∷ quiet_turn (ready []) ∷ []) stopped_after
      ≡ (finished, stopped_after))
    × (reap_round system 60 stopped_after ≡ (ok false, stopped_after))
stop_is_final_example =
    stop_is_final system (quiet_turn (ready (readable 3 ∷ []))) (quiet_turn (ready []) ∷ []) 60
      two_connections stopped_after (next here (defers 30 (stop two_connections)))

-- A set-up that succeeds, a round, and an interrupted one, while which `Shutdown` is called.
abbrev set_up_well : Setup
set_up_well = record { bind = none; listen = none; epoll_create = none; epoll_ctl = none }

abbrev two_turns : List Turn
two_turns =
    quiet_turn (ready (readable 3 ∷ []))
    ∷ record { meanwhile = λ s. (stop s); answers = system; wait = wait_failed true "interrupted" }
    ∷ quiet_turn (ready [])
    ∷ []

-- The loop has ended.
comes_back : (listen_epoll set_up_well "4" two_turns (server 1 4 3)).0 ≡ finished
unfolding server stop listen_epoll listen_loop set_up watch_listening handle_events handle_event
    accept_connection accept_by constructed register
comes_back = refl

-- A host whose connections were all last used at 100, and which decorates none.
abbrev pub long_idle : Env
long_idle = record system { last_use = λ conn. 100; add_decorators = λ conn. conn }

-- A connection has been accepted, and its callback has not run.
abbrev pub one_waits : Server
one_waits =
    set_max_idle (pos 60) (listen_round long_idle (ready (readable 3 ∷ [])) (server 1 4 3)).1

pub one_waits-Reach : Reach (server 1 4 3) one_waits
one_waits-Reach =
    next (next here (listens long_idle (ready (readable 3 ∷ [])) (server 1 4 3)))
      (sets_idle (pos 60) (listen_round long_idle (ready (readable 3 ∷ [])) (server 1 4 3)).1)

forty_waits :
    (one_waits.running_ ≡ true)
    × (one_waits.tasks ≡ guarded (on established) 40 ∷ [])
    × (one_waits.connections ≡ (9, some 40) ∷ [])
    × (one_waits.max_idle ≡ pos 60)
unfolding server set_max_idle listen_round handle_events handle_event accept_connection accept_by
    constructed register
forty_waits = (refl, refl, refl, refl)

forty_due : is_due long_idle 60 (pos 60) 40 ≡ true
unfolding is_due
forty_due = refl

-- The program asks for another shutdown meanwhile.
reaper_deadlock_example :
    (shutdowns 40 one_waits.log < shutdowns 40 (reap_round long_idle 60 one_waits).1.log)
    × (given_back 40 (defer_shutdown 30 one_waits).1.log
        < taken 40 (defer_shutdown 30 one_waits).1.log)
reaper_deadlock_example =
    reaper_deadlock long_idle 60 40 9 1 4 3 (on established) [] [] [] [] one_waits-Reach
      forty_waits.0 forty_waits.1 forty_waits.2 tt
      (ap (λ n. is_due long_idle 60 n 40) forty_waits.3 ∙ forty_due) refl
      (by_next by_none (defers 30 one_waits) tt)

Reach-IsWatched_example : watched 9 one_waits.log ≡ is_connection (lookup 9 one_waits.connections)
Reach-IsWatched_example = Reach-IsWatched 9 1 4 3 (λ e. cc) one_waits-Reach

one_waits-TimelyReach : TimelyReach (server 1 4 3) one_waits
one_waits-TimelyReach =
    by_next (by_next by_none (listens long_idle (ready (readable 3 ∷ [])) (server 1 4 3)) tt)
      (sets_idle (pos 60) (listen_round long_idle (ready (readable 3 ∷ [])) (server 1 4 3)).1) tt

-- The object at 2 replaces the one at 1.
reset_leaves_callbacks_example :
    let t = set_connection_callback 2 one_waits in
    (◌≡◌ {A = ℕ} 1 one_waits.callback)
    × (t.callback ≡ 2)
    × (t.tasks ≡ guarded (on established) 40 ∷ [])
    × ((run_task system (guarded (on established) 40) (record t { tasks = [] })).1.log
        ≡ unlock 40 ∷ ran (on established) 40 ∷ callback_reset 2 ∷ one_waits.log)
reset_leaves_callbacks_example =
    reset_leaves_callbacks system 2 40 1 4 3 (on established) [] [] one_waits-TimelyReach
      forty_waits.1

abbrev hang_up : Event
hang_up = record { fd = 5; hup = true; err = false; inp = true }

abbrev address_in_use : Setup
address_in_use = record {
  bind = some "Address already in use";
  listen = none;
  epoll_create = none;
  epoll_ctl = none;
}

life_releases_example :
    (frees 8 (life (made 8) (failed "socket") (some address_in_use) "4" 5) ≡ 1)
    × (closes 3 (life (made 8) (made 3) (some address_in_use) "4" 5) ≡ 2)
    × (closes 5 (life (made 8) (made 3) (some address_in_use) "4" 5) ≡ 0)
life_releases_example =
    life_releases 8 3 5 "4" (failed "socket") (some address_in_use) (omega arith)
