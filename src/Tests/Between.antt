-- ===== src/Tests/Between.antt =====
-- Between the two halves of an event, a closure of the pool shuts the connection down.
use libsiot.Base.{◌≡◌, ◌⊎◌, refl, true, none, some, [], ◌∷◌, ok}
use libsiot.Server.{
  Server, server, guarded, shut, current, established, error, read_lock, set_max_idle,
}
use libsiot.Server.Connections.{lookup}
use libsiot.Server.Registry.{
  defer_shutdown, run_task, shutdown_connection, dequeue_connection, dequeue_from, remove_entry,
}
use libsiot.Server.Listener.{
  at_key, at_pointer, register, handle_events, handle_event, accept_connection, accept_by,
  constructed,
}
use libsiot.Server.Rounds.{listen_round}
use libsiot.Server.Threads.{defers, runs, by_none, by_next}
use libsiot.Server.Threads.Between.{OthersReach, Delivered, Missed, event_between}
use libsiot.Tests.Daemon.{on, readable}
use libsiot.Tests.Life.{long_idle, one_waits, one_waits-Reach}

abbrev asked : Server
asked = (defer_shutdown 40 one_waits).1

abbrev shut_down : Server
shut_down =
    (run_task long_idle (shut 40) (record asked { tasks = guarded (on established) 40 ∷ [] })).1

asked_and_shut : OthersReach one_waits shut_down
unfolding server set_max_idle listen_round handle_events handle_event accept_connection accept_by
    constructed register defer_shutdown
asked_and_shut =
    by_next (by_next by_none (defers 40 one_waits) tt)
      (runs long_idle asked [] (shut 40) (guarded (on established) 40 ∷ []) refl) tt

forty_found : at_key 9 one_waits ≡ (ok (some 40), one_waits)
unfolding server set_max_idle listen_round handle_events handle_event accept_connection accept_by
    constructed register at_key
forty_found = refl

forty_gone : lookup 9 shut_down.connections ≡ none
unfolding server set_max_idle listen_round handle_events handle_event accept_connection accept_by
    constructed register defer_shutdown run_task shutdown_connection dequeue_connection dequeue_from
    remove_entry
forty_gone = refl

event_between_example :
    let o = at_pointer long_idle (readable 9) (some 40) shut_down in
    (((lookup 9 shut_down.connections ≡ some (some 40)) × Delivered 40 shut_down o)
      ⊎ ((lookup 9 shut_down.connections ≡ none) × Missed shut_down o))
    × (at_pointer long_idle (record (readable 9) { err = true }) (some 40) shut_down ≡ (
      ok tt,
      record shut_down {
        tasks = guarded (current shut_down error) 40 ∷ shut_down.tasks;
        log = read_lock 40 ∷ shut_down.log;
      },
    ))
event_between_example =
    event_between long_idle (readable 9) 40 1 4 3 one_waits-Reach forty_found asked_and_shut refl
      refl refl
