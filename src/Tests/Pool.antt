-- ===== src/Tests/Pool.antt =====
-- A server with one thread besides the reaper's, which is to shut a connection down whose first
-- callback has not run.
use libsiot.Base.{ℕ, List, ◌<◌, ◌≡◌, ◌⊎◌, ◌↔◌, refl, [], ◌∷◌, length, inl, inr, arith}
use libsiot.Server.{Server, server, guarded, shut, established}
use libsiot.Server.Locks.{owed}
use libsiot.Server.Registry.{
  defer_shutdown, run_task, shutdown_connection, dequeue_connection, dequeue_from, remove_entry,
}
use libsiot.Server.Listener.{
  register, handle_events, handle_event, accept_connection, accept_by, constructed,
}
use libsiot.Server.Rounds.{ready, listen_round}
use libsiot.Server.Threads.{listens, defers}
use libsiot.Server.Pool.{Pool, new_pool, PoolReach, pool_here, pool_next, outside, takes}
use libsiot.Server.Pool.Drain.{Drains, AnyFree, Drains-iff}
use libsiot.Tests.Daemon.{on, readable}
use libsiot.Tests.Life.{long_idle}

abbrev asked : Server
asked = (defer_shutdown 40 (listen_round long_idle (ready (readable 3 ∷ [])) (server 1 1 3)).1).1

-- No connection owns another.
abbrev alone : ℕ → List ℕ
alone c = []

-- The thread has taken the call of `Shutdown`, and waits.
abbrev one_thread : Pool
one_thread = record {
  server_ =
      (run_task long_idle (shut 40) (record asked { tasks = guarded (on established) 40 ∷ [] })).1;
  workers = 1;
  waiting = (40 ∷ []) ∷ [];
}

one_thread-PoolReach : PoolReach alone (new_pool 1 1 3) one_thread
unfolding server listen_round handle_events handle_event accept_connection accept_by constructed
    register defer_shutdown
one_thread-PoolReach =
    pool_next
      (pool_next
        (pool_next pool_here (
          outside (new_pool 1 1 3) (listens long_idle (ready (readable 3 ∷ [])) (server 1 1 3)) tt))
        (outside _ (defers 40 (listen_round long_idle (ready (readable 3 ∷ [])) (server 1 1 3)).1)
          tt))
      (takes long_idle _ [] (shut 40) (guarded (on established) 40 ∷ []) refl (omega arith))

Drains-iff_example :
    Drains alone one_thread
    ↔ ((length one_thread.waiting < 1) ⊎ AnyFree ((40 ∷ []) ∷ []) one_thread.server_)
Drains-iff_example = Drains-iff alone long_idle 1 1 3 one_thread-PoolReach (omega arith)

-- The callback that would give the lock back is queued for ever.
one_queued : owed 40 one_thread.server_.tasks ≡ 1
unfolding server listen_round handle_events handle_event accept_connection accept_by constructed
    register defer_shutdown run_task shutdown_connection dequeue_connection dequeue_from
    remove_entry
one_queued = refl

starved : ¬ (Drains alone one_thread)
starved d = elim (Drains-iff_example.0 d) [
  | inl free ↦ absurd (omega arith)
  | inr (inl none_there) ↦ absurd (omega (arith, one_queued, none_there.0))
  | inr (inr h) ↦ absurd h
]

-- A decorator at 41 that owns the connection at 40 waits for both locks, and so for the callback.
decorator_waits : ¬ (AnyFree ((41 ∷ 40 ∷ []) ∷ []) one_thread.server_)
decorator_waits (inl (free, (none_there, rest))) = absurd (omega (arith, one_queued, none_there))
decorator_waits (inr h) = absurd h
