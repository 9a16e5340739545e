-- ===== src/Tests/Daemon.antt =====
-- A server with two connections, in a system whose third event is an accepted connection.
use libsiot.Base.{
  ℕ, ◌+◌, ◌-◌, ◌<◌, ◌≡◌, ◌≢◌, ◌⊎◌, ◌↔◌, refl, true, false, none, some, [], ◌∷◌, ok, throws,
  undefined, ◌==◌, if◌then◌else◌, arith,
}
use libsiot.Base.Int.{pos}
use libsiot.Server.{
  Server, Env, refused, accepted, Method, Callback, guarded, established, server, read_lock,
  epoll_add,
}
use libsiot.Server.Connections.{insert, lookup}
use libsiot.Server.Registry.{run_task}
use libsiot.Server.Listener.{
  Event, register, handle_event, handle_events, accept_connection, accept_by, constructed,
}
use libsiot.Server.Reaper.{is_due, to_u64}
use libsiot.Server.Rounds.{ready, listen_round}
use libsiot.Server.Locks.{IsBalanced}
use libsiot.Server.Threads.{Reach, listens, runs, here, next, Reach-IsBalanced}
use libsiot.Server.Batch.{listening_event}
use libsiot.Server.Idle.{is_due_iff}
use libsiot.Server.Readable.{IsReadable, AllReadable, with_data_ready, registered_then_ready}

-- The connection at 20 was last used at 100 and the one at 30 at 990; it is 1000 now.
abbrev pub system : Env
system = record {
  is_shutdown = λ conn. false;
  last_use = λ conn. if conn == 20 then 100 else (if conn == 30 then 990 else 1001);
  time = 1000;
  accept = λ n. if n == 2 then refused "too many files" else accepted 9;
  construct = λ context fd.
      if fd == 9 then ok 40 else throws (record { identifier = "SSL_accept:1"; errmsg = "failed" });
  add_decorators = λ conn. conn + 1;
  try_epoll_add = λ fd. none;
  try_epoll_delete = λ fd. none;
}

abbrev broken : Env
broken = record system { accept = λ n. accepted 8 }

abbrev pub two_connections : Server
two_connections = record {
  callback = 1;
  ssl_context = none;
  maxconn = pos 8;
  num_threads = 8;
  max_idle = pos 60;
  running_ = true;
  serverfd = 3;
  connections = (5, some 30) ∷ (6, some 20) ∷ [];
  tasks = [];
  log = [];
}

abbrev pub readable : ℕ → Event
readable fd = record { fd = fd; hup = false; err = false; inp = true }

-- A method of the callback object, which is at 1.
abbrev pub on : Method → Callback
on m = record { object = 1; method = m }

-- One round accepts a connection, and a thread of the pool then runs its callback.
abbrev pub after_round : Server
after_round = (listen_round system (ready (readable 3 ∷ readable 5 ∷ [])) (server 1 4 3)).1

abbrev pub after_run : Server
after_run = (run_task system (guarded (on established) 40) (record after_round { tasks = [] })).1

pub accepted_and_run : Reach (server 1 4 3) after_run
unfolding server listen_round handle_events handle_event accept_connection accept_by constructed
    register
accepted_and_run =
    next (next here (listens system (ready (readable 3 ∷ readable 5 ∷ [])) (server 1 4 3)))
      (runs system after_round [] (guarded (on established) 40) [] refl)

Reach-IsBalanced_example : IsBalanced 40 after_run
Reach-IsBalanced_example = Reach-IsBalanced 40 1 4 3 accepted_and_run

-- The handshake fails, and the event on 5 is lost.
fails_handshake :
    (handle_events broken 0 false (readable 3 ∷ readable 5 ∷ []) two_connections).0 ≡ undefined
unfolding handle_events handle_event accept_connection accept_by constructed
fails_handshake = refl

listening_event_example :
    handle_events system 0 false (readable 3 ∷ readable 5 ∷ []) two_connections
    ≡ (ok tt, (register system 9 40 two_connections).1)
listening_event_example =
    listening_event system 0 (readable 3) (readable 5 ∷ []) two_connections refl (λ e. omega arith)

is_due_iff_example : (is_due system (to_u64 (pos 60)) (pos 60) 20 ≡ true) ↔ (
    (system.is_shutdown 20 ≡ true)
    ⊎ (system.time < system.last_use 20)
    ⊎ (60 < system.time - system.last_use 20))
is_due_iff_example = is_due_iff system 59 20 (omega arith) (omega arith) (omega arith) (omega arith)

-- The new connection on 9 and the old one on 5, which is behind the object at 30.
both_readable :
    AllReadable 3
      (insert 9 (some 41) two_connections.connections)
      (readable 9 ∷ readable 5 ∷ [])
      (41 ∷ 30 ∷ [])
both_readable = (
  of 9 41 (λ e. omega arith) (omega arith) refl,
  (of 5 30 (λ e. omega arith) (omega arith) refl, tt),
)
  where
    of :
        (fd conn : ℕ)
        → fd ≢ 3
        → 0 < fd
        → lookup fd (insert 9 (some 41) two_connections.connections) ≡ some (some conn)
        → IsReadable 3 (insert 9 (some 41) two_connections.connections) (readable fd) conn
    of fd conn other positive found = record {
      other = other;
      positive = positive;
      found = found;
      no_hup = refl;
      no_err = refl;
      has_data = refl;
    }

registered_then_ready_example :
    (handle_events system 0 false
        (readable 9 ∷ readable 5 ∷ [])
        (register system 9 40 two_connections).1
      ≡ (
        ok tt,
        with_data_ready (41 ∷ 30 ∷ []) (record two_connections {
          connections = insert 9 (some 41) two_connections.connections;
          tasks = guarded (on established) 40 ∷ [];
          log = read_lock 40 ∷ epoll_add 9 ∷ [];
        }),
      ))
    × (lookup 9 (insert 9 (some 41) two_connections.connections) ≡ some (some 41))
registered_then_ready_example =
    registered_then_ready system 0 9 40 (readable 9 ∷ readable 5 ∷ []) (41 ∷ 30 ∷ [])
      two_connections refl both_readable
