-- ===== src/Server/Registry.antt =====
-- `Server::DequeueConnection`, `DeferShutdown` and `LockCallAndUnlock`.
use Prim.Native.String.{◌++◌ as str_append}
use libsiot.Base.{
  ℕ, Bool, false, Option, none, some, String, [], ◌∷◌, Action, modify, skip, fault, ◌>>◌,
  if◌then◌else◌, ◌==◌,
}
use libsiot.Server.{
  Server, Env, Refusal, Task, Callback, guarded, bare, shut, connection_failed, epoll_errors,
  notify, epoll_delete, unlock, shutdown, ran, emit, add_task, set_connections,
}
use libsiot.Server.Connections.{Table, erase}

-- `it.second == conn`
abbrev pub points_to : Option ℕ → ℕ → Bool
points_to none c = false
points_to (some p) c = p == c

-- The report of a failed `epoll_ctl`.
abbrev pub report : String → Action Server (Unit {0})
report message = do
  emit (connection_failed (str_append "epoll_ctl: " message))
  emit (epoll_errors message)

-- The report of a failed removal, which `EBADFD` needs none of.
abbrev pub report_unless_ebadfd : Option Refusal → Action Server (Unit {0})
report_unless_ebadfd none = skip
report_unless_ebadfd (some r) = if r.is_ebadfd then skip else report r.message

-- The body of the loop of `DequeueConnection` for an entry that is found.
unfoldable pub remove_entry : Env → ℕ → Action Server (Unit {0})
remove_entry env fd = do
  modify (λ s. set_connections (erase fd s.connections) s)
  emit (epoll_delete fd)
  report_unless_ebadfd (env.try_epoll_delete fd)
  emit notify

-- The loop of `DequeueConnection` over the entries from the iterator on. It goes on by incrementing
-- the iterator, which is undefined once its entry has been erased.
unfoldable pub dequeue_from : Env → ℕ → Table → Action Server (Unit {0})
dequeue_from env conn [] = skip
dequeue_from env conn ((fd, p) ∷ rest) =
    let next = dequeue_from env conn rest in
    if points_to p conn then remove_entry env fd >> fault else next

-- `Server::DequeueConnection`
unfoldable pub dequeue_connection : Env → ℕ → Action Server (Unit {0})
dequeue_connection env conn s = dequeue_from env conn s.connections s

-- A call of `Shutdown` on a connection of this server. Every implementation first calls
-- `Deregister`, and so `DequeueConnection`; what it does to the object after that is logged with
-- it. A decorator then shuts down what it owns, whose own `Deregister` finds no entry: the table
-- has the decorator. The locks that it waits for on the way are those of Server.Pool.
unfoldable pub shutdown_connection : Env → ℕ → Action Server (Unit {0})
shutdown_connection env conn = do emit (shutdown conn); dequeue_connection env conn

-- `Server::DeferShutdown`
unfoldable pub defer_shutdown : ℕ → Action Server (Unit {0})
defer_shutdown conn = add_task (shut conn)

-- `Server::LockCallAndUnlock`
unfoldable pub lock_call_and_unlock : Callback → ℕ → Action Server (Unit {0})
lock_call_and_unlock c conn = do emit (ran c conn); emit (unlock conn)

-- A thread of the pool runs a closure.
unfoldable pub run_task : Env → Task → Action Server (Unit {0})
run_task env (guarded c conn) = lock_call_and_unlock c conn
run_task env (bare c conn) = emit (ran c conn)
run_task env (shut conn) = shutdown_connection env conn
