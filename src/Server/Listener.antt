-- ===== src/Server/Listener.antt =====
-- The body of `Server::ListenEpoll`: one batch of events.
use libsiot.Base.{
  ℕ, suc, Bool, true, false, ◌||◌, Option, none, some, List, [], ◌∷◌, Result, ok, throws, undefined,
  running, Action, modify, skip, fault, pure, ◌>>=◌, ◌>>◌, if◌then◌else◌, ltb, ◌==◌, String,
}
use libsiot.Server.{
  Server, Env, Accept, refused, accepted, guarded, bare, established, terminated, error, data_ready,
  connection_failed, accept_errors, client_connection_errors, read_after_close, epoll_add,
  read_lock, emit, add_call, set_connections,
}
use libsiot.Server.Connections.{lookup, insert}
use libsiot.Server.Registry.{report, shutdown_connection}

-- A `struct epoll_event`: the descriptor, and whether `EPOLLHUP` or `EPOLLRDHUP`, `EPOLLERR` and
-- `EPOLLIN` are set.
pub record Event : Type 0 where
  pub fd : ℕ
  pub hup : Bool
  pub err : Bool
  pub inp : Bool

-- An event after `memset`.
abbrev pub zero_event : Event
zero_event = record { fd = 0; hup = false; err = false; inp = false }

-- Behind `epoll_ctl`: the report of its failure, or the callback with a read lock.
abbrev pub announce : ℕ → Option String → Action Server (Unit {0})
announce conn (some message) = report message
announce conn none = do emit (read_lock conn); add_call (λ f. guarded f conn) established

-- A new connection object: it is decorated and registered, watched, and reported to the callback.
-- The result says that the events of the batch have been cleared.
unfoldable pub register : Env → ℕ → ℕ → Action Server Bool
register env clientfd conn = do
  modify (λ s. set_connections (insert clientfd (some (env.add_decorators conn)) s.connections) s)
  emit (epoll_add clientfd)
  announce conn (env.try_epoll_add clientfd)
  pure true

-- Behind the constructor. Where it throws, the code counts the error and goes on with a pointer
-- that has no value.
unfoldable pub constructed : Env → ℕ → Result ℕ → Action Server Bool
constructed env clientfd (ok conn) = register env clientfd conn
constructed env clientfd (throws e) = do emit (client_connection_errors e.identifier); fault
constructed env clientfd undefined = fault
constructed env clientfd running = λ s. (running, s)

unfoldable pub accept_by : Env → Accept → Action Server Bool
accept_by env (refused message) = do
  emit (connection_failed message)
  emit (accept_errors message)
  pure false
accept_by env (accepted clientfd) =
    λ s. constructed env clientfd (env.construct s.ssl_context clientfd) s

-- An event on the listening socket.
unfoldable pub accept_connection : Env → ℕ → Action Server Bool
unfolding accept_by constructed
accept_connection env n = accept_by env (env.accept n)

-- What is found under a key, or a null pointer that is entered for it.
abbrev pub enter : ℕ → Option (Option ℕ) → Action Server (Option ℕ)
enter fd (some p) s = (ok p, s)
enter fd none s = (ok none, set_connections (insert fd none s.connections) s)

-- `connections_[fd]`
unfoldable pub at_key : ℕ → Action Server (Option ℕ)
at_key fd s = enter fd (lookup fd s.connections) s

abbrev pub deliver_to : ℕ → Option (Option ℕ) → Action Server (Unit {0})
deliver_to conn none = emit read_after_close
deliver_to conn (some p) = do emit (read_lock conn); add_call (λ f. guarded f conn) data_ready

-- The branch for data to read: it looks the descriptor up once more.
unfoldable pub deliver : ℕ → ℕ → Action Server (Unit {0})
deliver fd conn s = deliver_to conn (lookup fd s.connections) s

-- The event of a connection that is registered under a pointer.
unfoldable pub notify_connection : Env → Event → ℕ → Action Server (Unit {0})
notify_connection env e conn =
    if e.hup
    then (do add_call (λ f. bare f conn) terminated; shutdown_connection env conn)
    else (if e.err
        then (do emit (read_lock conn); add_call (λ f. guarded f conn) error)
        else (if e.inp then deliver e.fd conn else skip))

unfoldable pub at_pointer : Env → Event → Option ℕ → Action Server (Unit {0})
at_pointer env e none = skip
at_pointer env e (some conn) = notify_connection env e conn

-- An event on another descriptor than the listening socket's.
unfoldable pub client_event : Env → Event → Action Server (Unit {0})
client_event env e = at_key e.fd >>= at_pointer env e

-- One round of the `for` loop, for the event of number `n`.
unfoldable pub handle_event : Env → ℕ → Event → Action Server Bool
handle_event env n e s =
    if e.fd == s.serverfd
    then accept_connection env n s
    else (if ltb 0 e.fd then (client_event env e >> pure false) s else (ok false, s))

-- The `for` loop over the batch, from the event of number `n` on; `wiped` says that a `memset` has
-- cleared the events.
unfoldable pub handle_events : Env → ℕ → Bool → List Event → Action Server (Unit {0})
handle_events env n wiped [] = skip
handle_events env n wiped (e ∷ es) = do
  reset ← handle_event env n (if wiped then zero_event else e)
  handle_events env (suc n) (wiped || reset) es
