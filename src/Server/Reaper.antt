-- ===== src/Server/Reaper.antt =====
-- `Server::ReapConnectionsEpoll`.
use libsiot.Base.{
  ℕ, ◌+◌, ◌-◌, ◌*◌, ◌%◌, Bool, true, false, ◌&&◌, ◌||◌, none, some, [], ◌∷◌, ok, Action, modify,
  skip, fault, ◌>>=◌, ◌>>◌, List, if◌then◌else◌, ltb, u64_mod, Option,
}
use libsiot.Base.Int.{ℤ, pos, negsuc}
use libsiot.Server.{Server, Env, Refusal, terminated, call_now, epoll_delete, emit, set_connections}
use libsiot.Server.Connections.{Table, erase}
use libsiot.Server.Registry.{report, shutdown_connection}

-- `(uint64_t) max_idle_`
unfoldable pub to_u64 : ℤ → ℕ
to_u64 (pos n) = n % u64_mod
to_u64 (negsuc n) = u64_mod - 1 - n % u64_mod

-- The time, in milliseconds, that the reaper waits for a change. The setting is at most 4294967,
-- where the product fits an `int`.
unfoldable pub wait_time : ℤ → ℕ
wait_time (pos n) = if ltb 2 n then n * 500 else 500
wait_time (negsuc n) = 500

abbrev pub is_positive : ℤ → Bool
is_positive (pos n) = ltb 0 n
is_positive (negsuc n) = false

-- The test of the loop. `limit` is the setting when the thread began, `max_idle` the one now; the
-- times are `uint64_t`.
unfoldable pub is_due : Env → ℕ → ℤ → ℕ → Bool
is_due env limit max_idle conn =
    env.is_shutdown conn
    || (is_positive max_idle && ltb limit ((env.time + u64_mod - env.last_use conn) % u64_mod))

abbrev pub report_refusal : Option Refusal → Action Server (Unit {0})
report_refusal none = skip
report_refusal (some r) = report r.message

-- The entry is erased and no longer watched.
unfoldable pub unwatch : Env → ℕ → Action Server (Unit {0})
unwatch env fd = do
  modify (λ s. set_connections (erase fd s.connections) s)
  emit (epoll_delete fd)
  report_refusal (env.try_epoll_delete fd)

-- A connection that is not shut down is, and reported; `Shutdown` has deleted the object by then.
unfoldable pub close_idle : Env → ℕ → Action Server (Unit {0})
close_idle env conn =
    if env.is_shutdown conn
    then skip
    else (do shutdown_connection env conn; call_now terminated conn)

-- The body of the loop for an entry that is due.
unfoldable pub reap_entry : Env → ℕ → ℕ → Action Server (Unit {0})
reap_entry env fd conn = unwatch env fd >> close_idle env conn

-- The loop over the entries from the iterator on. A null pointer is dereferenced; and the iterator
-- of an erased entry is incremented.
unfoldable pub reap_from : Env → ℕ → Table → Action Server (Unit {0})
reap_from env limit [] s = skip s
reap_from env limit ((fd, none) ∷ rest) s = fault s
reap_from env limit ((fd, some conn) ∷ rest) s =
    let next = reap_from env limit rest s in
    if is_due env limit s.max_idle conn then (reap_entry env fd conn >> fault) s else next

-- A round of the reaper from its waking on; its result says that the thread goes on.
unfoldable pub reap_round : Env → ℕ → Action Server Bool
reap_round env limit s =
    if s.running_
    then (reap_from env limit s.connections >> (λ t. (ok true, t))) s
    else (ok false, s)

-- What happens to the reaper between two rounds and in the second: what the other threads make of
-- the server while it waits, and what the rest of the system then answers.
pub record Wake : Type 0 where
  pub meanwhile : Server → Server
  pub answers : Env

-- The `while` loop of the reaper, a round for each waking. Its result is true if the list has been
-- used up.
unfoldable pub reap_loop : List Wake → ℕ → Action Server Bool
reap_loop [] limit s = (ok true, s)
reap_loop (w ∷ ws) limit s =
    if s.running_
    then (reap_round w.answers limit >>= λ on.
          if on then reap_loop ws limit else (λ t. (ok false, t)))
        (w.meanwhile s)
    else (ok false, s)

-- `Server::ReapConnectionsEpoll`. The setting is read once, when the thread begins.
unfoldable pub reap_connections_epoll : List Wake → Action Server Bool
reap_connections_epoll wakes s = reap_loop wakes (to_u64 s.max_idle) s
