-- ===== src/Server/Objects.antt =====
-- The table of connections: which object an event reaches, and what a stray event leaves behind.
use libsiot.Base.{
  ℕ, ◌≡◌, ap, ◌∙◌, true, false, none, some, ◌∷◌, ok, ◌==◌, ◌>>=◌, arith, if◌then◌else◌,
}
use libsiot.Server.{
  Server, Env, guarded, current, established, data_ready, read_lock, set_connections,
}
use libsiot.Server.Connections.{lookup, insert, lookup-insert}
use libsiot.Server.Listener.{
  Event, register, at_key, at_pointer, deliver, notify_connection, client_event,
}

-- The table after a new connection: its descriptor leads to the decorated object, and no other
-- entry changes. If it can be watched, the callback is told of the undecorated object.
pub register_lem :
    (env : Env) (fd conn j : ℕ) (s : Server)
    → (lookup j (register env fd conn s).1.connections
        ≡ (if fd == j then some (some (env.add_decorators conn)) else lookup j s.connections))
      × (env.try_epoll_add fd ≡ none
          → (register env fd conn s).1.tasks ≡ guarded (current s established) conn ∷ s.tasks)
unfolding register
register_lem env fd conn j s =
    ground (arith, lookup-insert fd j (some (env.add_decorators conn)) s.connections)

pub register-callback :
    (env : Env) (fd conn : ℕ) (s : Server) → (register env fd conn s).1.callback ≡ s.callback
unfolding register
register-callback env fd conn s = ground arith

-- Data to read on a registered descriptor: the callback for the registered object is queued with a
-- read lock on it.
pub client_event-data :
    (env : Env) (e : Event) (conn : ℕ) (s : Server)
    → lookup e.fd s.connections ≡ some (some conn)
    → e.hup ≡ false
    → e.err ≡ false
    → e.inp ≡ true
    → client_event env e s ≡ (
      ok tt,
      record s {
        tasks = guarded (current s data_ready) conn ∷ s.tasks;
        log = read_lock conn ∷ s.log;
      },
    )
unfolding client_event at_key at_pointer notify_connection deliver
client_event-data env e conn s found up bad in_ = ground arith

-- After a new connection that could be watched, the next event with data on its descriptor, and
-- neither an error nor a hang-up, queues `DataReady` for the decorated object behind
-- `ConnectionEstablished`, which is queued for the object as it was made.
pub established_undecorated :
    (env : Env) (e : Event) (conn : ℕ) (s : Server)
    → env.try_epoll_add e.fd ≡ none
    → e.hup ≡ false
    → e.err ≡ false
    → e.inp ≡ true
    → (client_event env e (register env e.fd conn s).1).1.tasks
      ≡ guarded (current s data_ready) (env.add_decorators conn)
        ∷ guarded (current s established) conn
        ∷ s.tasks
established_undecorated env e conn s added up bad in_ =
    let (found, queued) = register_lem env e.fd conn e.fd s in
    ap (λ o. o.1.tasks)
      (client_event-data env e (env.add_decorators conn) (register env e.fd conn s).1
        (found ∙ ground arith) up bad in_)
    ∙ ap
        (λ cb.
          guarded (record { object = cb; method = data_ready }) (env.add_decorators conn)
          ∷ (register env e.fd conn s).1.tasks)
        (register-callback env e.fd conn s)
    ∙ ap (λ ts. guarded (current s data_ready) (env.add_decorators conn) ∷ ts) (queued added)

at_key_missing :
    (fd : ℕ) (s : Server)
    → lookup fd s.connections ≡ none
    → at_key fd s ≡ (ok none, set_connections (insert fd none s.connections) s)
unfolding at_key
at_key_missing fd s missing = rw (missing, at_key)

-- An event on a descriptor that is not in the table enters a null pointer for it, and does nothing
-- else.
pub stray_event_lem :
    (env : Env) (e : Event) (s : Server)
    → lookup e.fd s.connections ≡ none
    → client_event env e s ≡ (ok tt, set_connections (insert e.fd none s.connections) s)
unfolding client_event at_key at_pointer
stray_event_lem env e s missing =
    ap (λ o. ((λ _. o) >>= at_pointer env e) s) (at_key_missing e.fd s missing)
