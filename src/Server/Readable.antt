-- ===== src/Server/Readable.antt =====
-- A batch of events that all say that there is data to read.
use libsiot.Base.{
  ap, ℕ, suc, ◌<◌, ◌≡◌, ◌≢◌, refl, ◌∙◌, Bool, true, false, none, some, List, [], ◌∷◌, Result, ok,
  ◌>>=◌, ◌>>◌, pure, ◌||◌, ◌==◌, ltb, arith,
}
use libsiot.Server.{Server, Env, guarded, current, established, data_ready, read_lock, epoll_add}
use libsiot.Server.Connections.{Table, lookup, insert, lookup-insert}
use libsiot.Server.Listener.{Event, register, handle_event, handle_events}
use libsiot.Server.Objects.{client_event-data}

-- An event with data, and neither an error nor a hang-up, on a descriptor that is not the listening
-- socket's or 0 and has the given connection object in the table.
pub record IsReadable (serverfd : ℕ) (m : Table) (e : Event) (conn : ℕ) : Type 0 where
  pub other : e.fd ≢ serverfd
  pub positive : 0 < e.fd
  pub found : lookup e.fd m ≡ some (some conn)
  pub no_hup : e.hup ≡ false
  pub no_err : e.err ≡ false
  pub has_data : e.inp ≡ true

-- Such events, for the objects in their order.
abbrev pub AllReadable : ℕ → Table → List Event → List ℕ → Type 0
AllReadable serverfd m [] [] = Unit
AllReadable serverfd m (e ∷ es) (conn ∷ conns) =
    IsReadable serverfd m e conn × AllReadable serverfd m es conns
AllReadable serverfd m [] (conn ∷ conns) = ⊥
AllReadable serverfd m (e ∷ es) [] = ⊥

-- A `DataReady` queued and a read lock taken for each of the objects.
abbrev pub with_data_ready : List ℕ → Server → Server
with_data_ready [] s = s
with_data_ready (conn ∷ conns) s = with_data_ready conns (record s {
  tasks = guarded (current s data_ready) conn ∷ s.tasks;
  log = read_lock conn ∷ s.log;
})

readable_event :
    (env : Env) (n : ℕ) (e : Event) (conn : ℕ) (s : Server)
    → IsReadable s.serverfd s.connections e conn
    → handle_event env n e s ≡ (ok false, with_data_ready (conn ∷ []) s)
unfolding handle_event
readable_event env n e conn s h =
    let other : (e.fd == s.serverfd) ≡ false = let ne = h.other in ground arith in
    let positive : ltb 0 e.fd ≡ true = let pos = h.positive in ground arith in
    simp (other, positive)
      (ap (λ (o : Result (Unit {0}) × Server). ((λ _. o) >> pure {S = Server} false) s)
        (client_event-data env e conn s h.found h.no_hup h.no_err h.has_data))

-- However many events a batch has, if each says that there is data on a descriptor with a
-- registered connection object, and says nothing else: the batch comes back, and it has queued one
-- `DataReady` for each event, for the object that is registered for it, each with a read lock, in
-- the order of the events, and has done nothing else.
pub readable_batch :
    (env : Env) (n : ℕ) (es : List Event) (conns : List ℕ) (s : Server)
    → AllReadable s.serverfd s.connections es conns
    → handle_events env n false es s ≡ (ok tt, with_data_ready conns s)
unfolding handle_events
readable_batch env n [] [] s h = refl
readable_batch env n [] (conn ∷ conns) s h = absurd h
readable_batch env n (e ∷ es) [] s h = absurd h
readable_batch env n (e ∷ es) (conn ∷ conns) s (h, hs) =
    ap
      (λ (o : Result Bool × Server).
        ((λ _. o) >>= λ reset. handle_events env (suc n) (false || reset) es) s)
      (readable_event env n e conn s h)
    ∙ readable_batch env (suc n) es conns (with_data_ready (conn ∷ []) s) hs

-- After a new connection that could be watched, a batch of events that each say that there is data
-- on a descriptor with a registered object, and nothing else: it comes back, with
-- `ConnectionEstablished` queued for the object as it was made and then one `DataReady` for each
-- event, in order. For the new connection's descriptor, the registered object is the decorated one.
pub registered_then_ready :
    (env : Env) (n fd conn : ℕ) (es : List Event) (conns : List ℕ) (s : Server)
    → env.try_epoll_add fd ≡ none
    → let table = insert fd (some (env.add_decorators conn)) s.connections in
      AllReadable s.serverfd table es conns
      → (handle_events env n false es (register env fd conn s).1 ≡ (
        ok tt,
        with_data_ready conns (record s {
          connections = table;
          tasks = guarded (current s established) conn ∷ s.tasks;
          log = read_lock conn ∷ epoll_add fd ∷ s.log;
        }),
      ))
        × (lookup fd table ≡ some (some (env.add_decorators conn)))
unfolding register
registered_then_ready env n fd conn es conns s added h = simp added (
  readable_batch env n es conns _ h,
  lookup-insert fd fd (some (env.add_decorators conn)) s.connections ∙ ground arith,
)
