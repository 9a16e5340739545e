-- ===== src/Server/Batch.antt =====
-- What a batch of events comes to: the `memset` behind an accepted connection, and a constructor
-- that throws.
use libsiot.Base.{
  ℕ, suc, ◌≡◌, ◌≢◌, refl, ap, ◌∙◌, Bool, true, false, String, List, [], ◌∷◌, ◌||◌, Result, ok,
  throws, undefined, ClientConnectionException, ◌==◌, ◌>>=◌, arith, running,
}
use libsiot.Server.{
  Server, Env, Accept, refused, accepted, connection_failed, accept_errors,
  client_connection_errors,
}
use libsiot.Server.Listener.{
  Event, zero_event, register, constructed, accept_by, accept_connection, handle_event,
  handle_events,
}

zero_event_skipped :
    (env : Env) (n : ℕ) (s : Server)
    → s.serverfd ≢ 0
    → handle_event env n zero_event s ≡ (ok false, s)
unfolding handle_event
zero_event_skipped env n s h = let other : (0 == s.serverfd) ≡ false = ground arith in rw other

-- The events that a `memset` has cleared are skipped.
wiped_batch :
    (env : Env) (n : ℕ) (es : List Event) (s : Server)
    → s.serverfd ≢ 0
    → handle_events env n true es s ≡ (ok tt, s)
unfolding handle_events
wiped_batch env n [] s h = refl
wiped_batch env n (e ∷ es) s h =
    ap
      (λ (x : Result Bool × Server).
        ((λ _. x) >>= λ reset. handle_events env (suc n) (true || reset) es) s)
      (zero_event_skipped env n s h)
    ∙ wiped_batch env (suc n) es s h

register-serverfd :
    (env : Env) (fd conn : ℕ) (s : Server)
    → ((register env fd conn s).0 ≡ ok true) × ((register env fd conn s).1.serverfd ≡ s.serverfd)
unfolding register
register-serverfd env fd conn s = ground arith

made_lem :
    (env : Env) (fd conn : ℕ) (s : Server)
    → env.construct s.ssl_context fd ≡ ok conn
    → accept_by env (accepted fd) s ≡ (ok true, (register env fd conn s).1)
unfolding accept_by constructed
made_lem env fd conn s made = ap (λ r. constructed env fd r s) made ∙ λ i.
    ((register-serverfd env fd conn s).0 i, (register env fd conn s).1)

thrown_lem :
    (env : Env) (fd : ℕ) (x : ClientConnectionException) (s : Server)
    → env.construct s.ssl_context fd ≡ throws x
    → accept_by env (accepted fd) s
      ≡ (undefined, record s { log = client_connection_errors x.identifier ∷ s.log })
unfolding accept_by constructed
thrown_lem env fd x s made = ap (λ r. constructed env fd r s) made

own_event :
    (env : Env) (n : ℕ) (e : Event) (s : Server)
    → e.fd ≡ s.serverfd
    → handle_event env n e s ≡ accept_by env (env.accept n) s
unfolding handle_event accept_connection
own_event env n e s own = let same : (e.fd == s.serverfd) ≡ true = ground arith in rw same

module _ (env : Env) (n : ℕ) (e : Event) (es : List Event) (s : Server)
    (own : e.fd ≡ s.serverfd) where
  first_event :
      {o : Result Bool × Server}
      → accept_by env (env.accept n) s ≡ o
      → handle_events env n false (e ∷ es) s
        ≡ ((λ _. o) >>= λ reset. handle_events env (suc n) reset es) s
  unfolding handle_events
  first_event {o} found =
      ap
        (λ (x : Result Bool × Server). ((λ _. x) >>= λ reset. handle_events env (suc n) reset es) s)
        (own_event env n e s own ∙ found)

  -- Where an event on the listening socket, which is not descriptor 0, leads to a connection
  -- object: whatever events follow it in the batch, and whatever they say of other connections, the
  -- batch ends with the new connection registered and nothing else done.
  pub accept_drops_rest :
      (fd conn : ℕ)
      → s.serverfd ≢ 0
      → env.accept n ≡ accepted fd
      → env.construct s.ssl_context fd ≡ ok conn
      → handle_events env n false (e ∷ es) s ≡ (ok tt, (register env fd conn s).1)
  accept_drops_rest fd conn h acc made =
      first_event (ap (λ a. accept_by env a s) acc ∙ made_lem env fd conn s made)
      ∙ wiped_batch env (suc n) es (register env fd conn s).1
          (rw (register-serverfd env fd conn s).1 h)

  -- Where an event on the listening socket meets a failure of `accept`, the error is reported and
  -- counted, and the rest of the batch is handled as it stands.
  pub refused_goes_on :
      (message : String)
      → env.accept n ≡ refused message
      → handle_events env n false (e ∷ es) s
        ≡ handle_events env
            (suc n)
            false
            es
            (record s { log = accept_errors message ∷ connection_failed message ∷ s.log })
  unfolding accept_by
  refused_goes_on message acc = first_event (ap (λ a. accept_by env a s) acc)

  -- Where an event on the listening socket leads to a constructor that throws, as it does when a
  -- handshake fails, the outcome of the batch is undefined.
  pub failed_handshake_undefined :
      (fd : ℕ) (x : ClientConnectionException)
      → env.accept n ≡ accepted fd
      → env.construct s.ssl_context fd ≡ throws x
      → (handle_events env n false (e ∷ es) s).0 ≡ undefined
  failed_handshake_undefined fd x acc made =
      ap (λ o. o.0) (first_event (ap (λ a. accept_by env a s) acc ∙ thrown_lem env fd x s made))

  -- What a batch comes to from an event on the listening socket on, by what `accept` and the
  -- constructor answer.
  abbrev pub made_of : ℕ → Result ℕ → Result (Unit {0}) × Server
  made_of fd (ok conn) = (ok tt, (register env fd conn s).1)
  made_of fd (throws x) =
      (undefined, record s { log = client_connection_errors x.identifier ∷ s.log })
  made_of fd undefined = (undefined, s)
  made_of fd running = (running, s)

  abbrev pub comes_to : Accept → Result (Unit {0}) × Server
  comes_to (refused message) =
      handle_events env (suc n) false es
        (record s { log = accept_errors message ∷ connection_failed message ∷ s.log })
  comes_to (accepted fd) = made_of fd (env.construct s.ssl_context fd)

  other_lem :
      (fd : ℕ) (r : Result ℕ)
      → s.serverfd ≢ 0
      → env.construct s.ssl_context fd ≡ r
      → env.accept n ≡ accepted fd
      → handle_events env n false (e ∷ es) s ≡ made_of fd r
  unfolding accept_by constructed
  other_lem fd (ok conn) h made acc = accept_drops_rest fd conn h acc made
  other_lem fd (throws x) h made acc =
      first_event (ap (λ a. accept_by env a s) acc ∙ thrown_lem env fd x s made)
  other_lem fd undefined h made acc =
      first_event (ap (λ a. accept_by env a s) acc ∙ ap (λ r. constructed env fd r s) made)
  other_lem fd running h made acc =
      first_event (ap (λ a. accept_by env a s) acc ∙ ap (λ r. constructed env fd r s) made)

  -- An event on the listening socket, which is not descriptor 0, with whatever events behind it in
  -- the batch. Where `accept` fails, the error is reported and counted and the rest of the batch is
  -- handled as it stands. Where a connection object is made, the batch ends with it registered and
  -- nothing else done, whatever the events behind it say. Where its constructor throws, as it does
  -- when a handshake fails, the error is counted and the outcome of the batch is undefined.
  pub listening_event :
      s.serverfd ≢ 0 → handle_events env n false (e ∷ es) s ≡ comes_to (env.accept n)
  listening_event h = go (env.accept n) refl
    where
      go : (a : Accept) → env.accept n ≡ a → handle_events env n false (e ∷ es) s ≡ comes_to a
      go (refused message) acc = refused_goes_on message acc
      go (accepted fd) acc = other_lem fd (env.construct s.ssl_context fd) h refl acc
