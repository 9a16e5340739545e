-- ===== src/Server/Frame/Listening.antt =====
-- The listener keeps what the elementary changes keep.
use libsiot.Base.{
  ℕ, suc, ◌≡◌, refl, Bool, true, false, Option, none, some, String, List, [], ◌∷◌, Result, ok,
  throws, undefined, running, ◌||◌, pure, ◌>>◌, if◌then◌else◌, ◌==◌, ltb, Bool-cases, inl, inr,
}
use libsiot.Server.{
  Server, Env, Method, current, add_call, Accept, refused, accepted, guarded, bare, terminated,
  error, established, data_ready, connection_failed, accept_errors, client_connection_errors,
  epoll_errors, read_after_close, read_lock, emit,
}
use libsiot.Server.Connections.{lookup}
use libsiot.Server.Listener.{
  Event, zero_event, announce, register, constructed, accept_by, accept_connection, at_pointer,
  enter, at_key, deliver_to, deliver, notify_connection, client_event, handle_event, handle_events,
}
use libsiot.Server.Rounds.{Wait, ready, wait_failed, round_of, listen_body, listen_round}
use libsiot.Server.Frame.{
  IsCalm, Keeps, Keeps->>=, Keeps->>, emit-Keeps, report-Keeps, shutdown_connection-Keeps,
}

module _ {P : Server → Type 0} (frame : IsCalm P) where
  lock-Keeps : (m : Method) (c : ℕ) → Keeps P (emit (read_lock c) >> add_call (λ f. guarded f c) m)
  lock-Keeps m c s h = frame.locks (current s m) c s refl h

  announce-Keeps : (conn : ℕ) (o : Option String) → Keeps P (announce conn o)
  announce-Keeps conn (some m) = report-Keeps frame.shrinks m
  announce-Keeps conn none = lock-Keeps established conn

  register-Keeps : (env : Env) (fd conn : ℕ) → Keeps P (register env fd conn)
  unfolding register
  register-Keeps env fd conn s h =
      Keeps->> (announce conn (env.try_epoll_add fd)) (pure true)
        (announce-Keeps conn (env.try_epoll_add fd)) (λ t k. k) _
        (frame.registers fd (env.add_decorators conn) s h)

  constructed-Keeps : (env : Env) (fd : ℕ) (r : Result ℕ) → Keeps P (constructed env fd r)
  unfolding constructed
  constructed-Keeps env fd (ok conn) s h = register-Keeps env fd conn s h
  constructed-Keeps env fd (throws e) s h =
      frame.shrinks.emits (client_connection_errors e.identifier) s tt h
  constructed-Keeps env fd undefined s h = h
  constructed-Keeps env fd running s h = h

  accept_by-Keeps : (env : Env) (a : Accept) → Keeps P (accept_by env a)
  unfolding accept_by
  accept_by-Keeps env (refused m) s h =
      frame.shrinks.emits (accept_errors m) _ tt (frame.shrinks.emits (connection_failed m) s tt h)
  accept_by-Keeps env (accepted fd) s h =
      constructed-Keeps env fd (env.construct s.ssl_context fd) s h

  deliver_to-Keeps : (conn : ℕ) (o : Option (Option ℕ)) → Keeps P (deliver_to conn o)
  deliver_to-Keeps conn none = emit-Keeps frame.shrinks read_after_close tt
  deliver_to-Keeps conn (some p) = lock-Keeps data_ready conn

  notify_connection-Keeps :
      (env : Env) (e : Event) (conn : ℕ) → Keeps P (notify_connection env e conn)
  unfolding notify_connection deliver
  notify_connection-Keeps env e conn s h = elim (Bool-cases e.hup) [
    | inl up ↦ rw up (
        shutdown_connection-Keeps frame.shrinks env conn
          (record s { tasks = bare (current s terminated) conn ∷ s.tasks })
          (frame.shrinks.queues (bare (current s terminated) conn) s tt refl h))
    | inr no_hup ↦ elim (Bool-cases e.err) [
      | inl bad ↦ rw (no_hup, bad) (lock-Keeps error conn s h)
      | inr fine ↦ elim (Bool-cases e.inp) [
        | inl in_ ↦ rw (no_hup, fine, in_) (deliver_to-Keeps conn (lookup e.fd s.connections) s h)
        | inr nothing ↦ rw (no_hup, fine, nothing) h
      ]
    ]
  ]

  enter-Keeps :
      (fd : ℕ) (o : Option (Option ℕ)) (s : Server)
      → lookup fd s.connections ≡ o
      → P s
      → P (enter fd o s).1
  enter-Keeps fd none s e h = frame.enters fd s e h
  enter-Keeps fd (some p) s e h = h

  at_pointer-Keeps : (env : Env) (e : Event) (p : Option ℕ) → Keeps P (at_pointer env e p)
  unfolding at_pointer
  at_pointer-Keeps env e none s h = h
  at_pointer-Keeps env e (some conn) s h = notify_connection-Keeps env e conn s h

  client_event-Keeps : (env : Env) (e : Event) → Keeps P (client_event env e)
  unfolding client_event at_key
  client_event-Keeps env e =
      Keeps->>= (at_key e.fd) (at_pointer env e)
        (λ s. enter-Keeps e.fd (lookup e.fd s.connections) s refl) (at_pointer-Keeps env e)

  handle_event-Keeps : (env : Env) (n : ℕ) (e : Event) → Keeps P (handle_event env n e)
  unfolding handle_event accept_connection
  handle_event-Keeps env n e s h = elim (Bool-cases (e.fd == s.serverfd)) [
    | inl own ↦ rw own (accept_by-Keeps env (env.accept n) s h)
    | inr other ↦ elim (Bool-cases (ltb 0 e.fd)) [
      | inl client ↦
          rw (other, client)
            (Keeps->> (client_event env e) (pure false) (client_event-Keeps env e) (λ t k. k) s h)
      | inr zero_fd ↦ rw (other, zero_fd) h
    ]
  ]

  handle_events-Keeps :
      (env : Env) (n : ℕ) (wiped : Bool) (es : List Event) → Keeps P (handle_events env n wiped es)
  unfolding handle_events
  handle_events-Keeps env n wiped [] s h = h
  handle_events-Keeps env n wiped (e ∷ es) s h =
      Keeps->>= (handle_event env n (if wiped then zero_event else e))
        (λ reset. handle_events env (suc n) (wiped || reset) es)
        (handle_event-Keeps env n (if wiped then zero_event else e))
        (λ reset. handle_events-Keeps env (suc n) (wiped || reset) es) s h

  round_of-Keeps : (o : Result (Unit {0}) × Server) → P o.1 → P (round_of o).1
  round_of-Keeps (ok _, s) h = h
  round_of-Keeps (throws e, s) h = h
  round_of-Keeps (undefined, s) h = h
  round_of-Keeps (running, s) h = h

  choose : {A : Type 0} (b : Bool) (x y : A × Server) → P x.1 → P y.1 → P (if b then x else y).1
  choose true x y h k = h
  choose false x y h k = k

  pub listen_body-Keeps : (env : Env) (w : Wait) (s : Server) → P s → P (listen_body env w s).1
  listen_body-Keeps env (ready es) s h =
      round_of-Keeps (handle_events env 0 false es s) (handle_events-Keeps env 0 false es s h)
  listen_body-Keeps env (wait_failed retry m) s h =
      let failed : P (record s { log = connection_failed m ∷ s.log }) =
        frame.shrinks.emits (connection_failed m) s tt h in
      choose retry _ _ (frame.shrinks.emits (epoll_errors m) _ tt failed) failed

  pub listen_round-Keeps : (env : Env) (w : Wait) (s : Server) → P s → P (listen_round env w s).1
  unfolding listen_round
  listen_round-Keeps env w s h = choose s.running_ _ _ (listen_body-Keeps env w s h) h
