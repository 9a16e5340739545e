-- ===== src/Server/Threads/Between.antt =====
-- The two halves of an event of a connection, the look at the table and what follows: nothing is
-- held in between, so the other threads may do anything there.
use libsiot.Base.{
  ap, ℕ, ◌≡◌, ◌⊎◌, refl, ◌∙◌, true, false, Option, none, some, ◌∷◌, Result, ok, inl, inr,
  Bool-cases, ◌==◌,
}
use libsiot.Server.{
  Server, server, Env, guarded, current, error, data_ready, read_lock, read_after_close, stop,
  set_max_idle, set_max_connections, set_server_ssl_context, set_connection_callback,
}
use libsiot.Server.Connections.{Table, Ascends, lookup, erase, lookup-erase, erase-Ascends}
use libsiot.Server.Listener.{
  Event, at_key, enter, at_pointer, deliver, deliver_to, notify_connection,
}
use libsiot.Server.Frame.{IsShrinking, Finishes}
use libsiot.Server.Frame.Reaping.{reap_round-Keeps, defer_shutdown-Keeps, run_task-Keeps}
use libsiot.Server.Threads.{
  Step, listens, handles, watches, starts, reaps, runs, defers, stops, sets_idle, sets_maximum,
  sets_callback, sets_context, Reach, ReachBy, ReachBy-Keeps, Reach-IsOrdered,
}

-- A step that is not the listener's.
abbrev pub IsOther : {s t : Server} → Step s t → Type 0
IsOther (listens env w s) = ⊥
IsOther (handles env w s) = ⊥
IsOther (watches s) = ⊥
IsOther (starts s) = ⊥
IsOther (runs env s before t after e) = Unit
IsOther (reaps env limit s) = Unit
IsOther (defers c s) = Unit
IsOther (stops s) = Unit
IsOther (sets_idle n s) = Unit
IsOther (sets_maximum n s) = Unit
IsOther (sets_callback n s) = Unit
IsOther (sets_context c s) = Unit

abbrev pub OthersReach : Server → Server → Type 0
OthersReach = ReachBy (λ s t st. IsOther st)

-- An entry is as it was, or is gone.
abbrev Stays : ℕ → Option (Option ℕ) → Server → Type 0
Stays fd was s =
    Ascends 0 s.connections × ((lookup fd s.connections ≡ was) ⊎ (lookup fd s.connections ≡ none))

module _ (fd : ℕ) (was : Option (Option ℕ)) where
  erased :
      (k : ℕ) (m : Table)
      → Ascends 0 m
      → (lookup fd m ≡ was) ⊎ (lookup fd m ≡ none)
      → (lookup fd (erase k m) ≡ was) ⊎ (lookup fd (erase k m) ≡ none)
  erased k m a h = elim (Bool-cases (k == fd)) [
    | inl same ↦ inr (lookup-erase 0 k fd m a ∙ simp same refl)
    | inr other ↦ rw (lookup-erase 0 k fd m a, other) h
  ]

  Stays-IsShrinking : IsShrinking (Stays fd was)
  Stays-IsShrinking = record {
    emits = λ e s n h. h;
    queues = λ t s n e h. h;
    removes = λ k s h. (erase-Ascends 0 k s.connections h.0, erased k s.connections h.0 h.1);
    dequeues = λ before after t s n e h. h;
  }

  Stays-Finishes : Finishes (Stays fd was)
  Stays-Finishes before after f c s e h = h

  Step-Stays : {s t : Server} (st : Step s t) → IsOther st → Stays fd was s → Stays fd was t
  unfolding stop set_max_idle set_max_connections set_server_ssl_context set_connection_callback
  Step-Stays (listens env w s) l h = absurd l
  Step-Stays (handles env w s) l h = absurd l
  Step-Stays (watches s) l h = absurd l
  Step-Stays (starts s) l h = absurd l
  Step-Stays (reaps env limit s) l h = reap_round-Keeps Stays-IsShrinking env limit s h
  Step-Stays (runs env s before t after e) l h =
      run_task-Keeps Stays-IsShrinking Stays-Finishes env s before t after e h
  Step-Stays (defers conn s) l h = defer_shutdown-Keeps Stays-IsShrinking conn s h
  Step-Stays (stops s) l h = h
  Step-Stays (sets_idle n s) l h = h
  Step-Stays (sets_maximum n s) l h = h
  Step-Stays (sets_callback n s) l h = h
  Step-Stays (sets_context c s) l h = h

found_lem :
    (fd conn : ℕ) (s : Server)
    → at_key fd s ≡ (ok (some conn), s)
    → lookup fd s.connections ≡ some (some conn)
unfolding at_key
found_lem fd conn s = go (lookup fd s.connections)
  where
    go : (o : Option (Option ℕ)) → enter fd o s ≡ (ok (some conn), s) → o ≡ some (some conn)
    go none e = let r = ap (λ x. x.0) e in absurd (cc)
    go (some p) e = let r = ap (λ x. x.0) e in cc

-- The changes that the second half may make for data to read.
abbrev pub Delivered : ℕ → Server → Result (Unit {0}) × Server → Type 0
Delivered conn t o = o ≡ (
  ok tt,
  record t { tasks = guarded (current t data_ready) conn ∷ t.tasks; log = read_lock conn ∷ t.log },
)

abbrev pub Missed : Server → Result (Unit {0}) × Server → Type 0
Missed t o = o ≡ (ok tt, record t { log = read_after_close ∷ t.log })

module _ (env : Env) (e : Event) (conn : ℕ) (t : Server) where
  second_look :
      e.hup ≡ false
      → e.err ≡ false
      → e.inp ≡ true
      → at_pointer env e (some conn) t ≡ deliver_to conn (lookup e.fd t.connections) t
  unfolding at_pointer notify_connection deliver
  second_look no_hup no_err has_data = simp (no_hup, no_err, has_data) refl

  no_second_look :
      e.hup ≡ false
      → e.err ≡ true
      → at_pointer env e (some conn) t ≡ (
        ok tt,
        record t { tasks = guarded (current t error) conn ∷ t.tasks; log = read_lock conn ∷ t.log },
      )
  unfolding at_pointer notify_connection
  no_second_look no_hup bad = simp (no_hup, bad) refl

-- In a state that a new server reaches, let the listener find a connection for an event that says
-- that there is data to read and nothing else, and let the other threads do anything, in any order,
-- before it goes on. Either the table still has that connection under the descriptor, and its
-- `DataReady` is queued with a read lock; or it has no entry any more, and a read after the close
-- is counted and nothing else done. If the event says that there is an error, too: the connection
-- is locked and its `Error` is queued, whether its entry is there or not.
pub event_between :
    (env : Env) (e : Event) (conn connected num_threads fd : ℕ) {s t : Server}
    → Reach (server connected num_threads fd) s
    → at_key e.fd s ≡ (ok (some conn), s)
    → OthersReach s t
    → e.hup ≡ false
    → e.err ≡ false
    → e.inp ≡ true
    → let o = at_pointer env e (some conn) t in
      (((lookup e.fd t.connections ≡ some (some conn)) × Delivered conn t o)
        ⊎ ((lookup e.fd t.connections ≡ none) × Missed t o))
      × (at_pointer env (record e { err = true }) (some conn) t ≡ (
        ok tt,
        record t { tasks = guarded (current t error) conn ∷ t.tasks; log = read_lock conn ∷ t.log },
      ))
event_between env e conn connected num_threads fd {s} {t} r found others no_hup no_err has_data = (
  outcome (lookup e.fd t.connections) (second_look env e conn t no_hup no_err has_data) stays.1,
  no_second_look env (record e { err = true }) conn t no_hup refl,
)
  where
    stays : Stays e.fd (some (some conn)) t
    stays =
        ReachBy-Keeps (λ s t st. Step-Stays e.fd (some (some conn)) st) others
          (Reach-IsOrdered connected num_threads fd r, inl (found_lem e.fd conn s found))

    outcome :
        (o : Option (Option ℕ)) {x : Result (Unit {0}) × Server}
        → x ≡ deliver_to conn o t
        → (o ≡ some (some conn)) ⊎ (o ≡ none)
        → ((o ≡ some (some conn)) × Delivered conn t x) ⊎ ((o ≡ none) × Missed t x)
    outcome o same (inl there) = inl (there, same ∙ ap (λ o. deliver_to conn o t) there)
    outcome o same (inr gone) = inr (gone, same ∙ ap (λ o. deliver_to conn o t) gone)
