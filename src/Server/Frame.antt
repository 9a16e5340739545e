-- ===== src/Server/Frame.antt =====
-- What the listener, the reaper and the closures of the pool do to a server, step by step: a
-- property that the few elementary changes keep is kept by all of them, however they end.
pub mod Reaping
pub mod Listening
use libsiot.Base.{
  ℕ, suc, ◌≡◌, refl, Bool, true, false, Option, none, some, String, List, [], ◌∷◌, ◌++◌, Result, ok,
  throws, undefined, running, Action, ◌||◌, fault, modify, pure, skip, ◌>>=◌, ◌>>◌, if◌then◌else◌,
  ◌==◌, ltb, Bool-cases, inl, inr,
}
use libsiot.Server.{
  Server, Env, Effect, Task, Callback, Method, current, add_call, Accept, Refusal, refused,
  accepted, guarded, bare, shut, terminated, error, established, data_ready, connection_failed,
  accept_errors, client_connection_errors, epoll_errors, read_after_close, notify, epoll_add,
  epoll_delete, read_lock, unlock, shutdown, ran, emit, set_connections,
}
use libsiot.Server.Connections.{Table, lookup, insert, erase}
use libsiot.Server.Registry.{
  points_to, report, report_unless_ebadfd, remove_entry, dequeue_from, dequeue_connection,
  shutdown_connection,
}
use libsiot.Server.Listener.{
  Event, zero_event, announce, register, constructed, accept_by, accept_connection, at_pointer,
  enter, at_key, deliver_to, deliver, notify_connection, client_event, handle_event, handle_events,
}
use libsiot.Server.Rounds.{Wait, ready, wait_failed, round_of, listen_round}

-- A call outside that neither takes a read lock nor gives one back, and is not one of `epoll_ctl`.
abbrev pub IsNeutral : Effect → Type 0
IsNeutral (epoll_add d) = ⊥
IsNeutral (epoll_delete d) = ⊥
IsNeutral (read_lock d) = ⊥
IsNeutral (unlock d) = ⊥
IsNeutral e = Unit

-- A closure that gives no read lock back.
abbrev pub IsUnguarded : Task → Type 0
IsUnguarded (guarded f c) = ⊥
IsUnguarded (bare f c) = Unit
IsUnguarded (shut c) = Unit

-- A closure that calls the server's callback object, or none.
abbrev pub IsOwn : Server → Task → Type 0
IsOwn s (guarded f c) = f.object ≡ s.callback
IsOwn s (bare f c) = f.object ≡ s.callback
IsOwn s (shut c) = Unit

-- The elementary changes that add no entry to the table keep `P`: a call outside, a closure without
-- a lock that enters or leaves the queue, and an entry that goes and is no longer watched.
pub record IsShrinking (P : Server → Type 0) : Type 0 where
  pub emits : (e : Effect) (s : Server) → IsNeutral e → P s → P (record s { log = e ∷ s.log })
  pub queues :
      (t : Task) (s : Server)
      → IsUnguarded t
      → IsOwn s t
      → P s
      → P (record s { tasks = t ∷ s.tasks })
  pub removes :
      (k : ℕ) (s : Server)
      → P s
      → P (record s { connections = erase k s.connections; log = epoll_delete k ∷ s.log })
  pub dequeues :
      (before after : List Task) (t : Task) (s : Server)
      → IsUnguarded t
      → s.tasks ≡ before ++ t ∷ after
      → P s
      → P (record s { tasks = before ++ after })

-- The listener's changes do, too: a read lock with the closure that gives it back, a new entry that
-- is watched, and a null pointer that is entered for a missing one.
pub record IsCalm (P : Server → Type 0) : Type 0 where
  pub shrinks : IsShrinking P
  pub locks :
      (f : Callback) (c : ℕ) (s : Server)
      → f.object ≡ s.callback
      → P s
      → P (record s { tasks = guarded f c ∷ s.tasks; log = read_lock c ∷ s.log })
  pub registers :
      (k v : ℕ) (s : Server)
      → P s
      → P (record s { connections = insert k (some v) s.connections; log = epoll_add k ∷ s.log })
  pub enters :
      (k : ℕ) (s : Server)
      → lookup k s.connections ≡ none
      → P s
      → P (set_connections (insert k none s.connections) s)

-- A closure with a lock leaves the queue, runs, and gives the lock back.
abbrev pub Finishes : (Server → Type 0) → Type 0
Finishes P =
    (before after : List Task) (f : Callback) (c : ℕ) (s : Server)
    → s.tasks ≡ before ++ guarded f c ∷ after
    → P s
    → P (record s { tasks = before ++ after; log = unlock c ∷ ran f c ∷ s.log })

-- All of these keep `P`.
pub record IsFrame (P : Server → Type 0) : Type 0 where
  pub calm : IsCalm P
  pub finishes : Finishes P

-- An action that keeps `P`, however it ends.
abbrev pub Keeps : (Server → Type 0) → {A : Type 0} → Action Server A → Type 0
Keeps P m = (s : Server) → P s → P (m s).1

module _ {P : Server → Type 0} where
  pub Keeps->>= :
      {A B : Type 0} (m : Action Server A) (k : A → Action Server B)
      → Keeps P m
      → ((a : A) → Keeps P (k a))
      → Keeps P (m >>= k)
  Keeps->>= {A} {B} m k first later s h = go (m s) (first s h)
    where
      go : (o : Result A × Server) → P o.1 → P (((λ _. o) >>= k) s).1
      go (ok a, t) h' = later a t h'
      go (throws e, t) h' = h'
      go (undefined, t) h' = h'
      go (running, t) h' = h'

  pub Keeps->> :
      {A B : Type 0} (m : Action Server A) (k : Action Server B)
      → Keeps P m
      → Keeps P k
      → Keeps P (m >> k)
  Keeps->> m k first later = Keeps->>= m (λ _. k) first (λ _. later)

module _ {P : Server → Type 0} (frame : IsShrinking P) where
  pub emit-Keeps : (e : Effect) → IsNeutral e → Keeps P (emit e)
  emit-Keeps e n s h = frame.emits e s n h

  pub report-Keeps : (m : String) → Keeps P (report m)
  report-Keeps m =
      Keeps->> (emit (connection_failed _)) (emit (epoll_errors m)) (emit-Keeps _ tt)
        (emit-Keeps _ tt)

  report_unless_ebadfd-Keeps : (r : Option Refusal) → Keeps P (report_unless_ebadfd r)
  report_unless_ebadfd-Keeps none s h = h
  report_unless_ebadfd-Keeps (some r) s h = elim (Bool-cases r.is_ebadfd) [
    | inl gone ↦ simp gone h
    | inr other ↦ simp other (report-Keeps r.message s h)
  ]

  remove_entry-Keeps : (env : Env) (fd : ℕ) → Keeps P (remove_entry env fd)
  unfolding remove_entry
  remove_entry-Keeps env fd s h =
      Keeps->> (report_unless_ebadfd (env.try_epoll_delete fd)) (emit notify)
        (report_unless_ebadfd-Keeps (env.try_epoll_delete fd)) (emit-Keeps notify tt) _
        (frame.removes fd s h)

  pub dequeue_from-Keeps : (env : Env) (conn : ℕ) (m : Table) → Keeps P (dequeue_from env conn m)
  unfolding dequeue_from
  dequeue_from-Keeps env conn [] s h = h
  dequeue_from-Keeps env conn ((fd, p) ∷ rest) s h = elim (Bool-cases (points_to p conn)) [
    | inl here ↦ rw here (
        Keeps->> (remove_entry env fd) (fault {A = Unit {0}}) (remove_entry-Keeps env fd) (λ t k. k)
          s h)
    | inr there ↦ rw there (dequeue_from-Keeps env conn rest s h)
  ]

  pub shutdown_connection-Keeps : (env : Env) (conn : ℕ) → Keeps P (shutdown_connection env conn)
  unfolding shutdown_connection dequeue_connection
  shutdown_connection-Keeps env conn s h =
      dequeue_from-Keeps env conn s.connections (record s { log = shutdown conn ∷ s.log })
        (frame.emits (shutdown conn) s tt h)
