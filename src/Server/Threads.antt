-- ===== src/Server/Threads.antt =====
-- The threads of a server in any order: what is kept in every state that they reach.
pub mod Final
pub mod Deletion
pub mod Loop
pub mod Watched
pub mod Current
pub mod Between
pub mod Shutdowns
pub mod Deadlock
use libsiot.Base.{ℕ, ◌+◌, ◌≡◌, refl, List, [], ◌∷◌, ◌++◌, Option, arith, some, none}
use libsiot.Base.Int.{ℤ}
use libsiot.SslContext.{ServerSslContext}
use libsiot.Server.{
  set_connection_callback, reaper_added, epoll_add, Server, server, Env, Task, stop, set_max_idle,
  set_max_connections, set_server_ssl_context,
}
use libsiot.Server.Connections.{Ascends, insert-Ascends, erase-Ascends}
use libsiot.Server.Registry.{defer_shutdown, run_task}
use libsiot.Server.Reaper.{reap_round}
use libsiot.Server.Rounds.{Wait, listen_round, listen_body}
use libsiot.Server.Locks.{IsBalanced, IsBalanced-IsFrame}
use libsiot.Server.Frame.{IsFrame}
use libsiot.Server.Frame.Listening.{listen_round-Keeps, listen_body-Keeps}
use libsiot.Server.Frame.Reaping.{reap_round-Keeps, run_task-Keeps, defer_shutdown-Keeps}

-- What a thread of the program does next: the listener gives the reaper to the pool, asks the
-- kernel to watch its socket, or handles what `epoll_wait` returns, with its test of `running_`
-- just before or longer ago, the reaper wakes, a thread of the pool runs one of the queued
-- closures, or the program calls `DeferShutdown`, `Shutdown` or a setter.
pub data Step : Server → Server → Type 0 where
  listens : (env : Env) (w : Wait) (s : Server) → Step s (listen_round env w s).1
  handles : (env : Env) (w : Wait) (s : Server) → Step s (listen_body env w s).1
  watches : (s : Server) → Step s (record s { log = epoll_add s.serverfd ∷ s.log })
  starts : (s : Server) → Step s (record s { log = reaper_added ∷ s.log })
  reaps : (env : Env) (limit : ℕ) (s : Server) → Step s (reap_round env limit s).1
  runs :
      (env : Env) (s : Server) (before : List Task) (t : Task) (after : List Task)
      → s.tasks ≡ before ++ t ∷ after
      → Step s (run_task env t (record s { tasks = before ++ after })).1
  defers : (conn : ℕ) (s : Server) → Step s (defer_shutdown conn s).1
  stops : (s : Server) → Step s (stop s)
  sets_idle : (n : ℤ) (s : Server) → Step s (set_max_idle n s)
  sets_maximum : (n : ℤ) (s : Server) → Step s (set_max_connections n s)
  sets_callback : (n : ℕ) (s : Server) → Step s (set_connection_callback n s)
  sets_context : (c : Option ServerSslContext) (s : Server) → Step s (set_server_ssl_context c s)

pub data Reach (s : Server) : Server → Type 0 where
  here : Reach s s
  next : {t u : Server} → Reach s t → Step t u → Reach s u

-- The same, by steps that a condition lets through.
pub data ReachBy (Allows : (s t : Server) → Step s t → Type 0) (s : Server) : Server → Type 0 where
  by_none : ReachBy Allows s s
  by_next :
      {t u : Server} → ReachBy Allows s t → (st : Step t u) → Allows t u st → ReachBy Allows s u

module _ {Allows : (s t : Server) → Step s t → Type 0} {P : Server → Type 0}
    (keeps : (s t : Server) (st : Step s t) → Allows s t st → P s → P t) where
  pub ReachBy-Keeps : {s t : Server} → ReachBy Allows s t → P s → P t
  ReachBy-Keeps by_none h = h
  ReachBy-Keeps (by_next {t} {u} r st l) h = keeps t u st l (ReachBy-Keeps r h)

-- The setters and `Shutdown` keep `P`, and so does the call of `epoll_ctl` for the listening
-- socket.
pub record IsUnset (P : Server → Type 0) : Type 0 where
  pub stops : (s : Server) → P s → P (stop s)
  pub idles : (n : ℤ) (s : Server) → P s → P (set_max_idle n s)
  pub maxima : (n : ℤ) (s : Server) → P s → P (set_max_connections n s)
  pub callbacks : (n : ℕ) (s : Server) → P s → P (set_connection_callback n s)
  pub contexts : (c : Option ServerSslContext) (s : Server) → P s → P (set_server_ssl_context c s)
  pub watches : (s : Server) → P s → P (record s { log = epoll_add s.serverfd ∷ s.log })

module _ {P : Server → Type 0} (frame : IsFrame P) (unset : IsUnset P) where
  Step-Keeps : {s t : Server} → Step s t → P s → P t
  Step-Keeps (listens env w s) h = listen_round-Keeps frame.calm env w s h
  Step-Keeps (handles env w s) h = listen_body-Keeps frame.calm env w s h
  Step-Keeps (watches s) h = unset.watches s h
  Step-Keeps (starts s) h = frame.calm.shrinks.emits reaper_added s tt h
  Step-Keeps (reaps env limit s) h = reap_round-Keeps frame.calm.shrinks env limit s h
  Step-Keeps (runs env s before t after e) h =
      run_task-Keeps frame.calm.shrinks frame.finishes env s before t after e h
  Step-Keeps (defers conn s) h = defer_shutdown-Keeps frame.calm.shrinks conn s h
  Step-Keeps (stops s) h = unset.stops s h
  Step-Keeps (sets_idle n s) h = unset.idles n s h
  Step-Keeps (sets_maximum n s) h = unset.maxima n s h
  Step-Keeps (sets_callback n s) h = unset.callbacks n s h
  Step-Keeps (sets_context c s) h = unset.contexts c s h

  pub Reach-Keeps : {s t : Server} → Reach s t → P s → P t
  Reach-Keeps here h = h
  Reach-Keeps (next r st) h = Step-Keeps st (Reach-Keeps r h)

pub IsBalanced-IsUnset : (c : ℕ) → IsUnset (IsBalanced c)
unfolding set_connection_callback stop set_max_idle set_max_connections set_server_ssl_context
IsBalanced-IsUnset c = record {
  stops = λ s h. h;
  idles = λ n s h. h;
  maxima = λ n s h. h;
  callbacks = λ n s h. h;
  contexts = λ c' s h. h;
  watches = λ s h. h;
}

-- In every state that a new server reaches by rounds of the listener and of the reaper, closures
-- that the pool runs in any order, and calls of `DeferShutdown`, `Shutdown` and the setters,
-- whatever the rest of the system answers: for each connection, the read locks that the server has
-- taken are as many as those that it has given back and those that its queued closures will give
-- back together. A state that an undefined step leaves is counted.
pub Reach-IsBalanced :
    (c connected num_threads fd : ℕ) {t : Server}
    → Reach (server connected num_threads fd) t
    → IsBalanced c t
unfolding server
Reach-IsBalanced c connected num_threads fd r =
    Reach-Keeps (IsBalanced-IsFrame c) (IsBalanced-IsUnset c) r (omega arith)

-- The keys of the table ascend.
abbrev pub IsOrdered : Server → Type 0
IsOrdered s = Ascends 0 s.connections

IsOrdered-IsFrame : IsFrame IsOrdered
IsOrdered-IsFrame = record {
  calm = record {
    shrinks = record {
      emits = λ e s n h. h;
      queues = λ t s n e h. h;
      removes = λ k s h. erase-Ascends 0 k s.connections h;
      dequeues = λ before after t s n e h. h;
    };
    locks = λ f c s e h. h;
    registers = λ k v s h. insert-Ascends 0 k (some v) s.connections (omega arith) h;
    enters = λ k s e h. insert-Ascends 0 k none s.connections (omega arith) h;
  };
  finishes = λ before after f c s e h. h;
}

IsOrdered-IsUnset : IsUnset IsOrdered
unfolding set_connection_callback stop set_max_idle set_max_connections set_server_ssl_context
IsOrdered-IsUnset = record {
  stops = λ s h. h;
  idles = λ n s h. h;
  maxima = λ n s h. h;
  callbacks = λ n s h. h;
  contexts = λ c s h. h;
  watches = λ s h. h;
}

-- In every state that a new server reaches, by the same steps, the keys of its table of connections
-- ascend strictly: no descriptor has two entries.
pub Reach-IsOrdered :
    (connected num_threads fd : ℕ) {t : Server}
    → Reach (server connected num_threads fd) t
    → IsOrdered t
unfolding server
Reach-IsOrdered connected num_threads fd r = Reach-Keeps IsOrdered-IsFrame IsOrdered-IsUnset r tt
