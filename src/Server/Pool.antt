-- ===== src/Server/Pool.antt =====
-- The thread pool of a running server, `executor_`: it has `num_threads_ + 1` threads, of which one
-- runs the reaper. A thread that runs `Shutdown` waits for the lock of the connection, as long as a
-- read lock on it has not been given back, and then, where the connection is a decorator that owns
-- what it wraps, for the lock of that, and so on.
pub mod Stuck
pub mod Ways
pub mod Drain
use libsiot.Base.{ℕ, ◌≤◌, ◌<◌, ◌≡◌, refl, List, [], ◌∷◌, ◌++◌, length, arith}
use libsiot.Server.{Server, server, Env, Task, guarded, bare, shut}
use libsiot.Server.Registry.{run_task}
use libsiot.Server.Locks.{IsBalanced, taken, given_back}
use libsiot.Server.Threads.{
  Step, listens, handles, watches, starts, reaps, runs, defers, stops, sets_idle, sets_maximum,
  sets_callback, sets_context, Reach, here, next, Reach-IsBalanced,
}

-- The server, the threads besides the reaper's, and the connections whose `Shutdown` has been
-- called and waits for the lock, each in a thread of its own.
pub record Pool : Type 0 where
  pub server_ : Server
  pub workers : ℕ
  pub waiting : List (List ℕ)

-- The pool of a new server.
abbrev pub new_pool : ℕ → ℕ → ℕ → Pool
new_pool connected num_threads fd = record {
  server_ = server connected num_threads fd;
  workers = num_threads;
  waiting = [];
}

-- A step that needs no thread of the pool but the reaper's, and does not stop the server.
abbrev pub IsOutside : {s t : Server} → Step s t → Type 0
IsOutside (runs env s before t after e) = ⊥
IsOutside (stops s) = ⊥
IsOutside (listens env w s) = Unit
IsOutside (handles env w s) = Unit
IsOutside (watches s) = Unit
IsOutside (starts s) = Unit
IsOutside (reaps env limit s) = Unit
IsOutside (defers c s) = Unit
IsOutside (sets_idle n s) = Unit
IsOutside (sets_maximum n s) = Unit
IsOutside (sets_callback n s) = Unit
IsOutside (sets_context c s) = Unit

-- The connections whose locks a closure waits for, when it has deregistered its own. `owned c` are
-- the connections that `Shutdown` of `c` shuts down in turn: what `c` owns, what that owns, and so
-- on. These have no entry in the table, which has the decorators around them, so that their own
-- `Deregister` changes nothing.
abbrev pub waits_for : (ℕ → List ℕ) → Task → List (List ℕ)
waits_for owned (guarded f c) = []
waits_for owned (bare f c) = []
waits_for owned (shut c) = (c ∷ owned c) ∷ []

-- A thread of the pool that is free takes a closure, in any order; a `Shutdown` goes on to its next
-- lock once every read lock on its connection has been given back, and ends behind the last one.
pub data PoolStep (owned : ℕ → List ℕ) : Pool → Pool → Type 0 where
  outside :
      (p : Pool) {t : Server} (st : Step p.server_ t)
      → IsOutside st
      → PoolStep owned p (record p { server_ = t })
  takes :
      (env : Env) (p : Pool) (before : List Task) (t : Task) (after : List Task)
      → p.server_.tasks ≡ before ++ t ∷ after
      → length p.waiting < p.workers
      → PoolStep owned p (record p {
        server_ = (run_task env t (record p.server_ { tasks = before ++ after })).1;
        waiting = waits_for owned t ++ p.waiting;
      })
  proceeds :
      (p : Pool) (before : List (List ℕ)) (c : ℕ) (cs : List ℕ) (after : List (List ℕ))
      → p.waiting ≡ before ++ (c ∷ cs) ∷ after
      → taken c p.server_.log ≡ given_back c p.server_.log
      → PoolStep owned p (record p { waiting = before ++ cs ∷ after })
  ends :
      (p : Pool) (before after : List (List ℕ))
      → p.waiting ≡ before ++ [] ∷ after
      → PoolStep owned p (record p { waiting = before ++ after })

pub data PoolReach (owned : ℕ → List ℕ) (p : Pool) : Pool → Type 0 where
  pool_here : PoolReach owned p p
  pool_next : {q r : Pool} → PoolReach owned p q → PoolStep owned q r → PoolReach owned p r

pub PoolReach-trans :
    {owned : ℕ → List ℕ} {p q r : Pool}
    → PoolReach owned p q
    → PoolReach owned q r
    → PoolReach owned p r
PoolReach-trans a pool_here = a
PoolReach-trans a (pool_next b st) = pool_next (PoolReach-trans a b) st

-- The server's state is one that its threads reach.
pub PoolReach-Reach :
    {owned : ℕ → List ℕ} {s : Server} {p q : Pool}
    → Reach s p.server_
    → PoolReach owned p q
    → Reach s q.server_
PoolReach-Reach r pool_here = r
PoolReach-Reach r (pool_next b (outside q st o)) = next (PoolReach-Reach r b) st
PoolReach-Reach r (pool_next b (takes env q before t after e free)) =
    next (PoolReach-Reach r b) (runs env q.server_ before t after e)
PoolReach-Reach r (pool_next b (proceeds q before c cs after e free)) = PoolReach-Reach r b
PoolReach-Reach r (pool_next b (ends q before after e)) = PoolReach-Reach r b
