-- ===== src/Server/Threads/Deletion.antt =====
-- Which closures of the pool may still run on a connection when its object is deleted: `Shutdown`
-- takes the writer's side of its lock first, which it gets once every read lock has been given
-- back.
use mathlib.Core.Path.{subst}
use libsiot.Base.{
  ℕ, ◌≡◌, ◌≢◌, refl, ap, sym, List, [], ◌∷◌, ◌++◌, Result, ok, Action, fault, ◌>>◌, Bool-cases, inl,
  inr, arith, throws, undefined, running,
}
use libsiot.Server.{Server, server, Env, Task, Callback, guarded, shutdown}
use libsiot.Server.Connections.{Table}
use libsiot.Server.Registry.{
  points_to, remove_entry, dequeue_from, dequeue_connection, shutdown_connection,
}
use libsiot.Server.Locks.{taken, given_back, owed, owed-split}
use libsiot.Server.Threads.{Reach, Reach-IsBalanced}

-- In every state that a new server reaches: once as many read locks on a connection have been given
-- back as were taken, so that `Shutdown` may delete it, no closure with a callback under a read
-- lock on it is left in the pool.
pub unlocked_has_no_guarded :
    (c connected num_threads fd : ℕ) (before after : List Task) (f : Callback) {t : Server}
    → Reach (server connected num_threads fd) t
    → taken c t.log ≡ given_back c t.log
    → t.tasks ≢ before ++ guarded f c ∷ after
unlocked_has_no_guarded c connected num_threads fd before after f r free e =
    let balanced = Reach-IsBalanced c connected num_threads fd r in
    let queued = ap (owed c) e in
    let moved = owed-split c before after (guarded f c) in ground arith

-- The changes of `Shutdown` to a server: no closure is queued, and no lock is taken or given back.
abbrev pub IsQuiet : Server → Server → Type 0
IsQuiet s t =
    (t.tasks ≡ s.tasks)
    × ((c : ℕ) → (taken c t.log ≡ taken c s.log) × (given_back c t.log ≡ given_back c s.log))

remove_entry-IsQuiet : (env : Env) (fd : ℕ) (s : Server) → IsQuiet s (remove_entry env fd s).1
unfolding remove_entry
remove_entry-IsQuiet env fd s = (ground arith, λ c. ground arith)

pub behind_fault :
    {A : Type 0} (m : Action Server A) (s : Server) → ((m >> fault {A = Unit {0}}) s).1 ≡ (m s).1
behind_fault {A} m s = go (m s)
  where
    go : (o : Result A × Server) → (((λ _. o) >> fault {A = Unit {0}}) s).1 ≡ o.1
    go (ok a, t) = refl
    go (throws e, t) = refl
    go (undefined, t) = refl
    go (running, t) = refl

dequeue_from-IsQuiet :
    (env : Env) (conn : ℕ) (m : Table) (s : Server) → IsQuiet s (dequeue_from env conn m s).1
unfolding dequeue_from
dequeue_from-IsQuiet env conn [] s = (refl, λ c. (refl, refl))
dequeue_from-IsQuiet env conn ((fd, p) ∷ m) s = elim (Bool-cases (points_to p conn)) [
  | inl here ↦ rw here (
      subst (IsQuiet s) (sym (behind_fault (remove_entry env fd) s))
        (remove_entry-IsQuiet env fd s))
  | inr there ↦ rw there (dequeue_from-IsQuiet env conn m s)
]

pub shutdown_connection-IsQuiet :
    (env : Env) (conn : ℕ) (s : Server) → IsQuiet s (shutdown_connection env conn s).1
unfolding shutdown_connection dequeue_connection
shutdown_connection-IsQuiet env conn s =
    dequeue_from-IsQuiet env conn s.connections (record s { log = shutdown conn ∷ s.log })
