-- ===== src/Server/Pool/Stuck.antt =====
-- The pool whose threads all wait: nothing that happens outside it sets one of them free.
use mathlib.Core.Path.{subst}
use libsiot.Base.{
  ◌∙◌, ℕ, ◌≤◌, ◌<◌, ◌≡◌, ◌⊎◌, inl, inr, refl, ap, List, [], ◌∷◌, ◌++◌, length, length-append, arith,
}
use libsiot.Server.{
  Server, Task, guarded, bare, shut, stop, set_max_idle, set_max_connections,
  set_server_ssl_context, set_connection_callback,
}
use libsiot.Server.Locks.{IsBalanced, owed, unguarded, IsBalanced-IsFrame}
use libsiot.Server.Frame.{IsCalm, IsUnguarded}
use libsiot.Server.Frame.Listening.{listen_round-Keeps, listen_body-Keeps}
use libsiot.Server.Frame.Reaping.{reap_round-Keeps, defer_shutdown-Keeps}
use libsiot.Server.Threads.{
  Step, listens, handles, watches, starts, reaps, runs, defers, stops, sets_idle, sets_maximum,
  sets_callback, sets_context, here, Reach-IsBalanced, Reach-Keeps, IsBalanced-IsUnset,
}
use libsiot.Server.Pool.{
  Pool, new_pool, IsOutside, waits_for, PoolStep, outside, takes, proceeds, ends, PoolReach,
  pool_here, pool_next, PoolReach-Reach,
}

-- A queued closure will give a read lock on `c` back.
abbrev pub IsOwed : ℕ → Server → Type 0
IsOwed c s = 0 < owed c s.tasks

module _ (c : ℕ) where
  queues : (t : Task) (ts : List Task) → IsUnguarded t → 0 < owed c ts → 0 < owed c (t ∷ ts)
  queues (guarded f d) ts n h = absurd n
  queues (bare f d) ts n h = h
  queues (shut d) ts n h = h

  IsOwed-IsCalm : IsCalm (IsOwed c)
  IsOwed-IsCalm = record {
    shrinks = record {
      emits = λ e s n h. h;
      queues = λ t s n e h. queues t s.tasks n h;
      removes = λ k s h. h;
      dequeues = λ before after t s n e h.
          let moved = unguarded c before after t n in let same = ap (owed c) e in omega arith;
    };
    locks = λ f d s e h. ground arith;
    registers = λ k v s h. h;
    enters = λ k s e h. h;
  }

  Step-IsOwed : {s t : Server} (st : Step s t) → IsOutside st → IsOwed c s → IsOwed c t
  unfolding stop set_max_idle set_max_connections set_server_ssl_context set_connection_callback
  Step-IsOwed (listens env w s) o h = listen_round-Keeps IsOwed-IsCalm env w s h
  Step-IsOwed (handles env w s) o h = listen_body-Keeps IsOwed-IsCalm env w s h
  Step-IsOwed (watches s) o h = h
  Step-IsOwed (starts s) o h = h
  Step-IsOwed (reaps env limit s) o h = reap_round-Keeps IsOwed-IsCalm.shrinks env limit s h
  Step-IsOwed (runs env s before t after e) o h = absurd o
  Step-IsOwed (defers conn s) o h = defer_shutdown-Keeps IsOwed-IsCalm.shrinks conn s h
  Step-IsOwed (stops s) o h = absurd o
  Step-IsOwed (sets_idle n s) o h = h
  Step-IsOwed (sets_maximum n s) o h = h
  Step-IsOwed (sets_callback n s) o h = h
  Step-IsOwed (sets_context x s) o h = h

-- One of the connections has such a lock.
abbrev pub SomeOwed : List ℕ → Server → Type 0
SomeOwed [] s = ⊥
SomeOwed (c ∷ cs) s = IsOwed c s ⊎ SomeOwed cs s

abbrev pub AllBlocked : List (List ℕ) → Server → Type 0
AllBlocked [] s = Unit
AllBlocked (cs ∷ css) s = SomeOwed cs s × AllBlocked css s

-- Every thread is in a `Shutdown` that has still to get the lock of a connection on which a queued
-- closure has a read lock.
pub record IsStuck (p : Pool) : Type 0 where
  pub busy : length p.waiting ≡ p.workers
  pub held : AllBlocked p.waiting p.server_

Step-SomeOwed :
    (cs : List ℕ) {s t : Server} (st : Step s t) → IsOutside st → SomeOwed cs s → SomeOwed cs t
Step-SomeOwed [] st o h = absurd h
Step-SomeOwed (c ∷ cs) st o (inl h) = inl (Step-IsOwed c st o h)
Step-SomeOwed (c ∷ cs) st o (inr h) = inr (Step-SomeOwed cs st o h)

Step-AllBlocked :
    (css : List (List ℕ)) {s t : Server} (st : Step s t)
    → IsOutside st
    → AllBlocked css s
    → AllBlocked css t
Step-AllBlocked [] st o h = tt
Step-AllBlocked (cs ∷ css) st o h = (Step-SomeOwed cs st o h.0, Step-AllBlocked css st o h.1)

-- What is true of each `Shutdown` is so after one of them has gone on.
AllBlocked-moved :
    (before : List (List ℕ)) (c : ℕ) (cs : List ℕ) (after : List (List ℕ)) (s : Server)
    → ¬ (IsOwed c s)
    → AllBlocked (before ++ (c ∷ cs) ∷ after) s
    → AllBlocked (before ++ cs ∷ after) s
AllBlocked-moved [] c cs after s free (inl h, k) = absurd (free h)
AllBlocked-moved [] c cs after s free (inr h, k) = (h, k)
AllBlocked-moved (b ∷ before) c cs after s free (h, k) =
    (h, AllBlocked-moved before c cs after s free k)

AllBlocked-unended :
    (before after : List (List ℕ)) (s : Server) → ¬ (AllBlocked (before ++ [] ∷ after) s)
AllBlocked-unended [] after s h = h.0
AllBlocked-unended (b ∷ before) after s h = AllBlocked-unended before after s h.1

-- Every state of the pool of a server has its locks balanced.
abbrev pub IsSound : Pool → Type 0
IsSound p = (c : ℕ) → IsBalanced c p.server_

pub reached-IsSound :
    {owned : ℕ → List ℕ} (connected num_threads fd : ℕ) {p : Pool}
    → PoolReach owned (new_pool connected num_threads fd) p
    → IsSound p
reached-IsSound connected num_threads fd r c =
    Reach-IsBalanced c connected num_threads fd (PoolReach-Reach here r)

PoolStep-IsStuck :
    {owned : ℕ → List ℕ} {p q : Pool}
    → PoolStep owned p q
    → IsSound p
    → IsStuck p
    → IsStuck q × (length q.waiting ≡ length p.waiting)
PoolStep-IsStuck (outside p st o) sound stuck =
    (record { busy = stuck.busy; held = Step-AllBlocked p.waiting st o stuck.held }, refl)
PoolStep-IsStuck (takes env p before t after e free) sound stuck =
    let busy = stuck.busy in absurd (omega arith)
PoolStep-IsStuck (proceeds p before c cs after e free) sound stuck =
    let busy = stuck.busy in
    let long = ap length e in
    let here = length-append before ((c ∷ cs) ∷ after) in
    let there = length-append before (cs ∷ after) in
    let unowed : ¬ (IsOwed c p.server_) = λ h. let balanced = sound c in omega arith in
    (
      record {
        busy = omega arith;
        held =
            AllBlocked-moved before c cs after p.server_ unowed
              (subst (λ css. AllBlocked css p.server_) e stuck.held);
      },
      omega arith,
    )
PoolStep-IsStuck (ends p before after e) sound stuck = absurd (
    AllBlocked-unended before after p.server_
      (subst (λ css. AllBlocked css p.server_) e stuck.held))

-- The locks stay balanced.
pub PoolReach-IsSound :
    {owned : ℕ → List ℕ} {p q : Pool} → PoolReach owned p q → IsSound p → IsSound q
PoolReach-IsSound r sound c =
    Reach-Keeps (IsBalanced-IsFrame c) (IsBalanced-IsUnset c) (PoolReach-Reach here r) (sound c)

-- No thread ever becomes free again.
pub PoolReach-IsStuck :
    {owned : ℕ → List ℕ} {p q : Pool}
    → PoolReach owned p q
    → IsSound p
    → IsStuck p
    → IsStuck q × (length q.waiting ≡ length p.waiting)
PoolReach-IsStuck pool_here sound stuck = (stuck, refl)
PoolReach-IsStuck (pool_next r st) sound stuck =
    let (stuck', same) = PoolReach-IsStuck r sound stuck in
    let (stuck'', same') = PoolStep-IsStuck st (PoolReach-IsSound r sound) stuck' in
    (stuck'', same' ∙ same)

-- There are no more waiting connections than threads.
abbrev pub IsBounded : Pool → Type 0
IsBounded p = length p.waiting ≤ p.workers

PoolStep-IsBounded :
    {owned : ℕ → List ℕ} {p q : Pool}
    → PoolStep owned p q
    → IsBounded p
    → IsBounded q × (q.workers ≡ p.workers)
PoolStep-IsBounded (outside p st o) h = (h, refl)
PoolStep-IsBounded {owned} (takes env p before t after e free) h = (waits t free, refl)
  where
    waits :
        (t : Task)
        → length p.waiting < p.workers
        → length (waits_for owned t ++ p.waiting) ≤ p.workers
    waits (guarded f d) free = omega arith
    waits (bare f d) free = omega arith
    waits (shut d) free = omega arith
PoolStep-IsBounded (proceeds p before c cs after e free) h = (
  omega (
    arith,
    ap length e,
    length-append before ((c ∷ cs) ∷ after),
    length-append before (cs ∷ after),
  ),
  refl,
)
PoolStep-IsBounded (ends p before after e) h = (
  omega (arith, ap length e, length-append before ([] ∷ after), length-append before after),
  refl,
)

pub PoolReach-IsBounded :
    {owned : ℕ → List ℕ} {p q : Pool}
    → PoolReach owned p q
    → IsBounded p
    → IsBounded q × (q.workers ≡ p.workers)
PoolReach-IsBounded pool_here h = (h, refl)
PoolReach-IsBounded (pool_next r st) h =
    let (h', same) = PoolReach-IsBounded r h in
    let (h'', same') = PoolStep-IsBounded st h' in (h'', same' ∙ same)
