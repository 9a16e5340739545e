-- ===== src/Server/Threads/Deadlock.antt =====
-- The reaper holds `connections_lock_` while it shuts a connection down, and `LockCallAndUnlock`
-- takes that lock before it gives the connection's own lock back.
use libsiot.Base.{ℕ, ◌≤◌, ◌<◌, ◌≡◌, refl, ap, Bool, true, false, some, List, ◌∷◌, ◌++◌, arith}
use libsiot.Server.{
  set_connection_callback, Server, server, Env, Effect, Task, Callback, guarded, bare, shut,
  connection_failed, read_lock, unlock, stop, set_max_idle, set_max_connections,
  set_server_ssl_context,
}
use libsiot.Server.Connections.{Table}
use libsiot.Server.Reaper.{is_due, reap_round}
use libsiot.Server.Idle.{AllLive}
use libsiot.Server.Threads.Shutdowns.{shutdowns, reap_shuts}
use libsiot.Server.Frame.{IsCalm, IsNeutral, IsUnguarded}
use libsiot.Server.Frame.Listening.{listen_round-Keeps, listen_body-Keeps}
use libsiot.Server.Frame.Reaping.{reap_round-Keeps, defer_shutdown-Keeps, run_calm-Keeps}
use libsiot.Server.Locks.{taken, given_back, owed, owed-split}
use libsiot.Server.Threads.{
  Step, listens, handles, watches, starts, reaps, runs, defers, stops, sets_idle, sets_maximum,
  sets_callback, sets_context, Reach, Reach-IsBalanced, ReachBy, ReachBy-Keeps,
}

-- Whether a closure takes `connections_lock_` before it does anything else: `LockCallAndUnlock`
-- does.
abbrev pub needs_connections_lock : Task → Bool
needs_connections_lock (guarded f c) = true
needs_connections_lock (bare f c) = false
needs_connections_lock (shut c) = false

-- A step that is not one of a closure that waits for `connections_lock_`. Of the other steps more
-- are let through than another holder of that lock would let.
abbrev pub IsLetThrough : {s t : Server} → Step s t → Type 0
IsLetThrough (runs env s before t after e) = needs_connections_lock t ≡ false
IsLetThrough (listens env w s) = Unit
IsLetThrough (handles env w s) = Unit
IsLetThrough (watches s) = Unit
IsLetThrough (starts s) = Unit
IsLetThrough (reaps env limit s) = Unit
IsLetThrough (defers c s) = Unit
IsLetThrough (stops s) = Unit
IsLetThrough (sets_idle n s) = Unit
IsLetThrough (sets_maximum n s) = Unit
IsLetThrough (sets_callback n s) = Unit
IsLetThrough (sets_context c s) = Unit

-- The states that may be reached while `connections_lock_` is held.
abbrev pub HeldReach : Server → Server → Type 0
HeldReach = ReachBy (λ s t st. IsLetThrough st)

-- Since a state with so many locks taken and given back, no lock on `c` has been given back.
abbrev NoneBack : ℕ → ℕ → ℕ → Server → Type 0
NoneBack c got back s = (given_back c s.log ≡ back) × (got ≤ taken c s.log)

module _ (c got back : ℕ) where
  emits :
      (e : Effect) (s : Server)
      → IsNeutral e
      → NoneBack c got back s
      → NoneBack c got back (record s { log = e ∷ s.log })
  emits (read_lock d) s n h = absurd n
  emits (unlock d) s n h = absurd n
  emits (connection_failed m) s n h = h
  emits e s n h = h

  locks :
      (f : Callback) (d : ℕ) (s : Server)
      → NoneBack c got back s
      → NoneBack c got back (record s { tasks = guarded f d ∷ s.tasks; log = read_lock d ∷ s.log })
  locks f d s h = (h.0, ground arith)

  NoneBack-IsCalm : IsCalm (NoneBack c got back)
  NoneBack-IsCalm = record {
    shrinks = record {
      emits = emits;
      queues = λ t s n e h. h;
      removes = λ k s h. h;
      dequeues = λ before after t s n e h. h;
    };
    locks = λ f d s e h. locks f d s h;
    registers = λ k v s h. h;
    enters = λ k s e h. h;
  }

  let_through : (t : Task) → needs_connections_lock t ≡ false → IsUnguarded t
  let_through (guarded f d) e = absurd (cc)
  let_through (bare f d) e = tt
  let_through (shut d) e = tt

  Step-NoneBack :
      {s t : Server} (st : Step s t)
      → IsLetThrough st
      → NoneBack c got back s
      → NoneBack c got back t
  unfolding set_connection_callback stop set_max_idle set_max_connections set_server_ssl_context
  Step-NoneBack (listens env w s) l h = listen_round-Keeps NoneBack-IsCalm env w s h
  Step-NoneBack (handles env w s) l h = listen_body-Keeps NoneBack-IsCalm env w s h
  Step-NoneBack (watches s) l h = h
  Step-NoneBack (starts s) l h = h
  Step-NoneBack (reaps env limit s) l h = reap_round-Keeps NoneBack-IsCalm.shrinks env limit s h
  Step-NoneBack (runs env s before t after e) l h =
      run_calm-Keeps NoneBack-IsCalm.shrinks env s before t after (let_through t l) e h
  Step-NoneBack (defers conn s) l h = defer_shutdown-Keeps NoneBack-IsCalm.shrinks conn s h
  Step-NoneBack (stops s) l h = h
  Step-NoneBack (sets_idle n s) l h = h
  Step-NoneBack (sets_maximum n s) l h = h
  Step-NoneBack (sets_callback n s) l h = h
  Step-NoneBack (sets_context x s) l h = h

owed-some :
    (c : ℕ) (f : Callback) (before after : List Task) → 0 < owed c (before ++ guarded f c ∷ after)
owed-some c f before after = let moved = owed-split c before after (guarded f c) in ground arith

held_lock_stays_out :
    (c connected num_threads fd : ℕ) (f : Callback) (before after : List Task) {s t : Server}
    → Reach (server connected num_threads fd) s
    → s.tasks ≡ before ++ guarded f c ∷ after
    → HeldReach s t
    → given_back c t.log < taken c t.log
held_lock_stays_out c connected num_threads fd f before after {s} {t} r queued held =
    let balanced = Reach-IsBalanced c connected num_threads fd r in
    let some_owed = owed-some c f before after in
    let same = ap (owed c) queued in
    let none_back =
      ReachBy-Keeps (λ _ _ st. Step-NoneBack c (taken c s.log) (given_back c s.log) st) held
        (refl, omega arith) in
    omega arith

-- In a state that a new server reaches, while it runs: if a connection is the first of the table
-- that is due, is not shut down yet, and a closure with a callback under a read lock on it is in
-- the pool, the reaper's round calls `Shutdown` on it; and as long as no closure runs that takes
-- `connections_lock_`, which the reaper holds in its round, whatever else the threads do, fewer
-- read locks on the connection have been given back than taken.
pub reaper_deadlock :
    (env : Env) (limit c key connected num_threads fd : ℕ) (f : Callback) (before after : List Task)
    (live rest : Table) {s t : Server}
    → Reach (server connected num_threads fd) s
    → s.running_ ≡ true
    → s.tasks ≡ before ++ guarded f c ∷ after
    → s.connections ≡ live ++ (key, some c) ∷ rest
    → AllLive env limit s.max_idle live
    → is_due env limit s.max_idle c ≡ true
    → env.is_shutdown c ≡ false
    → HeldReach s t
    → (shutdowns c s.log < shutdowns c (reap_round env limit s).1.log)
      × (given_back c t.log < taken c t.log)
reaper_deadlock env limit c key connected num_threads fd f before after live rest {s} r on queued
      table quiet due alive held =
    (
      reap_shuts env c limit key live rest s on table quiet due alive,
      held_lock_stays_out c connected num_threads fd f before after r queued held,
    )
