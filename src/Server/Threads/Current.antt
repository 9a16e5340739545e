-- ===== src/Server/Threads/Current.antt =====
-- Which callback object the closures in the pool call: each has the one that was the server's when
-- it was queued.
use mathlib.Core.Path.{subst}
use libsiot.Base.{ℕ, ◌≡◌, refl, sym, List, [], ◌∷◌, ◌++◌}
use libsiot.Server.{
  Server, server, Env, Task, Callback, guarded, bare, shut, unlock, ran, callback_reset, stop,
  set_max_idle, set_max_connections, set_server_ssl_context, set_connection_callback,
}
use libsiot.Server.Registry.{run_task, lock_call_and_unlock}
use libsiot.Server.Frame.{IsFrame, IsOwn}
use libsiot.Server.Frame.Listening.{listen_round-Keeps, listen_body-Keeps}
use libsiot.Server.Frame.Reaping.{reap_round-Keeps, defer_shutdown-Keeps, run_task-Keeps}
use libsiot.Server.Threads.{
  Step, listens, handles, watches, starts, reaps, runs, defers, stops, sets_idle, sets_maximum,
  sets_callback, sets_context, ReachBy, ReachBy-Keeps,
}

-- A closure that calls the callback object at `cb`, or none.
abbrev Calls : ℕ → Task → Type 0
Calls cb (guarded f c) = f.object ≡ cb
Calls cb (bare f c) = f.object ≡ cb
Calls cb (shut c) = Unit

abbrev AllCall : ℕ → List Task → Type 0
AllCall cb [] = Unit
AllCall cb (t ∷ ts) = Calls cb t × AllCall cb ts

AllCall-split :
    (cb : ℕ) (before after : List Task) (t : Task)
    → AllCall cb (before ++ t ∷ after)
    → Calls cb t × AllCall cb (before ++ after)
AllCall-split cb [] after t h = h
AllCall-split cb (u ∷ before) after t h =
    let (own, rest) = AllCall-split cb before after t h.1 in (own, (h.0, rest))

abbrev IsCurrent : Server → Type 0
IsCurrent s = AllCall s.callback s.tasks

own : (s : Server) (t : Task) → IsOwn s t → Calls s.callback t
own s (guarded f c) h = h
own s (bare f c) h = h
own s (shut c) h = h

without :
    (before after : List Task) (t : Task) (s : Server)
    → s.tasks ≡ before ++ t ∷ after
    → IsCurrent s
    → Calls s.callback t × AllCall s.callback (before ++ after)
without before after t s e h =
    AllCall-split s.callback before after t (subst (AllCall s.callback) e h)

IsCurrent-IsFrame : IsFrame IsCurrent
IsCurrent-IsFrame = record {
  calm = record {
    shrinks = record {
      emits = λ e s n h. h;
      queues = λ t s n e h. (own s t e, h);
      removes = λ k s h. h;
      dequeues = λ before after t s n e h. (without before after t s e h).1;
    };
    locks = λ f c s e h. (e, h);
    registers = λ k v s h. h;
    enters = λ k s e h. h;
  };
  finishes = λ before after f c s e h. (without before after (guarded f c) s e h).1;
}

-- A step in which `SetConnectionCallback` is not called, or is called while the pool has no
-- closure.
abbrev pub IsTimely : {s t : Server} → Step s t → Type 0
IsTimely (sets_callback n s) = s.tasks ≡ []
IsTimely (runs env s before t after e) = Unit
IsTimely (listens env w s) = Unit
IsTimely (handles env w s) = Unit
IsTimely (watches s) = Unit
IsTimely (starts s) = Unit
IsTimely (reaps env limit s) = Unit
IsTimely (defers c s) = Unit
IsTimely (stops s) = Unit
IsTimely (sets_idle n s) = Unit
IsTimely (sets_maximum n s) = Unit
IsTimely (sets_context c s) = Unit

abbrev pub TimelyReach : Server → Server → Type 0
TimelyReach = ReachBy (λ s t st. IsTimely st)

Step-IsCurrent : {s t : Server} (st : Step s t) → IsTimely st → IsCurrent s → IsCurrent t
unfolding stop set_max_idle set_max_connections set_server_ssl_context set_connection_callback
Step-IsCurrent (listens env w s) l h = listen_round-Keeps IsCurrent-IsFrame.calm env w s h
Step-IsCurrent (handles env w s) l h = listen_body-Keeps IsCurrent-IsFrame.calm env w s h
Step-IsCurrent (watches s) l h = h
Step-IsCurrent (starts s) l h = h
Step-IsCurrent (reaps env limit s) l h =
    reap_round-Keeps IsCurrent-IsFrame.calm.shrinks env limit s h
Step-IsCurrent (runs env s before t after e) l h =
    run_task-Keeps IsCurrent-IsFrame.calm.shrinks IsCurrent-IsFrame.finishes env s before t after e
      h
Step-IsCurrent (defers conn s) l h = defer_shutdown-Keeps IsCurrent-IsFrame.calm.shrinks conn s h
Step-IsCurrent (stops s) l h = h
Step-IsCurrent (sets_idle n s) l h = h
Step-IsCurrent (sets_maximum n s) l h = h
Step-IsCurrent (sets_callback n s) l h = subst (AllCall n) (sym l) tt
Step-IsCurrent (sets_context c s) l h = h

-- In every state that a new server reaches, if `SetConnectionCallback` is called only while the
-- pool has no closure: a closure with a callback under a read lock that waits in the pool calls the
-- server's callback object. If `SetConnectionCallback` is called then, the closure still calls the
-- object that was there before, which `connected_` has been told to give up.
pub reset_leaves_callbacks :
    (env : Env) (cb c connected num_threads fd : ℕ) (f : Callback) (before after : List Task)
    {s : Server}
    → TimelyReach (server connected num_threads fd) s
    → s.tasks ≡ before ++ guarded f c ∷ after
    → let t = set_connection_callback cb s in
      (f.object ≡ s.callback)
      × (t.callback ≡ cb)
      × (t.tasks ≡ before ++ guarded f c ∷ after)
      × ((run_task env (guarded f c) (record t { tasks = before ++ after })).1.log
          ≡ unlock c ∷ ran f c ∷ callback_reset cb ∷ s.log)
unfolding server set_connection_callback run_task lock_call_and_unlock
reset_leaves_callbacks env cb c connected num_threads fd f before after {s} r queued = (
  (without before after (guarded f c) s queued
      (ReachBy-Keeps (λ s t st. Step-IsCurrent st) r tt)).0,
  refl,
  queued,
  refl,
)
