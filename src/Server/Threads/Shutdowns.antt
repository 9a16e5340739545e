-- ===== src/Server/Threads/Shutdowns.antt =====
-- Which connection the reaper shuts down in a round.
use mathlib.Core.Path.{subst}
use libsiot.Base.{
  ℕ, suc, ◌≤◌, ◌<◌, ◌≡◌, refl, ap, ◌∙◌, sym, Bool, true, false, Option, none, some, List, [], ◌∷◌,
  ◌++◌, Result, ok, throws, undefined, running, modify, ◌>>◌, if◌then◌else◌, ◌==◌, arith,
}
use libsiot.Server.{
  Server, Env, Effect, Refusal, connection_failed, epoll_delete, read_lock, shutdown, terminated,
  call_now, emit, set_connections,
}
use libsiot.Server.Connections.{Table, erase}
use libsiot.Server.Registry.{shutdown_connection, dequeue_connection}
use libsiot.Server.Reaper.{
  is_due, report_refusal, unwatch, close_idle, reap_entry, reap_from, reap_round,
}
use libsiot.Server.Idle.{AllLive, reap_first_due}
use libsiot.Server.Frame.{IsShrinking, IsNeutral, Keeps->>, dequeue_from-Keeps}
use libsiot.Server.Threads.Deletion.{behind_fault}

-- How often `Shutdown` has been called on `c`.
abbrev pub shutdowns : ℕ → List Effect → ℕ
shutdowns c [] = 0
shutdowns c (shutdown d ∷ es) = if d == c then suc (shutdowns c es) else shutdowns c es
shutdowns c (e ∷ es) = shutdowns c es

abbrev AtLeast : ℕ → ℕ → Server → Type 0
AtLeast c n s = n ≤ shutdowns c s.log

module _ (c n : ℕ) where
  emits :
      (e : Effect) (s : Server)
      → IsNeutral e
      → AtLeast c n s
      → AtLeast c n (record s { log = e ∷ s.log })
  emits (shutdown d) s h k = ground arith
  emits (read_lock d) s h k = k
  emits (connection_failed m) s h k = k
  emits e s h k = k

  AtLeast-IsShrinking : IsShrinking (AtLeast c n)
  AtLeast-IsShrinking = record {
    emits = emits;
    queues = λ t s m e h. h;
    removes = λ k s h. h;
    dequeues = λ before after t s m e h. h;
  }

module _ (env : Env) (c : ℕ) where
  closes :
      (s : Server)
      → shutdowns c s.log
        < shutdowns c ((shutdown_connection env c >> call_now terminated c) s).1.log
  unfolding shutdown_connection dequeue_connection
  closes s =
      let k = suc (shutdowns c s.log) in
      let called : Server = record s { log = shutdown c ∷ s.log } in
      let more : k ≤ shutdowns c called.log = ground arith in
      Keeps->> (dequeue_connection env c) (call_now terminated c)
        (λ t. dequeue_from-Keeps (AtLeast-IsShrinking c k) env c t.connections t) (λ t h. h) called
        more

  entry-closes :
      (key : ℕ) (s : Server)
      → env.is_shutdown c ≡ false
      → shutdowns c s.log < shutdowns c (reap_entry env key c s).1.log
  unfolding reap_entry unwatch close_idle
  entry-closes key s alive = rw alive (go (env.try_epoll_delete key))
    where
      go :
          (r : Option Refusal)
          → shutdowns c s.log
            < shutdowns c
                (((do
                  modify (λ t. set_connections (erase key t.connections) t)
                  emit (epoll_delete key)
                  report_refusal r)
                    >> (do shutdown_connection env c; call_now terminated c))
                  s).1.log
      go none =
          closes
            (record s { connections = erase key s.connections; log = epoll_delete key ∷ s.log })
      go (some r) = closes _

  behind_round :
      (s : Server) (o : Result (Unit {0}) × Server) → (((λ _. o) >> (λ t. (ok true, t))) s).1 ≡ o.1
  behind_round s (ok a, t) = refl
  behind_round s (throws e, t) = refl
  behind_round s (undefined, t) = refl
  behind_round s (running, t) = refl

  choose : {A : Type 0} (b : Bool) (x y : A) → b ≡ true → (if b then x else y) ≡ x
  choose true x y e = refl
  choose false x y e = absurd (cc)

  -- The reaper, where it runs: it calls `Shutdown` on the first connection of the table that is
  -- due, if that is not shut down yet.
  pub reap_shuts :
      (limit key : ℕ) (before rest : Table) (s : Server)
      → s.running_ ≡ true
      → s.connections ≡ before ++ (key, some c) ∷ rest
      → AllLive env limit s.max_idle before
      → is_due env limit s.max_idle c ≡ true
      → env.is_shutdown c ≡ false
      → shutdowns c s.log < shutdowns c (reap_round env limit s).1.log
  unfolding reap_round
  reap_shuts limit key before rest s on table live due alive =
      let go_on =
        choose s.running_ ((reap_from env limit s.connections >> (λ t. (ok true, t))) s)
          (ok false, s) on in
      let first = (reap_first_due env limit key c before rest s live due).0 in
      let state : (reap_round env limit s).1 ≡ (reap_entry env key c s).1 =
        ap (λ o. o.1) go_on
        ∙ behind_round s (reap_from env limit s.connections s)
        ∙ ap (λ m. (reap_from env limit m s).1) table
        ∙ ap (λ o. o.1) first
        ∙ behind_fault (reap_entry env key c) s in
      subst (λ t. shutdowns c s.log < shutdowns c t.log) (sym state) (entry-closes key s alive)
