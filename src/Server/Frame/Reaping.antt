-- ===== src/Server/Frame/Reaping.antt =====
-- The reaper, the closures of the pool and the program's own calls keep what the elementary changes
-- keep.
use libsiot.Base.{
  ℕ, ◌≡◌, true, none, some, Option, List, [], ◌∷◌, ◌++◌, ok, fault, Bool-cases, inl, inr,
}
use libsiot.Server.{
  Server, Env, Task, Refusal, guarded, bare, shut, terminated, ran, call_now, current,
}
use libsiot.Server.Connections.{Table}
use libsiot.Server.Registry.{shutdown_connection, defer_shutdown, lock_call_and_unlock, run_task}
use libsiot.Server.Reaper.{
  is_due, report_refusal, unwatch, close_idle, reap_entry, reap_from, reap_round,
}
use libsiot.Server.Frame.{
  Finishes, IsShrinking, IsUnguarded, Keeps, Keeps->>, report-Keeps, shutdown_connection-Keeps,
}

module _ {P : Server → Type 0} (frame : IsShrinking P) where
  report_refusal-Keeps : (r : Option Refusal) → Keeps P (report_refusal r)
  report_refusal-Keeps none s h = h
  report_refusal-Keeps (some r) s h = report-Keeps frame r.message s h

  unwatch-Keeps : (env : Env) (fd : ℕ) → Keeps P (unwatch env fd)
  unfolding unwatch
  unwatch-Keeps env fd s h = report_refusal-Keeps (env.try_epoll_delete fd) _ (frame.removes fd s h)

  close_idle-Keeps : (env : Env) (conn : ℕ) → Keeps P (close_idle env conn)
  unfolding close_idle
  close_idle-Keeps env conn s h = elim (Bool-cases (env.is_shutdown conn)) [
    | inl down ↦ rw down h
    | inr open_ ↦ rw open_ (
        Keeps->> (shutdown_connection env conn) (call_now terminated conn)
          (shutdown_connection-Keeps frame env conn)
          (λ t k. frame.emits (ran (current t terminated) conn) t tt k) s h)
  ]

  reap_entry-Keeps : (env : Env) (fd conn : ℕ) → Keeps P (reap_entry env fd conn)
  unfolding reap_entry
  reap_entry-Keeps env fd conn =
      Keeps->> (unwatch env fd) (close_idle env conn) (unwatch-Keeps env fd)
        (close_idle-Keeps env conn)

  reap_from-Keeps : (env : Env) (limit : ℕ) (m : Table) → Keeps P (reap_from env limit m)
  unfolding reap_from
  reap_from-Keeps env limit [] s h = h
  reap_from-Keeps env limit ((fd, none) ∷ rest) s h = h
  reap_from-Keeps env limit ((fd, some conn) ∷ rest) s h =
      elim (Bool-cases (is_due env limit s.max_idle conn)) [
        | inl over ↦ rw over (
            Keeps->> (reap_entry env fd conn) (fault {A = Unit {0}}) (reap_entry-Keeps env fd conn)
              (λ t k. k) s h)
        | inr live ↦ rw live (reap_from-Keeps env limit rest s h)
      ]

  pub reap_round-Keeps : (env : Env) (limit : ℕ) → Keeps P (reap_round env limit)
  unfolding reap_round
  reap_round-Keeps env limit s h = elim (Bool-cases s.running_) [
    | inl on ↦ simp on (
        Keeps->> (reap_from env limit s.connections) (λ t. (ok true, t))
          (reap_from-Keeps env limit s.connections) (λ t k. k) s h)
    | inr off ↦ simp off h
  ]

  pub defer_shutdown-Keeps : (conn : ℕ) → Keeps P (defer_shutdown conn)
  unfolding defer_shutdown
  defer_shutdown-Keeps conn s h = frame.queues (shut conn) s tt tt h

  pub run_calm-Keeps :
      (env : Env) (s : Server) (before : List Task) (t : Task) (after : List Task)
      → IsUnguarded t
      → s.tasks ≡ before ++ t ∷ after
      → P s
      → P (run_task env t (record s { tasks = before ++ after })).1
  unfolding run_task
  run_calm-Keeps env s before (guarded f c) after n e h = absurd n
  run_calm-Keeps env s before (bare f c) after n e h =
      frame.emits (ran f c) _ tt (frame.dequeues before after (bare f c) s tt e h)
  run_calm-Keeps env s before (shut c) after n e h =
      shutdown_connection-Keeps frame env c (record s { tasks = before ++ after })
        (frame.dequeues before after (shut c) s tt e h)

pub run_task-Keeps :
    {P : Server → Type 0}
    → IsShrinking P
    → Finishes P
    → (env : Env) (s : Server) (before : List Task) (t : Task) (after : List Task)
    → s.tasks ≡ before ++ t ∷ after
    → P s
    → P (run_task env t (record s { tasks = before ++ after })).1
unfolding run_task lock_call_and_unlock
run_task-Keeps frame finishes env s before (guarded f c) after e h = finishes before after f c s e h
run_task-Keeps frame finishes env s before (bare f c) after e h =
    run_calm-Keeps frame env s before (bare f c) after tt e h
run_task-Keeps frame finishes env s before (shut c) after e h =
    run_calm-Keeps frame env s before (shut c) after tt e h
