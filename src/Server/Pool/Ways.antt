-- ===== src/Server/Pool/Ways.antt =====
-- How the pool of a running server gets done with all that is queued, once one of its threads is
-- free.
use mathlib.Core.Path.{subst}
use libsiot.Base.{
  ℕ, ◌<◌, ◌≡◌, refl, sym, ap, ◌∙◌, List, [], ◌∷◌, ◌++◌, length, append_assoc, append-nil, arith,
}
use libsiot.Server.{Server, Env, Task, guarded, bare, shut}
use libsiot.Server.Registry.{run_task, lock_call_and_unlock}
use libsiot.Server.Locks.{owed}
use libsiot.Server.Threads.Deletion.{shutdown_connection-IsQuiet}
use libsiot.Server.Pool.{
  Pool, waits_for, PoolStep, takes, proceeds, ends, PoolReach, pool_here, pool_next,
  PoolReach-trans,
}
use libsiot.Server.Pool.Stuck.{IsSound, PoolReach-IsSound}

-- Closures that are all calls of `Shutdown`.
abbrev AllShut : List Task → Type 0
AllShut [] = Unit
AllShut (guarded f c ∷ ts) = ⊥
AllShut (bare f c ∷ ts) = ⊥
AllShut (shut c ∷ ts) = AllShut ts

AllShut-append : (ts us : List Task) → AllShut ts → AllShut us → AllShut (ts ++ us)
AllShut-append [] us h k = k
AllShut-append (guarded f c ∷ ts) us h k = absurd h
AllShut-append (bare f c ∷ ts) us h k = absurd h
AllShut-append (shut c ∷ ts) us h k = AllShut-append ts us h k

none_owed : (c : ℕ) (ts : List Task) → AllShut ts → owed c ts ≡ 0
none_owed c [] h = refl
none_owed c (guarded f d ∷ ts) h = absurd h
none_owed c (bare f d ∷ ts) h = absurd h
none_owed c (shut d ∷ ts) h = none_owed c ts h

-- None of the connections has a queued closure with a read lock on it.
abbrev pub NoneOwed : List ℕ → Server → Type 0
NoneOwed [] s = Unit
NoneOwed (c ∷ cs) s = (owed c s.tasks ≡ 0) × NoneOwed cs s

shut-NoneOwed : (cs : List ℕ) (s : Server) → AllShut s.tasks → NoneOwed cs s
shut-NoneOwed [] s shuts = tt
shut-NoneOwed (c ∷ cs) s shuts = (none_owed c s.tasks shuts, shut-NoneOwed cs s shuts)

module _ (owned : ℕ → List ℕ) where
  -- A state of the pool behind `p`.
  pub record Later (p : Pool) (P : Pool → Type 0) : Type 0 where
    pub then_ : Pool
    pub reached : PoolReach owned p then_
    pub holds : P then_

  after_reach : {p q : Pool} {P : Pool → Type 0} → PoolReach owned p q → Later q P → Later p P
  after_reach r l = record {
    then_ = l.then_;
    reached = PoolReach-trans r l.reached;
    holds = l.holds;
  }

  -- A `Shutdown` gets one lock after the other, and ends.
  pub one_through :
      (before : List (List ℕ)) (cs : List ℕ) (after : List (List ℕ)) (p : Pool)
      → p.waiting ≡ before ++ cs ∷ after
      → NoneOwed cs p.server_
      → IsSound p
      → PoolReach owned p (record p { waiting = before ++ after })
  one_through before [] after p e none_there sound = pool_next pool_here (ends p before after e)
  one_through before (c ∷ cs) after p e (none_there, rest) sound =
      let balanced = sound c in
      PoolReach-trans (pool_next pool_here (proceeds p before c cs after e (omega arith)))
        (one_through before cs after (record p { waiting = before ++ cs ∷ after }) refl rest sound)

  -- So does every one, where the queue has nothing but calls of `Shutdown`.
  released :
      (css : List (List ℕ)) (p : Pool)
      → p.waiting ≡ css
      → AllShut p.server_.tasks
      → IsSound p
      → Later p (λ q. (q.server_ ≡ p.server_) × (q.waiting ≡ []) × (q.workers ≡ p.workers))
  released [] p e shuts sound = record { then_ = p; reached = pool_here; holds = (refl, e, refl) }
  released (cs ∷ css) p e shuts sound =
      after_reach (one_through [] cs css p e (shut-NoneOwed cs p.server_ shuts) sound)
        (released css (record p { waiting = css }) refl shuts sound)

  module _ (env : Env) where
    taken_up :
        (before : List Task) (t : Task) (after : List Task) (p : Pool) {P : Pool → Type 0}
        → p.server_.tasks ≡ before ++ t ∷ after
        → length p.waiting < p.workers
        → Later
            (record p {
              server_ = (run_task env t (record p.server_ { tasks = before ++ after })).1;
              waiting = waits_for owned t ++ p.waiting;
            })
            P
        → Later p P
    taken_up before t after p e free l =
        after_reach (pool_next pool_here (takes env p before t after e free)) l

    -- The closures that are no calls of `Shutdown` run first.
    cleared :
        (before rest : List Task) (p : Pool)
        → AllShut before
        → p.server_.tasks ≡ before ++ rest
        → length p.waiting < p.workers
        → Later p (λ q. AllShut q.server_.tasks × (q.waiting ≡ p.waiting) × (q.workers ≡ p.workers))
    unfolding run_task lock_call_and_unlock
    cleared before [] p shuts e free = record {
      then_ = p;
      reached = pool_here;
      holds = (subst AllShut (sym (e ∙ append-nil before)) shuts, refl, refl);
    }
    cleared before (shut c ∷ rest) p shuts e free =
        cleared (before ++ shut c ∷ []) rest p (AllShut-append before (shut c ∷ []) shuts tt)
          (e ∙ sym (append_assoc before (shut c ∷ []) rest)) free
    cleared before (guarded f c ∷ rest) p shuts e free =
        taken_up before (guarded f c) rest p e free (cleared before rest _ shuts refl free)
    cleared before (bare f c ∷ rest) p shuts e free =
        taken_up before (bare f c) rest p e free (cleared before rest _ shuts refl free)

    -- At last one thread after the other shuts its connection down.
    shut_down :
        (ts : List Task) (p : Pool)
        → p.server_.tasks ≡ ts
        → AllShut ts
        → p.waiting ≡ []
        → 0 < p.workers
        → IsSound p
        → Later p (λ q. (q.server_.tasks ≡ []) × (q.waiting ≡ []))
    unfolding run_task
    shut_down [] p e shuts none_waits some_thread sound = record {
      then_ = p;
      reached = pool_here;
      holds = (e, none_waits);
    }
    shut_down (guarded f c ∷ ts) p e shuts none_waits some_thread sound = absurd shuts
    shut_down (bare f c ∷ ts) p e shuts none_waits some_thread sound = absurd shuts
    shut_down (shut c ∷ ts) p e shuts none_waits some_thread sound =
        let none_long = ap length none_waits in
        let t = (run_task env (shut c) (record p.server_ { tasks = ts })).1 in
        let st : PoolStep owned p (record p { server_ = t; waiting = (c ∷ owned c) ∷ p.waiting }) =
          takes env p [] (shut c) ts e (omega arith) in
        let sound' = PoolReach-IsSound (pool_next pool_here st) sound in
        let quiet = shutdown_connection-IsQuiet env c (record p.server_ { tasks = ts }) in
        let shuts' : AllShut t.tasks = subst AllShut (sym quiet.0) shuts in
        after_reach
          (PoolReach-trans (pool_next pool_here st) (
            one_through [] (c ∷ owned c) p.waiting _ refl (shut-NoneOwed (c ∷ owned c) t shuts')
              sound'))
          (shut_down ts _ quiet.0 shuts none_waits some_thread sound')

    pub drained :
        (p : Pool)
        → length p.waiting < p.workers
        → IsSound p
        → Later p (λ q. (q.server_.tasks ≡ []) × (q.waiting ≡ []))
    drained p free sound =
        let first = cleared [] p.server_.tasks p tt refl free in
        let (shuts, same, threads) = first.holds in
        let second =
          released first.then_.waiting first.then_ refl shuts
            (PoolReach-IsSound first.reached sound) in
        let (kept, none_waits, threads') = second.holds in
        let reached = PoolReach-trans first.reached second.reached in
        after_reach reached (
          shut_down second.then_.server_.tasks second.then_ refl
            (subst (λ s. AllShut s.tasks) (sym kept) shuts) none_waits (omega arith)
            (PoolReach-IsSound reached sound))
