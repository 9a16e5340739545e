-- ===== src/Server/Pool/Drain.antt =====
-- When the pool of a running server can get done with all that is queued.
use native.Mathlib.Decide.{dec_lt}
use libsiot.Base.{
  ℕ, ◌≤◌, ◌<◌, ◌≡◌, ◌⊎◌, ◌↔◌, refl, sym, ap, ◌∙◌, List, [], ◌∷◌, ◌++◌, length, append_assoc, inl,
  inr, arith, length-append,
}
use libsiot.Server.{Server, Env}
use libsiot.Server.Locks.{owed}
use libsiot.Server.Pool.{Pool, new_pool, PoolReach, PoolReach-trans}
use libsiot.Server.Pool.Stuck.{
  IsSound, SomeOwed, AllBlocked, reached-IsSound, PoolReach-IsSound, PoolReach-IsStuck,
  PoolReach-IsBounded,
}
use libsiot.Server.Pool.Ways.{NoneOwed, Later, one_through, drained}

-- One of the calls of `Shutdown` need not wait for any of its locks.
abbrev pub AnyFree : List (List ℕ) → Server → Type 0
AnyFree [] s = ⊥
AnyFree (cs ∷ css) s = NoneOwed cs s ⊎ AnyFree css s

-- The pool of the server gets done with all that is queued, in some order.
abbrev pub Drains : (ℕ → List ℕ) → Pool → Type 0
Drains owned p = (q : Pool) × PoolReach owned p q × (q.server_.tasks ≡ []) × (q.waiting ≡ [])

some_or_none : (cs : List ℕ) (s : Server) → SomeOwed cs s ⊎ NoneOwed cs s
some_or_none [] s = inr tt
some_or_none (c ∷ cs) s = elim (dec_lt 0 (owed c s.tasks)) [
  | yes h ↦ inl (inl h)
  | no h ↦ elim (some_or_none cs s) [
    | inl later ↦ inl (inr later)
    | inr none_there ↦ inr (omega arith, none_there)
  ]
]

all_or_any : (css : List (List ℕ)) (s : Server) → AllBlocked css s ⊎ AnyFree css s
all_or_any [] s = inl tt
all_or_any (cs ∷ css) s = elim (some_or_none cs s) [
  | inr none_there ↦ inr (inl none_there)
  | inl h ↦ elim (all_or_any css s) [ inl all ↦ inl (h, all) | inr any ↦ inr (inr any) ]
]

-- A `Shutdown` that need not wait any more sets its thread free.
one_released :
    (owned : ℕ → List ℕ) (before css : List (List ℕ)) (p : Pool)
    → p.waiting ≡ before ++ css
    → AnyFree css p.server_
    → IsSound p
    → length p.waiting ≤ p.workers
    → Later owned p (λ q. length q.waiting < q.workers)
one_released owned before [] p e any sound bounded = absurd any
one_released owned before (cs ∷ css) p e (inl none_there) sound bounded = record {
  then_ = record p { waiting = before ++ css };
  reached = one_through owned before cs css p e none_there sound;
  holds = omega (arith, ap length e, length-append before (cs ∷ css), length-append before css);
}
one_released owned before (cs ∷ css) p e (inr any) sound bounded =
    one_released owned (before ++ cs ∷ []) css p (e ∙ sym (append_assoc before (cs ∷ []) css)) any
      sound bounded

pub Drains-iff :
    (owned : ℕ → List ℕ) (env : Env) (connected num_threads fd : ℕ) {p : Pool}
    → PoolReach owned (new_pool connected num_threads fd) p
    → 0 < num_threads
    → Drains owned p ↔ ((length p.waiting < num_threads) ⊎ AnyFree p.waiting p.server_)
Drains-iff owned env connected num_threads fd {p} r some_thread = (forth, back)
  where
    sound : IsSound p
    sound = reached-IsSound connected num_threads fd r

    bounds : (length p.waiting ≤ p.workers) × (p.workers ≡ num_threads)
    bounds = PoolReach-IsBounded r (omega arith)

    forth : Drains owned p → (length p.waiting < num_threads) ⊎ AnyFree p.waiting p.server_
    forth (q, reached, none_queued, none_waits) = elim (dec_lt (length p.waiting) num_threads) [
      | yes free ↦ inl free
      | no full ↦ elim (all_or_any p.waiting p.server_) [
        | inr any ↦ inr any
        | inl all ↦
            let (stuck, same) =
              PoolReach-IsStuck reached sound
                (record { busy = omega (arith, bounds.0, bounds.1); held = all }) in
            absurd (omega (arith, same, ap length none_waits, bounds.0, bounds.1))
      ]
    ]

    back : (length p.waiting < num_threads) ⊎ AnyFree p.waiting p.server_ → Drains owned p
    back (inl free) =
        let l = drained owned env p (omega (arith, bounds.1)) sound in
        (l.then_, l.reached, l.holds.0, l.holds.1)
    back (inr any) =
        let one = one_released owned [] p.waiting p refl any sound bounds.0 in
        let l = drained owned env one.then_ one.holds (PoolReach-IsSound one.reached sound) in
        (l.then_, PoolReach-trans one.reached l.reached, l.holds.0, l.holds.1)
