-- ===== src/Decorator/Closing.antt =====
-- The `Shutdown` that two of the decorators share.
use mathlib.Core.Path.{subst}
use libsiot.Base.{
  ℕ, ◌≡◌, refl, ap, ◌∙◌, Bool, true, false, List, [], ◌∷◌, ◌++◌, skip, ◌>>◌, Action, if◌then◌else◌,
  append_assoc,
}
use libsiot.Connection.{Runtime, Connection, deregister}
use libsiot.Connection.Closing.{
  Deed, destroyed, locked, View, Logs, IsLogged, IsClosable, Logs->>, deregister-Logs, dequeued_by,
  >>-ok,
}
use libsiot.Decorator.{Decorator, forward, forward_runtime, decorator_object}

-- A decorator leaves the server of what it wraps, takes its lock, shuts the wrapped connection down
-- if it owns it, and goes. Its server is that of what it wraps.
abbrev pub around : ℕ → Bool → View → View
around self owned v = (
  destroyed self ∷ ((if owned then v.0 else []) ++ locked self ∷ []) ++ dequeued_by v.1 self,
  v.1,
)

abbrev pub decorated_view : {F S : Type 0} → (S → View) → Decorator F S → View
decorated_view view d = around d.self d.owned (view d.wrapped)

module _ {F S : Type 0} {trace : S → List Deed} {view : S → View} (rt : Runtime S)
    (logged : IsLogged rt trace view) where
  seen_through :
      (h : ℕ → Bool → View → View)
      → IsLogged
          (forward_runtime {F = F} rt)
          (λ d. trace d.wrapped)
          (λ d. h d.self d.owned (view d.wrapped))
  seen_through h = record {
    dequeues = λ srv c d.
        let l = logged.dequeues srv c d.wrapped in record { returns = l.returns; logs = l.logs };
    dequeue_same = λ srv c d. ap (h d.self d.owned) (logged.dequeue_same srv c d.wrapped);
    locks =
        λ c d. let l = logged.locks c d.wrapped in record { returns = l.returns; logs = l.logs };
    lock_same = λ c d. ap (h d.self d.owned) (logged.lock_same c d.wrapped);
    destroys =
        λ c d. let l = logged.destroys c d.wrapped in record { returns = l.returns; logs = l.logs };
  }

  -- What a runtime logs for a connection, it logs for a decorator around it.
  pub forward_runtime-IsLogged :
      IsLogged (forward_runtime {F = F} rt) (λ d. trace d.wrapped) (decorated_view view)
  forward_runtime-IsLogged = seen_through around

  module _ (conn : Connection S) (closable : IsClosable conn trace view) where
    shut_wrapped-Logs :
        (owned : Bool) (d : Decorator F S)
        → Logs
            (λ q. trace q.wrapped)
            d
            (if owned then (view d.wrapped).0 else [])
            ((if owned then forward conn.shutdown else skip) d)
    shut_wrapped-Logs true d =
        let l = closable.shuts d.wrapped in record { returns = l.returns; logs = l.logs }
    shut_wrapped-Logs false d = record { returns = refl; logs = refl }

    -- The steps of `Shutdown` of the decorators that have nothing left to read, of the decorator
    -- `d`.
    abbrev pub leave_server : Action (Decorator F S) (Unit {0})
    leave_server = deregister (forward_runtime rt) (decorator_object conn skip)

    abbrev pub shut_wrapped : Bool → Action (Decorator F S) (Unit {0})
    shut_wrapped owned = if owned then forward conn.shutdown else skip

    abbrev pub close_and_go : Decorator F S → Action (Decorator F S) (Unit {0})
    close_and_go d = shut_wrapped d.owned >> (forward_runtime rt).destroy d.self

    abbrev pub shutdown_steps : Decorator F S → Action (Decorator F S) (Unit {0})
    shutdown_steps d = leave_server >> ((forward_runtime rt).lock d.self >> close_and_go d)

    -- The state behind the lock.
    abbrev pub locked_state : Decorator F S → Decorator F S
    locked_state d = ((forward_runtime rt).lock d.self (leave_server d).1).1

    -- Up to the lock, `Shutdown` comes back, and what is to come is as before.
    pub behind_lock :
        (d : Decorator F S) (k : Action (Decorator F S) (Unit {0}))
        → ((leave_server >> ((forward_runtime rt).lock d.self >> k)) d ≡ k (locked_state d))
          × (trace (locked_state d).wrapped
              ≡ (locked d.self ∷ dequeued_by (view d.wrapped).1 d.self) ++ trace d.wrapped)
          × (view (locked_state d).wrapped ≡ view d.wrapped)
    behind_lock d k =
        let logged' = seen_through (λ _ _ v. v) in
        let leave =
          deregister-Logs (forward_runtime rt) logged' (decorator_object conn skip)
            (λ q. (refl, refl)) d in
        let d1 = (leave_server d).1 in
        let lock = logged'.locks d.self d1 in
        (
          >>-ok leave_server ((forward_runtime rt).lock d.self >> k) d leave.0.returns
              ∙ >>-ok ((forward_runtime rt).lock d.self) k d1 lock.returns,
          lock.logs
              ∙ ap (λ l. locked d.self ∷ l)
                  (leave.0.logs
                    ∙ ap (λ v. dequeued_by v d.self ++ trace d.wrapped)
                        (closable.serves d.wrapped)),
          logged'.lock_same d.self d1 ∙ leave.1,
        )

    -- What is left to do behind the lock.
    pub close_and_go-Logs :
        (d q : Decorator F S)
        → view q.wrapped ≡ view d.wrapped
        → Logs
            (λ q. trace q.wrapped)
            q
            (destroyed d.self ∷ (if d.owned then (view d.wrapped).0 else []))
            (close_and_go d q)
    close_and_go-Logs d q same =
        let logged' = seen_through (λ _ _ v. v) in
        Logs->> (shut_wrapped d.owned) ((forward_runtime rt).destroy d.self) q
          (subst
            (λ v.
              Logs (λ q. trace q.wrapped) q (if d.owned then v.0 else []) (shut_wrapped d.owned q))
            same (shut_wrapped-Logs d.owned q))
          (logged'.destroys d.self (shut_wrapped d.owned q).1)

    pub decorated-Logs :
        (d : Decorator F S)
        → Logs (λ q. trace q.wrapped) d (decorated_view view d).0 (shutdown_steps d d)
    decorated-Logs d =
        let (all, before, same) = behind_lock d (close_and_go d) in
        let rest = close_and_go-Logs d (locked_state d) same in
        record {
          returns = ap (λ o. o.0) all ∙ rest.returns;
          logs =
              ap (λ o. trace o.1.wrapped) all
              ∙ rest.logs
              ∙ ap (λ l. (destroyed d.self ∷ (if d.owned then (view d.wrapped).0 else [])) ++ l)
                  before
              ∙ simp append_assoc;
        }
