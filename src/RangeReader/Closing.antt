-- ===== src/RangeReader/Closing.antt =====
-- `RangeReaderDecorator::Shutdown`, which reads before it closes.
use mathlib.Core.Path.{subst}
use libsiot.Base.{
  ℕ, zero, suc, ◌-◌, ◌≡◌, refl, ap, ◌∙◌, sym, not, ◌&&◌, inl, inr, Bool-cases, List, [], ◌∷◌, ◌++◌,
  append_assoc, Result, ok, throws, undefined, running, modify, ◌>>◌, if◌then◌else◌, ltb,
}
use libsiot.Connection.{Connection, Runtime}
use libsiot.Connection.Closing.{Deed, destroyed, locked, dequeued_by, View, IsLogged, IsClosable}
use libsiot.Decorator.{forward-cases}
use libsiot.Decorator.Closing.{
  decorated_view, locked_state, close_and_go, close_and_go-Logs, behind_lock,
}
use libsiot.RangeReader.{RangeReader, drain, advance, shutdown}

-- `Receive` makes none of the calls, and leaves alone what `Shutdown` will do.
abbrev pub IsSilentReader : {S : Type 0} → Connection S → (S → List Deed) → (S → View) → Type 0
IsSilentReader {S} conn trace view =
    (n : ℕ) (s : S)
    → (trace (conn.receive n 0 s).1 ≡ trace s) × (view (conn.receive n 0 s).1 ≡ view s)

module _ {S : Type 0} {trace : S → List Deed} {view : S → View} (conn : Connection S)
    (silent : IsSilentReader conn trace view) where
  -- The loop makes none of the calls either, however it ends.
  drain-silent :
      (fuel : ℕ) (r : RangeReader S)
      → (trace (drain conn fuel r).1.wrapped ≡ trace r.wrapped)
        × (view (drain conn fuel r).1.wrapped ≡ view r.wrapped)
  unfolding drain
  drain-silent zero r = (refl, refl)
  drain-silent (suc fuel) r =
      elim (Bool-cases (ltb r.own.offset r.own.max_size && not (conn.is_eof r.wrapped))) [
        | inr stop ↦ rw stop (refl, refl)
        | inl go_on ↦ rw go_on (
            forward-cases
              (λ o. (trace o.1.wrapped ≡ trace r.wrapped) × (view o.1.wrapped ≡ view r.wrapped))
              (conn.receive (r.own.max_size - r.own.offset) 0)
              (λ d. modify (advance d) >> drain conn fuel) r
              (λ d s' e.
                let (logs, same) = drain-silent fuel (advance d (record r { wrapped = s' })) in
                let read = silent (r.own.max_size - r.own.offset) r.wrapped in
                (
                  logs ∙ ap (λ o. trace o.1) (sym e) ∙ read.0,
                  same ∙ ap (λ o. view o.1) (sym e) ∙ read.1,
                ))
              (λ x s' e.
                let read = silent (r.own.max_size - r.own.offset) r.wrapped in
                (ap (λ o. trace o.1) (sym e) ∙ read.0, ap (λ o. view o.1) (sym e) ∙ read.1))
              (λ s' e.
                let read = silent (r.own.max_size - r.own.offset) r.wrapped in
                (ap (λ o. trace o.1) (sym e) ∙ read.0, ap (λ o. view o.1) (sym e) ∙ read.1))
              (λ s' e.
                let read = silent (r.own.max_size - r.own.offset) r.wrapped in
                (ap (λ o. trace o.1) (sym e) ∙ read.0, ap (λ o. view o.1) (sym e) ∙ read.1)))
      ]

  -- How `Shutdown` may end that began at `r`.
  abbrev pub Closes : RangeReader S → Result (Unit {0}) × RangeReader S → Type 0
  Closes r (ok _, q) = trace q.wrapped ≡ (decorated_view view r).0 ++ trace r.wrapped
  Closes r (throws x, q) =
      trace q.wrapped ≡ (locked r.self ∷ dequeued_by (view r.wrapped).1 r.self) ++ trace r.wrapped
  Closes r (undefined, q) =
      trace q.wrapped ≡ (locked r.self ∷ dequeued_by (view r.wrapped).1 r.self) ++ trace r.wrapped
  Closes r (running, q) =
      trace q.wrapped ≡ (locked r.self ∷ dequeued_by (view r.wrapped).1 r.self) ++ trace r.wrapped

  Closes-ok :
      (r : RangeReader S) (o : Result (Unit {0}) × RangeReader S)
      → o.0 ≡ ok tt
      → trace o.1.wrapped ≡ (decorated_view view r).0 ++ trace r.wrapped
      → Closes r o
  Closes-ok r (ok _, q) e h = h
  Closes-ok r (throws x, q) e h = absurd (cc)
  Closes-ok r (undefined, q) e h = absurd (cc)
  Closes-ok r (running, q) e h = absurd (cc)

  module _ (rt : Runtime S) (logged : IsLogged rt trace view)
      (closable : IsClosable conn trace view) where
    after_drain :
        (r q : RangeReader S) (o : Result (Unit {0}) × RangeReader S)
        → trace o.1.wrapped
          ≡ (locked r.self ∷ dequeued_by (view r.wrapped).1 r.self) ++ trace r.wrapped
        → view o.1.wrapped ≡ view r.wrapped
        → Closes r (((λ _. o) >> close_and_go rt logged conn closable r) q)
    after_drain r q (ok _, p) logs same =
        let rest = close_and_go-Logs rt logged conn closable r p same in
        Closes-ok r (close_and_go rt logged conn closable r p) rest.returns (
          rest.logs
          ∙ ap (λ l. (destroyed r.self ∷ (if r.owned then (view r.wrapped).0 else [])) ++ l) logs
          ∙ simp append_assoc)
    after_drain r q (throws x, p) logs same = logs
    after_drain r q (undefined, p) logs same = logs
    after_drain r q (running, p) logs same = logs

    ends_with :
        (r q : RangeReader S) (o : Result (Unit {0}) × RangeReader S)
        → view o.1.wrapped ≡ view r.wrapped
        → (((λ _. o) >> close_and_go rt logged conn closable r) q).0 ≡ o.0
    ends_with r q (ok tt, p) same = (close_and_go-Logs rt logged conn closable r p same).returns
    ends_with r q (throws x, p) same = refl
    ends_with r q (undefined, p) same = refl
    ends_with r q (running, p) same = refl

    -- Around a connection whose `Shutdown` comes back and makes known calls, and whose `Receive`
    -- makes none, and where `DequeueConnection` of the server, the lock and the deletion come back
    -- and leave those calls alone: `Shutdown` of a range reader ends as its loop does, behind the
    -- lock. If it comes back, its calls are, in this order: it leaves the server, takes its lock,
    -- makes the calls of the wrapped connection's `Shutdown` if it owns it, and deletes itself. If
    -- it throws, it has left the server and taken its lock, and that is all: the wrapped connection
    -- is not shut down, and the object is not deleted.
    pub range_shutdown-Closes :
        (fuel : ℕ) (r : RangeReader S)
        → ((shutdown conn rt fuel r).0
            ≡ (drain conn fuel (locked_state rt logged conn closable r)).0)
          × Closes r (shutdown conn rt fuel r)
    unfolding shutdown
    range_shutdown-Closes fuel r =
        let (all, before, same) =
          behind_lock rt logged conn closable r
            (drain conn fuel >> close_and_go rt logged conn closable r) in
        let q = locked_state rt logged conn closable r in
        let (quiet, kept) = drain-silent fuel q in
        (
          ap (λ o. o.0) all ∙ ends_with r q (drain conn fuel q) (kept ∙ same),
          subst (Closes r) (sym all)
              (after_drain r q (drain conn fuel q) (quiet ∙ before) (kept ∙ same)),
        )
