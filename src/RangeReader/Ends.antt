-- ===== src/RangeReader/Ends.antt =====
-- `RangeReaderDecorator::Shutdown` comes back.
use mathlib.Core.Path.{subst}
use libsiot.Base.{
  ℕ, zero, suc, ◌-◌, ◌<◌, ◌≡◌, ◌≢◌, refl, ap, ◌∙◌, sym, true, not, ◌&&◌, inl, inr, Bool-cases,
  Bytes, List, ◌++◌, Option, none, some, Result, ok, throws, undefined, running,
  ClientConnectionException, skip, modify, ◌>>◌, ltb, u64_mod, arith, ◌≤◌,
}
use libsiot.Connection.{Connection, Runtime, deregister, dequeue_by}
use libsiot.Connection.Contract.{IsSource, HasProgress, NeverThrows, Receives}
use libsiot.Connection.Closing.{Deed, View, IsLogged, IsClosable}
use libsiot.Decorator.{forward_runtime, decorator_object, forward-cases}
use libsiot.Decorator.Closing.{decorated_view, locked_state}
use libsiot.RangeReader.{RangeReader, drain, advance, shutdown}
use libsiot.RangeReader.Source.{InRange}
use libsiot.RangeReader.Drain.{Skips, drain-Skips}
use libsiot.RangeReader.Closing.{IsSilentReader, Closes, range_shutdown-Closes}

-- `DequeueConnection` and the lock keep the connection readable.
pub record KeepsReadable {S : Type 0} (rt : Runtime S) (Inv : S → Type 0) : Type 0 where
  pub dequeues : (srv c : ℕ) (s : S) → Inv s → Inv (rt.dequeue_connection srv c s).1
  pub locks : (c : ℕ) (s : S) → Inv s → Inv (rt.lock c s).1

module _ {S : Type 0} (conn : Connection S) {Plain : ℕ → Type 0} {Inv : S → Type 0}
    {pending : S → Bytes} (source : IsSource conn Plain Inv pending)
    (quiet : NeverThrows conn Inv) where
  drain_no_throw :
      (fuel : ℕ) (r : RangeReader S) (x : ClientConnectionException)
      → Inv r.wrapped
      → r.own.max_size < u64_mod
      → (drain conn fuel r).0 ≢ throws x
  unfolding drain
  drain_no_throw zero r x v fits = λ h. cc
  drain_no_throw (suc fuel) r x v fits =
      elim (Bool-cases (ltb r.own.offset r.own.max_size && not (conn.is_eof r.wrapped))) [
        | inr stop ↦ rw stop (λ h. cc)
        | inl go_on ↦ rw go_on (
            forward-cases (λ o. o.0 ≢ throws x) (conn.receive left 0)
              (λ d. modify (advance d) >> drain conn fuel) r
              (λ d s' e.
                drain_no_throw fuel (advance d (record r { wrapped = s' })) x
                  (subst Inv (ap (λ o. o.1) e) got.keeps) fits)
              (λ y s' e. absurd (quiet left r.wrapped y v (ap (λ o. o.0) e))) (λ s' e. λ h. cc)
              (λ s' e. λ h. cc))
      ]
    where
      left : ℕ
      left = r.own.max_size - r.own.offset

      got : Receives Inv pending left r.wrapped (conn.receive left 0 r.wrapped)
      got = source.receives left 0 r.wrapped (omega arith) source.plain_zero v

  outcome :
      (r : RangeReader S) (o : Result (Unit {0}) × RangeReader S)
      → Skips pending r o
      → ((x : ClientConnectionException) → o.0 ≢ throws x)
      → o.0 ≡ ok tt
  outcome r (ok tt, q) h n = refl
  outcome r (throws x, q) h n = absurd (n x refl)
  outcome r (undefined, q) h n = absurd h
  outcome r (running, q) h n = absurd h

module _ {S : Type 0} {trace : S → List Deed} {view : S → View} (conn : Connection S)
    (rt : Runtime S) (logged : IsLogged rt trace view) (closable : IsClosable conn trace view)
    {Inv : S → Type 0} (gentle : KeepsReadable rt Inv) where
  left_server :
      (srv : Option ℕ) (c : ℕ) (d : RangeReader S)
      → Inv d.wrapped
      → Inv (dequeue_by (forward_runtime rt) (decorator_object conn skip) srv c d).1.wrapped
  left_server none c d v = v
  left_server (some srv) c d v = gentle.dequeues srv c d.wrapped v

  left_server_own :
      (srv : Option ℕ) (c : ℕ) (d : RangeReader S)
      → (dequeue_by (forward_runtime rt) (decorator_object conn skip) srv c d).1.own ≡ d.own
  left_server_own none c d = refl
  left_server_own (some srv) c d = refl

  locked-Inv :
      (r : RangeReader S) → Inv r.wrapped → Inv (locked_state rt logged conn closable r).wrapped
  unfolding deregister
  locked-Inv r v =
      gentle.locks r.self _
        (left_server (conn.get_server r.wrapped) r.self (record r { is_shutdown_ = true }) v)

  locked-own : (r : RangeReader S) → (locked_state rt logged conn closable r).own ≡ r.own
  unfolding deregister
  locked-own r =
      left_server_own (conn.get_server r.wrapped) r.self (record r { is_shutdown_ = true })

Closes-trace :
    {S : Type 0} {trace : S → List Deed} {view : S → View} (conn : Connection S)
    (silent : IsSilentReader conn trace view) (r : RangeReader S)
    (o : Result (Unit {0}) × RangeReader S)
    → Closes conn silent r o
    → o.0 ≡ ok tt
    → trace o.1.wrapped ≡ (decorated_view view r).0 ++ trace r.wrapped
Closes-trace conn silent r (ok _, q) h e = h
Closes-trace conn silent r (throws x, q) h e = absurd (cc)
Closes-trace conn silent r (undefined, q) h e = absurd (cc)
Closes-trace conn silent r (running, q) h e = absurd (cc)

module _ {S : Type 0} {trace : S → List Deed} {view : S → View} (conn : Connection S)
    {Plain : ℕ → Type 0} {Inv : S → Type 0} {pending : S → Bytes}
    (source : IsSource conn Plain Inv pending) (progress : HasProgress conn Inv)
    (quiet : NeverThrows conn Inv) (silent : IsSilentReader conn trace view) (rt : Runtime S)
    (logged : IsLogged rt trace view) (closable : IsClosable conn trace view)
    (gentle : KeepsReadable rt Inv) where
  -- Around a source that never throws and, before its end, hands over at least one byte a call,
  -- whose `Shutdown` comes back and makes known calls, whose `Receive` makes none, and where
  -- `DequeueConnection` of the server, the lock and the deletion come back and leave those calls
  -- and the input's state alone: `Shutdown` of a range reader with its offset within the range
  -- comes back if its loop may take more rounds than bytes are left in the range, and its calls
  -- are, in this order: it leaves the server, takes its lock, makes the calls of the wrapped
  -- connection's `Shutdown` if it owns it, and deletes itself.
  pub range_shutdown_returns :
      (fuel : ℕ) (r : RangeReader S)
      → InRange Inv r
      → r.own.max_size - r.own.offset < fuel
      → ((shutdown conn rt fuel r).0 ≡ ok tt)
        × (trace (shutdown conn rt fuel r).1.wrapped ≡ (decorated_view view r).0 ++ trace r.wrapped)
  range_shutdown_returns fuel r v enough =
      let q = locked_state rt logged conn closable r in
      let own = sym (locked-own conn rt logged closable gentle r) in
      let inner = locked-Inv conn rt logged closable gentle r v.inner in
      let fits = subst (λ f. f.max_size < u64_mod) own v.fits in
      let skips =
        drain-Skips conn source progress fuel q
          (record {
            inner = inner;
            before_end = subst (λ f. f.offset ≤ f.max_size) own v.before_end;
            fits = fits;
          })
          (subst (λ f. f.max_size - f.offset < fuel) own enough) in
      let loop_back =
        outcome conn source quiet q (drain conn fuel q) skips
          (λ x. drain_no_throw conn source quiet fuel q x inner fits) in
      let (same, closes) = range_shutdown-Closes conn silent rt logged closable fuel r in
      (
        same ∙ loop_back,
        Closes-trace conn silent r (shutdown conn rt fuel r) closes (same ∙ loop_back),
      )
