-- ===== src/Decorator/Sink.antt =====
-- `Send` of a decorator that passes the call on.
use libsiot.Base.{ℕ, ◌≡◌, sym, Bytes, Result, ok, throws, undefined, running}
use mathlib.Core.Path.{subst}
use libsiot.Base.Int.{ℤ, pos, negsuc}
use libsiot.Connection.{Connection}
use libsiot.Connection.Sink.{IsSink, Hands}
use libsiot.Decorator.{Decorator, forward}

-- What a decorator that passes the call on has done.
forward-Hands :
    {F S : Type 0} (sent : S → Bytes) (bytes : Bytes) (d : Decorator F S) (o : Result ℤ × S)
    → Hands sent bytes d.wrapped o
    → Hands (λ e. sent e.wrapped) bytes d (forward (λ _. o) d)
forward-Hands sent bytes d (ok (pos n), s') h = h
forward-Hands sent bytes d (ok (negsuc n), s') h = h
forward-Hands sent bytes d (throws x, s') h = h
forward-Hands sent bytes d (undefined, s') h = absurd h
forward-Hands sent bytes d (running, s') h = absurd h

abbrev pub Wraps : {F S : Type 0} → (S → Type 0) → Decorator F S → Type 0
Wraps Inv d = Inv d.wrapped

abbrev pub wrapped_sent : {F S : Type 0} → (S → Bytes) → Decorator F S → Bytes
wrapped_sent sent d = sent d.wrapped

forward-keeps :
    {F S : Type 0} (Inv : S → Type 0) (d : Decorator F S) (o : Result ℤ × S)
    → Inv o.1
    → Wraps Inv (forward (λ _. o) d).1
forward-keeps Inv d o v = v

-- It is a sink where the wrapped connection is one.
pub forward-IsSink :
    {F S : Type 0} (conn : Connection S) (outer : Connection (Decorator F S)) {Inv : S → Type 0}
    {sent : S → Bytes}
    → ((bytes : Bytes) (flags : ℕ) (d : Decorator F S)
        → outer.send bytes flags d ≡ forward (conn.send bytes flags) d)
    → IsSink conn Inv sent
    → IsSink outer (Wraps Inv) (wrapped_sent sent)
forward-IsSink conn outer {Inv} {sent} passes sink = record {
  keeps = λ bytes flags d v.
      subst (λ o. Wraps Inv o.1) (sym (passes bytes flags d)) (sink.keeps bytes flags d.wrapped v);
  hands = λ bytes flags d v.
      subst (Hands (wrapped_sent sent) bytes d) (sym (passes bytes flags d)) (
        forward-Hands sent bytes d (conn.send bytes flags d.wrapped)
          (sink.hands bytes flags d.wrapped v));
}
