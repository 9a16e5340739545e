-- ===== src/LineBuffer.antt =====
-- linebufferdecorator.cc and siot/linebufferdecorator.h: one line a call.
pub mod Lines
pub mod Split
pub mod Fetch
pub mod Delivery
pub mod Client
pub mod Complete
pub mod Gaps
pub mod Ranged
pub mod Stacked
pub mod Text
pub mod Wire
pub mod Closing
use libsiot.Base.{
  ℕ, zero, suc, ◌+◌, ◌-◌, ◌%◌, ◌&&◌, not, Bool, true, false, Option, none, some, Bytes, List, [],
  ◌∷◌, ◌++◌, ok, undefined, running, Action, pure, modify, skip, ◌>>=◌, ◌>>◌, if◌then◌else◌, ltb,
  ◌==◌, length, take, drop, get_elem?, u64_mod, is_none,
}
use libsiot.Base.Int.{ℤ}
use libsiot.Connection.{Connection, Runtime, deregister}
use libsiot.Decorator.{Decorator, forward, forward_runtime, decorator_object}

abbrev pub newline : ℕ
newline = 10

abbrev pub carriage_return : ℕ
carriage_return = 13

-- The fields of `LineBufferDecorator`'s own.
pub record LineState : Type 0 where
  pub remainder : Bytes
  pub remaining_lines : List Bytes

abbrev pub LineBuffer : Type 0 → Type 0
LineBuffer = Decorator LineState

-- The constructor, at the address `self`.
abbrev pub line_buffer : {S : Type 0} → ℕ → S → Bool → LineBuffer S
line_buffer self wrapped own = record {
  self = self;
  is_shutdown_ = false;
  wrapped = wrapped;
  owned = own;
  own = record { remainder = []; remaining_lines = [] };
}

-- `find("\n")` and `rfind("\n")`; `none` is `npos`.
unfoldable pub find : Bytes → Option ℕ
find [] = none
find (c ∷ cs) =
    if c == newline then some 0 else elim (find cs) [ none ↦ none | some i ↦ some (suc i) ]

unfoldable pub rfind : Bytes → Option ℕ
rfind [] = none
rfind (c ∷ cs) = elim (rfind cs) [
  | none ↦ if c == newline then some 0 else none
  | some i ↦ some (suc i)
]

-- The line before the newline at `sz`. The byte before that newline is read at the `size_t` index
-- `sz - 1`; `none` is a read out of range.
unfoldable pub take_line : Bytes → ℕ → Option Bytes
take_line text sz = elim (get_elem? text ((sz + u64_mod - 1) % u64_mod)) [
  | none ↦ none
  | some c ↦ some (if c == carriage_return then take (sz - 1) text else take sz text)
]

-- The second loop of `Receive`, which splits the lines off; each round takes one of fuel.
unfoldable pub split : ℕ → Action LineState (Unit {0})
split zero l = (running, l)
split (suc fuel) l = elim (find l.remainder) [
  | none ↦ (ok tt, l)
  | some sz ↦ elim (take_line l.remainder sz) [
    | none ↦ (undefined, l)
    | some line ↦ split fuel (record {
      remainder = drop (suc sz) l.remainder;
      remaining_lines = l.remaining_lines ++ line ∷ [];
    })
  ]
]

-- The front line with its newline, or nothing.
unfoldable pub pop_line : Action LineState Bytes
pop_line l = elim l.remaining_lines [
  | [] ↦ (ok [], l)
  | line ∷ rest ↦ (ok (line ++ newline ∷ []), record l { remaining_lines = rest })
]

module _ {S : Type 0} where
  -- An action on the decorator's own fields.
  abbrev pub on_lines : {A : Type 0} → Action LineState A → Action (LineBuffer S) A
  on_lines m r = let (o, l) = m r.own in (o, record r { own = l })

  -- `remainder_ += data`
  abbrev pub append : Bytes → LineBuffer S → LineBuffer S
  append bytes r = record r {
    own = record { remainder = r.own.remainder ++ bytes; remaining_lines = r.own.remaining_lines };
  }

module _ {S : Type 0} (conn : Connection S) where
  -- The first loop of `Receive`, which reads until there is a newline; each round takes one of
  -- fuel. `Receive()` has the default limit `size_t(-1)`.
  unfoldable pub fetch : ℕ → Action (LineBuffer S) (Unit {0})
  fetch zero r = (running, r)
  fetch (suc fuel) r =
      let round = (do
        got ← forward (conn.receive (u64_mod - 1) 0)
        let more = modify (append got) >> fetch fuel
        if ltb 0 (length got) then more else skip) in
      if is_none (rfind r.own.remainder) && not (conn.is_eof r.wrapped) then round r else (ok tt, r)

  -- `LineBufferDecorator::Receive`
  unfoldable pub receive : ℕ → ℕ → ℕ → Action (LineBuffer S) Bytes
  receive fuel ignored flags r =
      let refill = (do
        fetch fuel
        on_lines (λ l. split (suc (length l.remainder)) l)
        on_lines pop_line) in
      elim r.own.remaining_lines [ [] ↦ refill r | line ∷ rest ↦ on_lines pop_line r ]

  -- `LineBufferDecorator::IsEOF`
  unfoldable pub is_eof : LineBuffer S → Bool
  is_eof r = conn.is_eof r.wrapped && length r.own.remaining_lines == 0

  -- `LineBufferDecorator::Shutdown`
  unfoldable pub shutdown : Runtime S → Action (LineBuffer S) (Unit {0})
  shutdown rt r =
      (do
        deregister (forward_runtime rt) (decorator_object conn skip)
        (forward_runtime rt).lock r.self
        (if r.owned then forward conn.shutdown else skip)
        (forward_runtime rt).destroy r.self)
        r

  -- `Send`, `PeerAsText`, `GetServer`, `GetLastUse`, `SetBlocking` and `IsShutdown` pass the call
  -- on.
  unfoldable pub connection : Runtime S → ℕ → Connection (LineBuffer S)
  connection rt fuel = record {
    receive = receive fuel;
    send = λ bytes flags. forward (conn.send bytes flags);
    peer_as_text = λ r. conn.peer_as_text r.wrapped;
    get_server = λ r. conn.get_server r.wrapped;
    is_eof = is_eof;
    get_last_use = λ r. conn.get_last_use r.wrapped;
    set_blocking = λ b. forward (conn.set_blocking b);
    shutdown = shutdown rt;
    is_shutdown = λ r. conn.is_shutdown r.wrapped;
  }
