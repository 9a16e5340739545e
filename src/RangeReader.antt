-- ===== src/RangeReader.antt =====
-- rangereaderdecorator.cc and siot/rangereaderdecorator.h: at most `max_size` bytes of the wrapped
-- connection, which ends there.
pub mod Source
pub mod Drain
pub mod Closing
pub mod Ends
pub mod Progress
use libsiot.Base.{
  ℕ, zero, suc, ◌+◌, ◌-◌, ◌%◌, ◌&&◌, ◌||◌, not, Bool, true, false, Bytes, [], Result, ok, throws,
  running, Action, ClientConnectionException, pure, throw, gets, modify, skip, ◌>>=◌, ◌>>◌,
  if◌then◌else◌, ltb, leb, ◌==◌, length, u64_mod, String, Option,
}
use libsiot.Base.Int.{ℤ}
use libsiot.Connection.{Connection, Runtime, deregister}
use libsiot.Decorator.{Decorator, forward, forward_runtime, decorator_object}

-- The fields of `RangeReaderDecorator`'s own.
pub record Range : Type 0 where
  pub max_size : ℕ
  pub offset : ℕ

abbrev pub RangeReader : Type 0 → Type 0
RangeReader = Decorator Range

-- The constructor, at the address `self`.
abbrev pub range_reader : {S : Type 0} → ℕ → S → ℕ → Bool → RangeReader S
range_reader self wrapped max_size own = record {
  self = self;
  is_shutdown_ = false;
  wrapped = wrapped;
  owned = own;
  own = record { max_size = max_size; offset = 0 };
}

-- `toread` of `Receive`, below the end of the range.
unfoldable pub clip : ℕ → Range → ℕ
clip len r = let left = r.max_size - r.offset in if len == 0 || ltb left len then left else len

module _ {S : Type 0} where
  abbrev pub set_offset : ℕ → RangeReader S → RangeReader S
  set_offset n d = record d { own = record { max_size = d.own.max_size; offset = n } }

  -- `offset_ += data.length()`
  abbrev pub advance : Bytes → RangeReader S → RangeReader S
  advance d r = set_offset ((r.own.offset + length d) % u64_mod) r

module _ {S : Type 0} (conn : Connection S) where
  -- The part of `Receive` behind its first test, for the clipped length.
  unfoldable pub receive_part : ℕ → ℕ → Action (RangeReader S) Bytes
  receive_part toread flags = do
    got ← forward (conn.receive toread flags)
    modify (λ r. if conn.is_eof r.wrapped then set_offset r.own.max_size r else advance got r)
    pure got

  -- `RangeReaderDecorator::Receive`
  unfoldable pub receive : ℕ → ℕ → Action (RangeReader S) Bytes
  receive len flags r =
      if leb r.own.max_size r.own.offset then (ok [], r) else receive_part (clip len r.own) flags r

  -- `RangeReaderDecorator::IsEOF`
  unfoldable pub is_eof : RangeReader S → Bool
  is_eof r = if leb r.own.max_size r.own.offset then true else conn.is_eof r.wrapped

  -- `RangeReaderDecorator::Send`
  unfoldable pub send : Bytes → ℕ → Action (RangeReader S) ℤ
  send bytes flags =
      throw
        (record { identifier = "read-only"; errmsg = "Write attempted on read-only connection" })

  -- The loop of `Shutdown` that eats the rest of the range; each round takes one of fuel.
  unfoldable pub drain : ℕ → Action (RangeReader S) (Unit {0})
  drain zero r = (running, r)
  drain (suc fuel) r =
      let round = (do
        got ← forward (conn.receive (r.own.max_size - r.own.offset) 0)
        modify (advance got)
        drain fuel) in
      if ltb r.own.offset r.own.max_size && not (conn.is_eof r.wrapped) then round r else (ok tt, r)

  -- `RangeReaderDecorator::Shutdown`. `virtual_shutdown` is not called by `Deregister`.
  unfoldable pub shutdown : Runtime S → ℕ → Action (RangeReader S) (Unit {0})
  shutdown rt fuel r =
      (do
        deregister (forward_runtime rt) (decorator_object conn skip)
        (forward_runtime rt).lock r.self
        drain fuel
        (if r.owned then forward conn.shutdown else skip)
        (forward_runtime rt).destroy r.self)
        r

  -- `PeerAsText`, `GetServer`, `GetLastUse`, `SetBlocking` and `IsShutdown` pass the call on.
  unfoldable pub connection : Runtime S → ℕ → Connection (RangeReader S)
  connection rt fuel = record {
    receive = receive;
    send = send;
    peer_as_text = λ r. conn.peer_as_text r.wrapped;
    get_server = λ r. conn.get_server r.wrapped;
    is_eof = is_eof;
    get_last_use = λ r. conn.get_last_use r.wrapped;
    set_blocking = λ b. forward (conn.set_blocking b);
    shutdown = shutdown rt fuel;
    is_shutdown = λ r. conn.is_shutdown r.wrapped;
  }
