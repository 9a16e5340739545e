-- ===== src/Acknowledgement.antt =====
-- acknowledgementdecorator.cc and siot/acknowledgementdecorator.h: a connection whose input is
-- returned again until it is acknowledged.
pub mod Excess
pub mod Buffer
pub mod History
pub mod Auto
pub mod Closing
use libsiot.Base.{
  ℕ, ◌+◌, ◌-◌, ◌%◌, ◌&&◌, Bool, true, false, Bytes, [], ◌++◌, ok, Action, pure, throw, gets, modify,
  skip, ◌>>=◌, ◌>>◌, ClientConnectionException, if◌then◌else◌, ltb, ◌==◌, length, drop, u64_mod,
}
use libsiot.Base.Int.{ℤ}
use libsiot.Connection.{Connection, Runtime, deregister}
use libsiot.Decorator.{Decorator, forward, forward_runtime, decorator_object}

-- The fields of `AcknowledgementDecorator`'s own.
pub record AckBuffer : Type 0 where
  pub max_buffer_size : ℕ
  pub autoack : Bool
  pub buffer : Bytes

abbrev pub Acknowledged : Type 0 → Type 0
Acknowledged = Decorator AckBuffer

-- The constructor, at the address `self`.
abbrev pub acknowledged : {S : Type 0} → ℕ → S → ℕ → Bool → Acknowledged S
acknowledged self wrapped max_buffer_size own = record {
  self = self;
  is_shutdown_ = false;
  wrapped = wrapped;
  owned = own;
  own = record { max_buffer_size = max_buffer_size; autoack = false; buffer = [] };
}

abbrev pub buffer_exceeded : ClientConnectionException
buffer_exceeded = record {
  identifier = "buffer size exceeded";
  errmsg = "The specified buffer size has been exceeded";
}

module _ {S : Type 0} where
  abbrev pub set_buffer : Bytes → Acknowledged S → Acknowledged S
  set_buffer b r = record r {
    own = record { max_buffer_size = r.own.max_buffer_size; autoack = r.own.autoack; buffer = b };
  }

  -- The limit that `Receive` passes on. The difference is a `size_t`.
  unfoldable pub request : ℕ → Acknowledged S → ℕ
  request maxlen r =
      let len = (maxlen + u64_mod - length r.own.buffer) % u64_mod in
      if ltb (length r.own.buffer) maxlen then len else 0

  -- `buffer_ += data`
  abbrev pub append : Bytes → Acknowledged S → Acknowledged S
  append bytes r = if ltb 0 (length bytes) then set_buffer (r.own.buffer ++ bytes) r else r

  -- The part of `Receive` behind the call of the wrapped connection.
  unfoldable pub hand_over : Action (Acknowledged S) Bytes
  hand_over r =
      if ltb r.own.max_buffer_size (length r.own.buffer)
      then throw buffer_exceeded r
      else (if r.own.autoack then (ok r.own.buffer, set_buffer [] r) else (ok r.own.buffer, r))

  -- `AcknowledgementDecorator::Acknowledge`
  unfoldable pub acknowledge : ℕ → Action (Acknowledged S) Bool
  acknowledge bytes r =
      if ltb (length r.own.buffer) bytes
      then (ok false, r)
      else (ok true, set_buffer (drop bytes r.own.buffer) r)

  -- `AcknowledgementDecorator::SetAutoAck`
  unfoldable pub set_auto_ack : Bool → Acknowledged S → Acknowledged S
  set_auto_ack autoack r = record r {
    own = record {
      max_buffer_size = r.own.max_buffer_size;
      autoack = autoack;
      buffer = r.own.buffer;
    };
  }

module _ {S : Type 0} (conn : Connection S) where
  -- `AcknowledgementDecorator::Receive`
  unfoldable pub receive : ℕ → ℕ → Action (Acknowledged S) Bytes
  receive maxlen flags r =
      (do got ← forward (conn.receive (request maxlen r) flags); modify (append got); hand_over) r

  -- `AcknowledgementDecorator::IsEOF`
  unfoldable pub is_eof : Acknowledged S → Bool
  is_eof r = conn.is_eof r.wrapped && length r.own.buffer == 0

  -- `AcknowledgementDecorator::Shutdown`
  unfoldable pub shutdown : Runtime S → Action (Acknowledged S) (Unit {0})
  shutdown rt r =
      (do
        deregister (forward_runtime rt) (decorator_object conn skip)
        (forward_runtime rt).lock r.self
        (if r.owned then forward conn.shutdown else skip)
        (forward_runtime rt).destroy r.self)
        r

  -- `Send`, `PeerAsText`, `GetServer`, `GetLastUse`, `SetBlocking` and `IsShutdown` pass the call
  -- on.
  unfoldable pub connection : Runtime S → Connection (Acknowledged S)
  connection rt = record {
    receive = receive;
    send = λ bytes flags. forward (conn.send bytes flags);
    peer_as_text = λ r. conn.peer_as_text r.wrapped;
    get_server = λ r. conn.get_server r.wrapped;
    is_eof = is_eof;
    get_last_use = λ r. conn.get_last_use r.wrapped;
    set_blocking = λ b. forward (conn.set_blocking b);
    shutdown = shutdown rt;
    is_shutdown = λ r. conn.is_shutdown r.wrapped;
  }
