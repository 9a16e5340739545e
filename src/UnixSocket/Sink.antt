-- ===== src/UnixSocket/Sink.antt =====
-- A socket is a sink, from what `send` promises.
use libsiot.Base.{ℕ, ◌≤◌, ◌≡◌, Bytes, ◌++◌, length, take, ok, refl}
use libsiot.Base.Int.{ℤ, pos, negsuc}
use libsiot.Connection.{Runtime}
use libsiot.Connection.Sink.{IsSink, Hands}
use libsiot.UnixSocket.{Sockets, UnixSocket, send, connection}

-- What `send` has done: the first bytes have been added to the input of the other end, or it has
-- failed and left that input.
abbrev pub Gave : {W : Type 0} → (W → Bytes) → Bytes → W → ℤ × W → Type 0
Gave input bytes w (pos n, w') = (n ≤ length bytes) × (input w' ≡ input w ++ take n bytes)
Gave input bytes w (negsuc n, w') = input w' ≡ input w

-- The documented behaviour of `send` on the descriptor `from` of a stream whose other end has the
-- input `input`.
pub record IsWire {W : Type 0} (net : Sockets W) (from : ℕ) (input : W → Bytes) : Type 0 where
  pub gives : (bytes : Bytes) (flags : ℕ) (w : W) → Gave input bytes w (net.send from bytes flags w)

-- A connection on that descriptor.
abbrev pub Owns : {W : Type 0} → ℕ → UnixSocket W → Type 0
Owns from u = u.socket ≡ from

abbrev pub handed : {W : Type 0} → (W → Bytes) → UnixSocket W → Bytes
handed input u = input u.system

module _ {W : Type 0} (net : Sockets W) {from : ℕ} {input : W → Bytes}
    (wire : IsWire net from input) where
  sent-Hands :
      (bytes : Bytes) (u u' : UnixSocket W) (o : ℤ × W)
      → u'.system ≡ o.1
      → Gave input bytes u.system o
      → Hands (handed input) bytes u (ok o.0, u')
  sent-Hands bytes u u' (pos n, w) e (le, h) = (le, rw e h)
  sent-Hands bytes u u' (negsuc n, w) e h = rw e h

  pub socket-IsSink : (rt : Runtime W) → IsSink (connection net rt) (Owns from) (handed input)
  unfolding connection send
  socket-IsSink rt = record {
    keeps = λ bytes flags u v. v;
    hands = λ bytes flags u v.
        sent-Hands bytes u _ (net.send u.socket bytes flags u.system) refl
          (rw v (wire.gives bytes flags u.system));
  }
