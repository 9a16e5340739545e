-- ===== src/OpenSsl/Sink.antt =====
-- `Send` of an encrypted connection, from what `SSL_write` promises.
use libsiot.Base.{
  ℕ, zero, suc, ◌≡◌, refl, Bytes, ◌≤◌, ◌++◌, length, take, Result, ok, throws, undefined, running,
}
use libsiot.Base.Int.{ℤ, pos, negsuc}
use libsiot.Connection.{Runtime}
use libsiot.Connection.Contract.{IsSource}
use libsiot.UnixSocket.{Sockets}
use libsiot.OpenSsl.{OpenSsl, SslConnection, send, connection}
use libsiot.OpenSsl.Source.{Took, NeverEnds, ssl-IsSource}

-- What `SSL_write` has done when its result is positive: it has handed over as many of the first
-- bytes. Any other result says nothing of what it has done.
abbrev pub Wrote : {W : Type 0} → (W → Bytes) → Bytes → W → ℤ × W → Type 0
Wrote output bytes w (pos zero, w') = Unit
Wrote output bytes w (pos (suc n), w') =
    (suc n ≤ length bytes) × (output w' ≡ output w ++ take (suc n) bytes)
Wrote output bytes w (negsuc n, w') = Unit

-- A call of `Send`: it returns how many of the first bytes it has handed over, at least one, or
-- throws.
abbrev pub Sends : {W : Type 0} → (W → Bytes) → Bytes → W → Result ℤ × SslConnection W → Type 0
Sends output bytes w (ok (pos zero), c) = ⊥
Sends output bytes w (ok (pos (suc n)), c) =
    (suc n ≤ length bytes) × (output c.base.system ≡ output w ++ take (suc n) bytes)
Sends output bytes w (ok (negsuc n), c) = ⊥
Sends output bytes w (throws x, c) = Unit
Sends output bytes w (undefined, c) = ⊥
Sends output bytes w (running, c) = ⊥

module _ {W : Type 0} (net : Sockets W) (lib : OpenSsl W) where
  send-Sends :
      (output : W → Bytes) (bytes : Bytes) (flags : ℕ) (c : SslConnection W) (o : ℤ × W)
      → lib.write bytes c.base.system ≡ o
      → Wrote output bytes c.base.system o
      → Sends output bytes c.base.system (send net lib bytes flags c)
  unfolding send
  send-Sends output bytes flags c (pos zero, w) e wrote = rw (e, send) tt
  send-Sends output bytes flags c (pos (suc n), w) e wrote = rw (e, send) wrote
  send-Sends output bytes flags c (negsuc n, w) e wrote = rw (e, send) tt

  send-NeverEnds :
      (bytes : Bytes) (flags : ℕ) (c : SslConnection W) (o : ℤ × W)
      → lib.write bytes c.base.system ≡ o
      → NeverEnds c
      → NeverEnds (send net lib bytes flags c).1
  unfolding send
  send-NeverEnds bytes flags c (pos zero, w) e v = rw (e, send) v
  send-NeverEnds bytes flags c (pos (suc n), w) e v = rw (e, send) v
  send-NeverEnds bytes flags c (negsuc n, w) e v = rw (e, send) v

  -- With an `SSL_read` that takes what it returns off the decrypted input and leaves the input when
  -- it fails, and an `SSL_write` that has handed over as many bytes as a positive result says: an
  -- encrypted connection is a source, and `Send` keeps it one. `Receive` with a limit below 2 ^ 64
  -- comes back and hands over the next part of the decrypted input, no more than the limit, also in
  -- non-blocking mode, and loses nothing when it throws; the flag for the end stays unset. `Send`
  -- returns how many of the first bytes of its text it has handed over, at least one, or throws; it
  -- returns neither 0 nor a negative number, unlike that of a plain socket. What it has handed over
  -- when it throws is left open.
  pub ssl-IsChannel :
      (input output : W → Bytes)
      → ((len : ℕ) (w : W) → Took input len w (lib.read len w))
      → ((bytes : Bytes) (w : W) → Wrote output bytes w (lib.write bytes w))
      → (rt : Runtime W)
      → IsSource (connection net lib rt) (λ _. Unit {0}) NeverEnds (λ d. input d.base.system)
        × ((bytes : Bytes) (flags : ℕ) (c : SslConnection W)
            → Sends output bytes c.base.system ((connection net lib rt).send bytes flags c))
        × ((bytes : Bytes) (flags : ℕ) (c : SslConnection W)
            → NeverEnds c
            → NeverEnds ((connection net lib rt).send bytes flags c).1)
  unfolding connection
  ssl-IsChannel input output took wrote rt = (
    ssl-IsSource net lib input took rt,
    λ bytes flags c.
        send-Sends output bytes flags c (lib.write bytes c.base.system) refl
          (wrote bytes c.base.system),
    λ bytes flags c. send-NeverEnds bytes flags c (lib.write bytes c.base.system) refl,
  )
