-- ===== src/OpenSsl/Source.antt =====
-- An encrypted connection is a source, from what `SSL_read` promises.
use libsiot.Base.{
  ℕ, zero, suc, ◌≤◌, ◌<◌, ◌≡◌, ◌⊎◌, refl, Bool, false, some, Bytes, ◌++◌, take, length-take, arith,
  Option-cases, inl, inr,
}
use libsiot.Base.Int.{ℤ, pos, negsuc}
use libsiot.Connection.{Runtime}
use libsiot.Connection.Contract.{IsSource, Receives}
use libsiot.UnixSocket.{Sockets}
use libsiot.OpenSsl.{OpenSsl, SslConnection, read_length, read_by, receive, connection}

-- `Receive` hands over nothing at once only without blocking and with nothing decrypted; else it
-- reads at least one byte, no more than the limit, and no more than is decrypted or 65536.
pub read_length_bounds :
    {W : Type 0} (net : Sockets W) (lib : OpenSsl W) (blocking : Bool) (len maxlen n : ℕ)
    → read_length net lib blocking len maxlen ≡ some n
    → (0 < n) × (0 < maxlen → n ≤ maxlen) × ((n ≤ len) ⊎ ((len ≡ 0) × (n ≤ 65536)))
unfolding read_length
read_length_bounds net lib blocking len maxlen n e = ground arith

-- What `SSL_read` has done: a positive result counts the bytes that it has taken off the input,
-- which fit; any other leaves the input.
abbrev pub Took : {W : Type 0} → (W → Bytes) → ℕ → W → ℤ × Bytes × W → Type 0
Took input len w (pos zero, buf, w') = input w ≡ input w'
Took input len w (pos (suc n), buf, w') = (input w ≡ take (suc n) buf ++ input w') × (suc n ≤ len)
Took input len w (negsuc n, buf, w') = input w ≡ input w'

-- The flag for the end, which nothing in the class sets, is not set.
abbrev pub NeverEnds : {W : Type 0} → SslConnection W → Type 0
NeverEnds c = c.base.eof ≡ false

module _ {W : Type 0} (net : Sockets W) (lib : OpenSsl W) (input : W → Bytes)
    (took : (len : ℕ) (w : W) → Took input len w (lib.read len w)) where
  read_by-Receives :
      (maxlen len : ℕ) (c : SslConnection W) (o : ℤ × Bytes × W)
      → NeverEnds c
      → (0 < maxlen → len ≤ maxlen)
      → Took input len c.base.system o
      → Receives NeverEnds (λ d. input d.base.system) maxlen c (read_by net lib c o)
  unfolding read_by
  read_by-Receives maxlen len c (pos zero, buf, w) v fit same = record {
    keeps = v;
    returns = tt;
    consumes = same;
    within = λ h. omega arith;
  }
  read_by-Receives maxlen len c (pos (suc n), buf, w) v fit (moved, le) = record {
    keeps = v;
    returns = tt;
    consumes = moved;
    within = λ h. omega (arith, fit h, length-take (suc n) buf);
  }
  read_by-Receives maxlen len c (negsuc n, buf, w) v fit same = record {
    keeps = v;
    returns = tt;
    consumes = same;
    within = λ h. omega arith;
  }

  receive-Receives :
      (n flags : ℕ) (c : SslConnection W)
      → NeverEnds c
      → Receives NeverEnds (λ d. input d.base.system) n c (receive net lib n flags c)
  unfolding receive
  receive-Receives n flags c v =
      elim (Option-cases (read_length net lib c.blocking (lib.pending c.base.system) n)) [
        | inl nothing ↦
            rw (nothing, receive)
              record { keeps = v; returns = tt; consumes = refl; within = λ h. omega arith }
        | inr (len, e) ↦
            let got =
              read_by-Receives n len (record c { ssl_last_use = net.time c.base.system })
                (lib.read len c.base.system) v
                (read_length_bounds net lib c.blocking (lib.pending c.base.system) n len e).1
                (took len c.base.system) in
            rw (e, receive)
              record {
                keeps = got.keeps;
                returns = got.returns;
                consumes = got.consumes;
                within = got.within;
              }
      ]

  -- With an `SSL_read` that takes what it returns off the decrypted input, and leaves the input
  -- when it fails, an encrypted connection is a source: `Receive` with a limit below 2 ^ 64 comes
  -- back and hands over the next part of the decrypted input, no more than the limit, also in
  -- non-blocking mode, and loses nothing when it throws. Its flag for the end, which is not set at
  -- first, is never set by `Receive`.
  pub ssl-IsSource :
      (rt : Runtime W)
      → IsSource (connection net lib rt) (λ _. Unit {0}) NeverEnds (λ d. input d.base.system)
  unfolding connection
  ssl-IsSource rt = record {
    plain_zero = tt;
    receives = λ n flags c fits plain v. receive-Receives n flags c v;
    eof_drained = λ c v e. absurd (cc);
  }
