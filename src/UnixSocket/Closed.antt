-- ===== src/UnixSocket/Closed.antt =====
-- What happens over a socket whose peer has closed: `recv` then returns 0.
use libsiot.Base.{ℕ, ◌<◌, ◌≡◌, false, [], u64_mod, ok, running}
use libsiot.Connection.{Runtime}
use libsiot.RangeReader
use libsiot.RangeReader.{RangeReader}
use libsiot.RangeReader.Drain.{drain_stalls}
use libsiot.UnixSocket.{
  Sockets, UnixSocket, Recv, received, failed, received_by, receive, connection, buffer_size,
}

-- `Closed fd w`: the peer of `fd` has shut its side down, and all its data has been read. Then
-- `recv` returns 0 bytes, now and later.
abbrev pub StaysClosed : {W : Type 0} → Sockets W → (ℕ → W → Type 0) → Type 0
StaysClosed {W} net Closed =
    (fd len flags : ℕ) (w : W)
    → Closed fd w
    → ((net.recv fd len flags w).0 ≡ received []) × Closed fd (net.recv fd len flags w).1

module _ {W : Type 0} (net : Sockets W) (rt : Runtime W) {Closed : ℕ → W → Type 0}
    (closed : StaysClosed net Closed) where
  abbrev pub IsSilent : UnixSocket W → Type 0
  IsSilent u = (u.eof ≡ false) × Closed u.socket u.system

  silent :
      (n : ℕ) (u : UnixSocket W)
      → IsSilent u
      → ((connection net rt).is_eof u ≡ false)
        × (((connection net rt).receive n 0 u).0 ≡ ok [])
        × IsSilent ((connection net rt).receive n 0 u).1
  unfolding connection receive received_by
  silent n u (open_end, h) =
      go (net.recv u.socket (buffer_size net n) 0 u.system)
        (closed u.socket (buffer_size net n) 0 u.system h)
    where
      go :
          (o : Recv × W)
          → (o.0 ≡ received []) × Closed u.socket o.1
          → (u.eof ≡ false) × ((received_by net u o).0 ≡ ok []) × IsSilent (received_by net u o).1
      go (received d, w) (e, h') = (open_end, cc, (open_end, h'))
      go (failed errno, w) (e, h') = absurd (cc)

  -- Over a socket whose flag for the end is not set and for which `recv` returns 0 bytes now and
  -- later, as its peer has closed: the loop of `Shutdown` of a range reader with part of the range
  -- unread never ends, since no number of rounds is enough.
  pub range_shutdown_hangs :
      (fuel : ℕ) (r : RangeReader (UnixSocket W))
      → r.wrapped.eof ≡ false
      → Closed r.wrapped.socket r.wrapped.system
      → r.own.offset < r.own.max_size
      → r.own.max_size < u64_mod
      → (RangeReader.drain (connection net rt) fuel r).0 ≡ running
  range_shutdown_hangs fuel r open_end h under fits =
      drain_stalls (connection net rt) IsSilent silent fuel r (open_end, h) under fits
