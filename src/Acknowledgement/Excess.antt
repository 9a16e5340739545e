-- ===== src/Acknowledgement/Excess.antt =====
-- `Receive` with a buffer that has reached the limit: the difference is 0, which a socket takes for
-- its largest buffer.
use libsiot.Base.{
  ap, ℕ, ◌+◌, ◌≤◌, ◌<◌, ◌≡◌, refl, ◌∙◌, Bytes, ◌++◌, length, length-append, ok, arith, ltb, true,
  false, Result, modify, ◌>>=◌, ◌>>◌,
}
use libsiot.Connection.{Runtime}
use libsiot.Acknowledgement
use libsiot.Acknowledgement.{Acknowledged, request, append, hand_over}
use libsiot.UnixSocket
use libsiot.UnixSocket.{Sockets, UnixSocket, Recv, received, received_by, buffer_size, connection}

module _ {W : Type 0} (net : Sockets W) (rt : Runtime W) (r : Acknowledged (UnixSocket W)) where
  -- `Receive` behind the call of the wrapped connection.
  abbrev behind : Result Bytes × UnixSocket W → Result Bytes × Acknowledged (UnixSocket W)
  behind o =
      ((λ _. (o.0, record r { wrapped = o.1 })) >>= λ got. modify (append got) >> hand_over) r

  abbrev asked : ℕ → Recv × W
  asked flags = net.recv r.wrapped.socket 65536 flags r.wrapped.system

  asks_all :
      (maxlen flags : ℕ)
      → maxlen ≤ length r.own.buffer
      → Acknowledgement.receive (connection net rt) maxlen flags r
        ≡ behind (received_by net r.wrapped (asked flags))
  unfolding Acknowledgement.receive connection request UnixSocket.receive buffer_size
  asks_all maxlen flags full = ap (λ n. behind (UnixSocket.receive net n flags r.wrapped)) nothing
    where
      nothing : request maxlen r ≡ 0
      nothing = let over : ltb (length r.own.buffer) maxlen ≡ false = ground arith in simp over refl

  hands_over_all :
      (d : Bytes) (w : W)
      → 0 < length d
      → length r.own.buffer + length d ≤ r.own.max_buffer_size
      → (behind (received_by net r.wrapped (received d, w))).0 ≡ ok (r.own.buffer ++ d)
  unfolding received_by hand_over
  hands_over_all d w some_bytes room =
      let sum = length-append r.own.buffer d in
      let more : ltb 0 (length d) ≡ true = ground arith in
      let fits : ltb r.own.max_buffer_size (length (r.own.buffer ++ d)) ≡ false = ground arith in
      simp (more, fits) (ground arith)

  -- Around a socket: where the buffer has at least the bytes that the caller allows, `Receive` asks
  -- the system for 65536 bytes more; and where it gets some, and the buffer has room for them, it
  -- hands them all over, behind the buffer: more bytes than the caller allows.
  pub receive_exceeds :
      (maxlen flags : ℕ) (d : Bytes)
      → maxlen ≤ length r.own.buffer
      → (net.recv r.wrapped.socket 65536 flags r.wrapped.system).0 ≡ received d
      → 0 < length d
      → length r.own.buffer + length d ≤ r.own.max_buffer_size
      → let got = r.own.buffer ++ d in
        ((Acknowledgement.receive (connection net rt) maxlen flags r).0 ≡ ok got)
        × (maxlen < length got)
  receive_exceeds maxlen flags d full got some_bytes room = (
    ap (λ o. o.0)
          (asks_all maxlen flags full ∙ ap (λ o. behind (received_by net r.wrapped o)) taken)
        ∙ hands_over_all d (asked flags).1 some_bytes room,
    omega (arith, length-append r.own.buffer d),
  )
    where
      taken : asked flags ≡ (received d, (asked flags).1)
      taken i = (got i, (asked flags).1)
