-- ===== src/UnixSocket/Source.antt =====
-- A socket is a source, from what `recv` promises.
use libsiot.Base.{
  ℕ, ◌≤◌, ◌<◌, ◌≡◌, sym, ◌∙◌, true, Bytes, [], ◌∷◌, ◌++◌, length, arith, Bool-cases, inl, inr,
}
use libsiot.Connection.{Runtime}
use libsiot.Connection.Contract.{IsSource, Receives}
use libsiot.UnixSocket.{
  Sockets, UnixSocket, Recv, received, failed, buffer_size, is_dead, received_by, receive,
  connection,
}

-- The buffer holds at least one byte, at most 65536, and no more than the limit if there is one.
pub buffer_size_bounds :
    {W : Type 0} (net : Sockets W) (maxlen : ℕ)
    → (0 < buffer_size net maxlen)
      × (buffer_size net maxlen ≤ 65536)
      × (0 < maxlen → buffer_size net maxlen ≤ maxlen)
unfolding buffer_size
buffer_size_bounds net maxlen = ground arith

-- What `recv` has done: it has taken the bytes off the input, as many as fit, or has failed and
-- left the input, which is empty after an error that `Receive` takes for the end.
abbrev pub Took : {W : Type 0} → Sockets W → (W → Bytes) → ℕ → W → Recv × W → Type 0
Took net input len w (received d, w') = (input w ≡ d ++ input w') × (length d ≤ len)
Took net input len w (failed errno, w') =
    (input w ≡ input w') × (is_dead net errno ≡ true → input w' ≡ [])

-- The documented behaviour of `recv`, for flags that take what they read.
pub record IsSocket {W : Type 0} (net : Sockets W) (Plain : ℕ → Type 0) (input : ℕ → W → Bytes)
    : Type 0 where
  pub plain_zero : Plain 0
  pub recv_took :
      (fd len flags : ℕ) (w : W) → Plain flags → Took net (input fd) len w (net.recv fd len flags w)

-- The end is reported only behind the input.
abbrev pub EndsRight : {W : Type 0} → (ℕ → W → Bytes) → UnixSocket W → Type 0
EndsRight input u = u.eof ≡ true → input u.socket u.system ≡ []

abbrev pub socket_pending : {W : Type 0} → (ℕ → W → Bytes) → UnixSocket W → Bytes
socket_pending input u = input u.socket u.system

tail-nil : (xs ys : Bytes) → [] ≡ xs ++ ys → ys ≡ []
tail-nil [] ys e = sym e
tail-nil (x ∷ xs) ys e = absurd (cc)

module _ {W : Type 0} (net : Sockets W) {Plain : ℕ → Type 0} {input : ℕ → W → Bytes}
    (socket : IsSocket net Plain input) where
  received_by-Receives :
      (maxlen : ℕ) (u : UnixSocket W) (o : Recv × W)
      → EndsRight input u
      → Took net (input u.socket) (buffer_size net maxlen) u.system o
      → Receives (EndsRight input) (socket_pending input) maxlen u (received_by net u o)
  unfolding received_by
  received_by-Receives maxlen u (received d, w) v (moved, le) = record {
    keeps = λ e. tail-nil d _ (sym (v e) ∙ moved);
    returns = tt;
    consumes = moved;
    within = λ h. let bound = (buffer_size_bounds net maxlen).2 h in omega arith;
  }
  received_by-Receives maxlen u (failed errno, w) v (same, dead) = record {
    keeps = λ e. elim (Bool-cases (is_dead net errno)) [
      | inl over ↦ dead over
      | inr alive ↦ sym same ∙ v (rw alive at e)
    ];
    returns = tt;
    consumes = same;
    within = λ h. omega arith;
  }

  -- With the documented behaviour of `recv`, a socket is a source: `Receive` with a limit below 2 ^
  -- 64 comes back and hands over the next part of its input, no more than the limit, and its flag
  -- for the end is set only when no input is left.
  pub socket-IsSource :
      (rt : Runtime W) → IsSource (connection net rt) Plain (EndsRight input) (socket_pending input)
  unfolding connection receive
  socket-IsSource rt = record {
    plain_zero = socket.plain_zero;
    receives = λ n flags u fits plain v.
        received_by-Receives n u _ v
          (socket.recv_took u.socket (buffer_size net n) flags u.system plain);
    eof_drained = λ u v e. v e;
  }
