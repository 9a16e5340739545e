-- ===== src/Tests/Socket.antt =====
-- A socket over a list of bytes in memory, whose other end has closed: at the end `recv` returns 0.
use libsiot.Base.{
  ℕ, ◌≡◌, refl, sym, true, none, Bytes, [], ◌∷◌, ◌<◌, ok, false, take, drop, length,
  take-append-drop, length-take, take-nil, drop-nil, running, arith,
}
use libsiot.Base.Int.{pos}
use libsiot.Acknowledgement
use libsiot.Acknowledgement.{Acknowledged, acknowledged, set_buffer}
use libsiot.Acknowledgement.Excess.{receive_exceeds}
use libsiot.RangeReader
use libsiot.RangeReader.{RangeReader, range_reader}
use libsiot.UnixSocket.{Sockets, UnixSocket, received, unix_socket, connection}
use libsiot.UnixSocket.Source.{IsSocket}
use libsiot.UnixSocket.Closed.{StaysClosed, range_shutdown_hangs}
use libsiot.Tests.Tape.{idle_runtime, Any}

abbrev pub memory : Sockets Bytes
memory = record {
  recv = λ fd len flags w. (received (take len w), drop len w);
  send = λ fd bytes flags w. (pos (length bytes), w);
  time = λ w. 7;
  get_flags = λ fd w. 2;
  set_flags = λ fd val w. w;
  shutdown_both = λ fd w. w;
  close = λ fd w. w;
  sockaddr_text = λ peer w. "unix:/tmp/sock";
  ebadf = 9;
  einval = 22;
  enotconn = 107;
  nonblock = 2048;
}

abbrev pub input : ℕ → Bytes → Bytes
input fd w = w

pub memory-IsSocket : IsSocket memory Any input
memory-IsSocket = record {
  plain_zero = tt;
  recv_took =
      λ fd len flags w plain. (sym (take-append-drop len w), omega (arith, length-take len w));
}

abbrev Drained : ℕ → Bytes → Type 0
Drained fd w = w ≡ []

memory-StaysClosed : StaysClosed memory Drained
memory-StaysClosed fd len flags w e = rw e (rw take-nil refl, drop-nil len)

abbrev drained_range : RangeReader (UnixSocket Bytes)
drained_range = range_reader 2 (unix_socket memory 1 none 4 0 []) 3 true

range_shutdown_hangs_example :
    (RangeReader.drain (connection memory idle_runtime) 50 drained_range).0 ≡ running
unfolding unix_socket
range_shutdown_hangs_example =
    range_shutdown_hangs memory idle_runtime memory-StaysClosed 50 drained_range refl refl
      (omega arith) (omega arith)

-- A decorator whose buffer holds two bytes, with two more to read.
abbrev two_buffered : Acknowledged (UnixSocket Bytes)
two_buffered =
    set_buffer (1 ∷ 2 ∷ []) (acknowledged 2 (unix_socket memory 1 none 4 0 (3 ∷ 4 ∷ [])) 9 false)

receive_exceeds_example :
    ((Acknowledgement.receive (connection memory idle_runtime) 2 0 two_buffered).0
      ≡ ok (1 ∷ 2 ∷ 3 ∷ 4 ∷ []))
    × (2 < length {A = ℕ} (1 ∷ 2 ∷ 3 ∷ 4 ∷ []))
unfolding unix_socket
receive_exceeds_example =
    receive_exceeds memory idle_runtime two_buffered 2 0 (3 ∷ 4 ∷ []) (omega arith) refl
      (omega arith) (omega arith)
