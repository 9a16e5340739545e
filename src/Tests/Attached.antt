-- ===== src/Tests/Attached.antt =====
-- Connections of the server with two connections, which the host knows.
use libsiot.Base.{◌≡◌, ◌↔◌, refl, true, none, some, [], length, ok, skip}
use libsiot.Base.Int.{pos}
use libsiot.Connection.{Connection, Runtime}
use libsiot.UnixSocket
use libsiot.UnixSocket.{Sockets, UnixSocket, received, unix_socket, system_runtime, socket_object}
use libsiot.RangeReader
use libsiot.RangeReader.{RangeReader, range_reader}
use libsiot.Decorator.{forward_runtime, decorator_object}
use libsiot.Server.Attached.Range.{ReadsAlone, range_shutdown_returns_iff}
use libsiot.LineBuffer
use libsiot.LineBuffer.{LineBuffer, line_buffer}
use libsiot.Server.{Server}
use libsiot.Connection.{deregister}
use libsiot.Server.Registry.{defer_shutdown}
use libsiot.Server.Attached.{image, leave_one, IsAttached}
use libsiot.Server.Attached.Socket.{SparesServer, alone, socket-IsMember, system_runtime-IsAttached}
use libsiot.Server.Attached.Decorators.{around, line-IsMember}
use libsiot.Server.Attached.Returns.{AllGone, shutdown_returns_iff}
use libsiot.Tests.Daemon.{system, two_connections}

-- The kernel is left out; what matters here is the server at 5.
abbrev quiet : Sockets Server
quiet = record {
  recv = λ fd len flags w. (received [], w);
  send = λ fd bytes flags w. (pos (length bytes), w);
  time = λ w. 7;
  get_flags = λ fd w. 2;
  set_flags = λ fd val w. w;
  shutdown_both = λ fd w. w;
  close = λ fd w. w;
  sockaddr_text = λ peer w. "unix:/tmp/sock";
  ebadf = 9;
  einval = 22;
  enotconn = 107;
  nonblock = 2048;
}

abbrev runtime : Runtime Server
runtime = record {
  dequeue_connection = λ srv c. leave_one system 5 srv c;
  defer_shutdown = λ srv c. defer_shutdown c;
  lock = λ c w. (ok tt, w);
  destroy = λ c w. (ok tt, w);
}

abbrev itself : Server → Server
itself w = w

quiet-SparesServer : SparesServer quiet itself
quiet-SparesServer = record { shuts = λ fd w. refl; closes = λ fd w. refl }

runtime-IsAttached : IsAttached system 5 runtime itself (λ _. ([], none))
runtime-IsAttached = record {
  dequeues = λ srv c w. refl;
  dequeue_same = λ srv c w. refl;
  locks = λ c w. refl;
  lock_same = λ c w. refl;
  destroys = λ c w. refl;
}

abbrev socket : Connection (UnixSocket Server)
socket = UnixSocket.connection quiet runtime

abbrev lines : Connection (LineBuffer (UnixSocket Server))
lines = LineBuffer.connection socket (system_runtime quiet runtime) 9

-- A line buffer at 20, which the table has, around a socket at 19, which it does not have.
abbrev registered : LineBuffer (UnixSocket Server)
registered = line_buffer 20 (unix_socket quiet 19 (some 5) 6 0 two_connections) true

shutdown_returns_iff_example :
    (((lines.shutdown registered).0 ≡ ok tt)
      ↔ AllGone 5 (around alone registered).0 registered.wrapped.system.connections)
    × ((image (λ d. d.wrapped.system) (lines.shutdown registered)
          ≡ (ok tt, registered.wrapped.system))
        ↔ AllGone 5 (around alone registered).0 registered.wrapped.system.connections)
shutdown_returns_iff_example =
    shutdown_returns_iff system 5 {conn = lines} {sv = λ d. d.wrapped.system} {view = around alone}
      registered
      (line-IsMember system 5 (system_runtime quiet runtime)
        (system_runtime-IsAttached system 5 quiet quiet-SparesServer runtime runtime-IsAttached)
        socket (socket-IsMember system 5 quiet quiet-SparesServer runtime runtime-IsAttached) 9)

-- A range reader of the same kind, whose peer has closed.
abbrev half_read : RangeReader (UnixSocket Server)
half_read = range_reader 20 (unix_socket quiet 19 (some 5) 6 0 two_connections) 3 true

socket-ReadsAlone : ReadsAlone socket (λ u. u.system) alone
unfolding UnixSocket.connection UnixSocket.receive UnixSocket.received_by
socket-ReadsAlone n flags u = (refl, refl)

range_shutdown_returns_iff_example :
    let rt = system_runtime quiet runtime in
    let o = RangeReader.shutdown socket rt 9 half_read in
    let free =
      AllGone 5 (around alone half_read).0 two_connections.connections
      × ((RangeReader.drain socket 9
            ((forward_runtime rt).lock 20
              (deregister (forward_runtime rt) (decorator_object socket skip) half_read).1).1).0
          ≡ ok tt) in
    ((o.0 ≡ ok tt) ↔ free) × ((image (λ q. q.wrapped.system) o ≡ (ok tt, two_connections)) ↔ free)
unfolding unix_socket
range_shutdown_returns_iff_example =
    range_shutdown_returns_iff system 5 (system_runtime quiet runtime)
      (system_runtime-IsAttached system 5 quiet quiet-SparesServer runtime runtime-IsAttached)
      socket (socket-IsMember system 5 quiet quiet-SparesServer runtime runtime-IsAttached)
      socket-ReadsAlone 9 half_read
