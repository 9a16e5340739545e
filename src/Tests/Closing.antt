-- ===== src/Tests/Closing.antt =====
-- `Shutdown` of a socket and of decorators around it, in a system that logs the calls.
use libsiot.Base.{
  refl, true, false, none, some, Bytes, List, [], ◌∷◌, take, drop, length, ok, Action, ◌≡◌,
}
use libsiot.Base.Int.{pos}
use libsiot.Connection.{Connection, Runtime}
use libsiot.Connection.Closing.{
  Deed, dequeued, shut_both, closed, locked, destroyed, IsLogged, IsClosable,
}
use libsiot.UnixSocket
use libsiot.UnixSocket.{
  Sockets, UnixSocket, received, unix_socket, system_runtime, receive, received_by,
}
use libsiot.UnixSocket.Closing.{LogsCalls, socket_view, socket-IsClosable, system_runtime-IsLogged}
use libsiot.Decorator.Closing.{locked_state}
use libsiot.OpenSsl
use libsiot.OpenSsl.{OpenSsl}
use libsiot.OpenSsl.Closing.{KeepsOpen, ssl_view, ssl-IsClosable}
use libsiot.RangeReader
use libsiot.RangeReader.{RangeReader, range_reader}
use libsiot.RangeReader.Closing.{IsSilentReader, Closes, range_shutdown-Closes}

-- What the system still has to hand over, and the calls that it has logged.
abbrev Host : Type 0
Host = Bytes × List Deed

abbrev logs : Deed → Action Host (Unit {0})
logs d w = (ok tt, (w.0, d ∷ w.1))

abbrev host : Sockets Host
host = record {
  recv = λ fd len flags w. (received (take len w.0), (drop len w.0, w.1));
  send = λ fd bytes flags w. (pos (length bytes), w);
  time = λ w. 7;
  get_flags = λ fd w. 2;
  set_flags = λ fd val w. w;
  shutdown_both = λ fd w. (w.0, shut_both fd ∷ w.1);
  close = λ fd w. (w.0, closed fd ∷ w.1);
  sockaddr_text = λ peer w. "unix:/tmp/sock";
  ebadf = 9;
  einval = 22;
  enotconn = 107;
  nonblock = 2048;
}

abbrev runtime : Runtime Host
runtime = record {
  dequeue_connection = λ srv c. logs (dequeued srv c);
  defer_shutdown = λ srv c w. (ok tt, w);
  lock = λ c. logs (locked c);
  destroy = λ c. logs (destroyed c);
}

abbrev deeds : Host → List Deed
deeds w = w.1

host-LogsCalls : LogsCalls host deeds
host-LogsCalls = record { shuts = λ fd w. refl; closes = λ fd w. refl }

runtime-IsLogged : IsLogged runtime deeds (λ _. ([], none))
runtime-IsLogged = record {
  dequeues = λ srv c w. record { returns = refl; logs = refl };
  dequeue_same = λ srv c w. refl;
  locks = λ c w. record { returns = refl; logs = refl };
  lock_same = λ c w. refl;
  destroys = λ c w. record { returns = refl; logs = refl };
}

abbrev socket_deeds : UnixSocket Host → List Deed
socket_deeds u = u.system.1

abbrev socket : Connection (UnixSocket Host)
socket = UnixSocket.connection host runtime

abbrev socket_runtime : Runtime (UnixSocket Host)
socket_runtime = system_runtime host runtime

socket-IsClosable_example : IsClosable socket socket_deeds socket_view
socket-IsClosable_example = socket-IsClosable host host-LogsCalls runtime runtime-IsLogged

socket_runtime-IsLogged : IsLogged socket_runtime socket_deeds socket_view
socket_runtime-IsLogged = system_runtime-IsLogged host host-LogsCalls runtime runtime-IsLogged

-- OpenSSL, which closes no descriptor.
abbrev lent : OpenSsl Host
lent = record {
  ctx_new = λ w. (true, w);
  use_certificate_file = λ file w. (pos 1, w);
  use_private_key_file = λ file w. (pos 1, w);
  ssl_new = λ w. (true, w);
  set_fd = λ fd w. (pos 1, w);
  accept = λ w. (pos 1, w);
  pending = λ w. length w.0;
  read = λ len w. (pos 0, [], w);
  write = λ bytes w. (pos (length bytes), w);
  get_error = λ ret w. pos 6;
  is_syscall_error = λ e. false;
  queued_error = λ w. (pos 0, w);
  get_shutdown = λ w. pos 0;
  shutdown = λ w. w;
  ssl_free = λ w. w;
  ctx_free = λ w. w;
  errno_text = λ w. "Success";
  number_text = λ n. "6";
  error_text = λ n. "closed";
}

lent-KeepsOpen : KeepsOpen lent deeds
lent-KeepsOpen = record { shuts = λ w. refl; frees = λ w. refl; context_frees = λ w. refl }

ssl-IsClosable_example :
    IsClosable (OpenSsl.connection host lent runtime) (λ c. c.base.system.1) ssl_view
ssl-IsClosable_example = ssl-IsClosable host lent lent-KeepsOpen runtime runtime-IsLogged

socket-IsSilentReader : IsSilentReader socket socket_deeds socket_view
unfolding UnixSocket.connection receive received_by
socket-IsSilentReader n s = (refl, refl)

abbrev two_of_three : RangeReader (UnixSocket Host)
two_of_three = range_reader 2 (unix_socket host 1 (some 5) 4 0 (1 ∷ 2 ∷ 3 ∷ [], [])) 2 true

range_shutdown-Closes_example :
    ((RangeReader.shutdown socket socket_runtime 9 two_of_three).0
      ≡ (RangeReader.drain socket 9 (
          locked_state socket_runtime socket_runtime-IsLogged socket
            (socket-IsClosable host host-LogsCalls runtime runtime-IsLogged)
            two_of_three)).0)
    × Closes socket socket-IsSilentReader two_of_three
        (RangeReader.shutdown socket socket_runtime 9 two_of_three)
range_shutdown-Closes_example =
    range_shutdown-Closes socket socket-IsSilentReader socket_runtime socket_runtime-IsLogged
      (socket-IsClosable host host-LogsCalls runtime runtime-IsLogged) 9 two_of_three
