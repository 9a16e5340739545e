-- ===== src/Tests/Handles.antt =====
-- OpenSSL over the numbers of contexts and handles that are held, with a peer that fails the
-- handshake.
use libsiot.Base.{ℕ, suc, ◌-◌, refl, true, false, some, [], length}
use libsiot.Base.Int.{pos}
use libsiot.SslContext.{server_ssl_context}
use libsiot.UnixSocket.{Sockets, received}
use libsiot.OpenSsl.{OpenSsl, ssl_connection}
use libsiot.OpenSsl.Life.{CountsObjects, LeavesObjects, ssl_connection-LeavesObjects}

-- The contexts and the handles.
abbrev Held : Type 0
Held = ℕ × ℕ

abbrev contexts : Held → ℕ
contexts w = w.0

abbrev handles : Held → ℕ
handles w = w.1

abbrev quiet : Sockets Held
quiet = record {
  recv = λ fd len flags w. (received [], w);
  send = λ fd bytes flags w. (pos (length bytes), w);
  time = λ w. 7;
  get_flags = λ fd w. 2;
  set_flags = λ fd val w. w;
  shutdown_both = λ fd w. w;
  close = λ fd w. w;
  sockaddr_text = λ peer w. "unix:/tmp/sock";
  ebadf = 9;
  einval = 22;
  enotconn = 107;
  nonblock = 2048;
}

abbrev counting : OpenSsl Held
counting = record {
  ctx_new = λ w. (true, (suc w.0, w.1));
  use_certificate_file = λ file w. (pos 1, w);
  use_private_key_file = λ file w. (pos 1, w);
  ssl_new = λ w. (true, (w.0, suc w.1));
  set_fd = λ fd w. (pos 1, w);
  accept = λ w. (pos 0, w);
  pending = λ w. 0;
  read = λ len w. (pos 0, [], w);
  write = λ bytes w. (pos (length bytes), w);
  get_error = λ ret w. pos 6;
  is_syscall_error = λ e. false;
  queued_error = λ w. (pos 0, w);
  get_shutdown = λ w. pos 0;
  shutdown = λ w. w;
  ssl_free = λ w. (w.0, w.1 - 1);
  ctx_free = λ w. (w.0 - 1, w.1);
  errno_text = λ w. "Success";
  number_text = λ n. "0";
  error_text = λ n. "failed";
}

counting-CountsObjects : CountsObjects counting contexts handles
counting-CountsObjects = record {
  ctx_new = λ w. (refl, refl);
  certificate = λ file w. (refl, refl);
  private_key = λ file w. (refl, refl);
  ssl_new = λ w. (refl, refl);
  queued_error = λ w. (refl, refl);
  set_fd = λ fd w. (refl, refl);
  accept = λ w. (refl, refl);
  shutdown = λ w. (refl, refl);
  ssl_free = λ w. (refl, refl);
  ctx_free = λ w. (refl, refl);
}

ssl_connection-LeavesObjects_example :
    LeavesObjects quiet counting counting-CountsObjects
      (0, 0)
      (ssl_connection quiet counting 40 (some 5) 9 0 (server_ssl_context "c.pem" "k.pem") (0, 0))
ssl_connection-LeavesObjects_example =
    ssl_connection-LeavesObjects quiet counting counting-CountsObjects 40 9 0 (some 5)
      (server_ssl_context "c.pem" "k.pem") (0, 0)
