-- ===== src/UnixSocket.antt =====
-- unixsocketconnection.cc and unixsocketconnection.h: a connection over a socket of the operating
-- system, whose calls are parameters.
pub mod Source
pub mod Sink
pub mod Closed
pub mod Blocking
pub mod Closing
use libsiot.Base.{
  ℕ, ◌-◌, ◌||◌, Bool, true, false, Option, Bytes, [], String, Result, ok, Action, modify, gets,
  ◌>>=◌, ◌>>◌, if◌then◌else◌, ltb, ◌==◌,
}
use libsiot.Base.Int.{ℤ}
use libsiot.Connection.{Connection, Runtime, Object, deregister, base_is_shutdown}
use Prim.Native.Nat.{bit_and}

-- The outcome of `recv`: the bytes, or -1 and `errno`.
pub data Recv : Type 0 where
  received : Bytes → Recv
  failed : ℕ → Recv

-- The system calls, the clock and `c_sockaddr2str` over the state `W` of the system, and the
-- constants of its headers. Flags and `errno` values are non-negative; the word of `F_GETFL` is
-- given by its 32 bits.
pub record Sockets (W : Type 0) : Type 0 where
  pub recv : ℕ → ℕ → ℕ → W → Recv × W
  pub send : ℕ → Bytes → ℕ → W → ℤ × W
  pub time : W → ℕ
  pub get_flags : ℕ → W → ℕ
  pub set_flags : ℕ → ℕ → W → W
  pub shutdown_both : ℕ → W → W
  pub close : ℕ → W → W
  pub sockaddr_text : ℕ → W → String
  pub ebadf : ℕ
  pub einval : ℕ
  pub enotconn : ℕ
  pub nonblock : ℕ

-- The fields of the object, with the system.
pub record UnixSocket (W : Type 0) : Type 0 where
  pub self : ℕ
  pub is_shutdown_ : Bool
  pub socket : ℕ
  pub peer : ℕ
  pub server : Option ℕ
  pub eof : Bool
  pub last_use : ℕ
  pub system : W

module _ {W : Type 0} (net : Sockets W) where
  -- The constructor, at the address `self`.
  unfoldable pub unix_socket : ℕ → Option ℕ → ℕ → ℕ → W → UnixSocket W
  unix_socket self srv socketid peer w = record {
    self = self;
    is_shutdown_ = false;
    socket = socketid;
    peer = peer;
    server = srv;
    eof = false;
    last_use = net.time w;
    system = w;
  }

  -- The size of the buffer of `Receive`. `maxlen` is unsigned.
  unfoldable pub buffer_size : ℕ → ℕ
  buffer_size maxlen = if maxlen == 0 || ltb 65536 maxlen then 65536 else maxlen

  -- The errors after which `Receive` reports the end.
  unfoldable pub is_dead : ℕ → Bool
  is_dead errno = errno == net.ebadf || (errno == net.einval || errno == net.enotconn)

  -- What `Receive` makes of the outcome of `recv`.
  unfoldable pub received_by : UnixSocket W → Recv × W → Result Bytes × UnixSocket W
  received_by u (received d, w) = (ok d, record u { last_use = net.time w; system = w })
  received_by u (failed errno, w) = (
    ok [],
    record u { eof = (if is_dead errno then true else u.eof); last_use = net.time w; system = w },
  )

  -- `UNIXSocketConnection::Receive`
  unfoldable pub receive : ℕ → ℕ → Action (UnixSocket W) Bytes
  receive maxlen flags u = received_by u (net.recv u.socket (buffer_size maxlen) flags u.system)

  -- `UNIXSocketConnection::Send`
  unfoldable pub send : Bytes → ℕ → Action (UnixSocket W) ℤ
  send bytes flags u =
      let (sent, w) = net.send u.socket bytes flags u.system in
      (ok sent, record u { last_use = net.time u.system; system = w })

  -- `UNIXSocketConnection::SetBlocking`. `~O_NONBLOCK` is of 32 bits.
  unfoldable pub set_blocking : Bool → UnixSocket W → UnixSocket W
  set_blocking true u =
      let val = net.get_flags u.socket u.system in
      record u {
        system = net.set_flags u.socket (bit_and val (0xffffffff - net.nonblock)) u.system;
      }
  set_blocking false u = record u { system = net.set_flags u.socket net.nonblock u.system }

  abbrev pub on_system : {A : Type 0} → Action W A → Action (UnixSocket W) A
  on_system m u = let (r, w) = m u.system in (r, record u { system = w })

  abbrev pub system_runtime : Runtime W → Runtime (UnixSocket W)
  system_runtime rt = record {
    dequeue_connection = λ srv c. on_system (rt.dequeue_connection srv c);
    defer_shutdown = λ srv c. on_system (rt.defer_shutdown srv c);
    lock = λ c. on_system (rt.lock c);
    destroy = λ c. on_system (rt.destroy c);
  }

  -- The base class's view of a socket whose `Shutdown` is given.
  abbrev pub socket_object : Action (UnixSocket W) (Unit {0}) → Object (UnixSocket W)
  socket_object shutdown = record {
    self = λ u. u.self;
    is_shutdown_flag = λ u. u.is_shutdown_;
    mark_shutdown = λ u. record u { is_shutdown_ = true };
    virtual_get_server = λ u. u.server;
    virtual_shutdown = shutdown;
  }

  -- `UNIXSocketConnection::Shutdown`
  unfoldable pub shutdown : Runtime W → Action (UnixSocket W) (Unit {0})
  shutdown rt u =
      (do
        modify (λ v. record v { eof = true })
        deregister (system_runtime rt) (socket_object (λ v. (ok tt, v)))
        (system_runtime rt).lock u.self
        modify (λ v. record v { system = net.shutdown_both v.socket v.system })
        modify (λ v. record v { system = net.close v.socket v.system })
        (system_runtime rt).destroy u.self)
        u

  -- `PeerAsText`, `GetServer`, `IsEOF` and `GetLastUse` read the fields.
  unfoldable pub connection : Runtime W → Connection (UnixSocket W)
  connection rt = record {
    receive = receive;
    send = send;
    peer_as_text = λ u. net.sockaddr_text u.peer u.system;
    get_server = λ u. u.server;
    is_eof = λ u. u.eof;
    get_last_use = λ u. u.last_use;
    set_blocking = λ b. modify (set_blocking b);
    shutdown = shutdown rt;
    is_shutdown = base_is_shutdown (system_runtime rt) (socket_object (shutdown rt));
  }
