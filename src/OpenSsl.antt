-- ===== src/OpenSsl.antt =====
-- opensslconnection.cc and opensslconnection.h: a socket connection encrypted by OpenSSL, whose
-- functions are parameters. `ssl_mtx_` makes the calls of one connection follow one another, so a
-- call is one step here.
pub mod Silent
pub mod Source
pub mod Sink
pub mod Closing
pub mod Life
use Prim.Native.String.{◌++◌}
use libsiot.Base.{
  ℕ, zero, suc, ◌&&◌, ◌||◌, not, Bool, true, false, Option, none, some, Bytes, [], String, Result,
  ok, throws, Action, ClientConnectionException, modify, skip, throw, pure, ◌>>=◌, ◌>>◌,
  if◌then◌else◌, ltb, ◌==◌, take, undefined,
}
use libsiot.Base.Int.{ℤ, pos, negsuc}
use libsiot.Connection.{Connection, Runtime, Object, deregister, base_is_shutdown}
use libsiot.SslContext.{ServerSslContext, get_cert_file_path, get_private_key_file_path}
use libsiot.UnixSocket.{Sockets, UnixSocket, unix_socket, on_system, system_runtime}

-- The functions of OpenSSL on the connection's context and handle, with the texts of errors.
-- `get_error` is given the result that failed.
pub record OpenSsl (W : Type 0) : Type 0 where
  pub ctx_new : W → Bool × W
  pub use_certificate_file : String → W → ℤ × W
  pub use_private_key_file : String → W → ℤ × W
  pub ssl_new : W → Bool × W
  pub set_fd : ℕ → W → ℤ × W
  pub accept : W → ℤ × W
  pub pending : W → ℕ
  pub read : ℕ → W → ℤ × Bytes × W
  pub write : Bytes → W → ℤ × W
  pub get_error : ℤ → W → ℤ
  pub is_syscall_error : ℤ → Bool
  pub queued_error : W → ℤ × W
  pub get_shutdown : W → ℤ
  pub shutdown : W → W
  pub ssl_free : W → W
  pub ctx_free : W → W
  pub errno_text : W → String
  pub number_text : ℤ → String
  pub error_text : ℤ → String

-- The library's global functions.
pub record OpenSslGlobals (W : Type 0) : Type 0 where
  pub malloc_init : W → W
  pub library_init : W → W
  pub load_error_strings : W → W
  pub load_bio_strings : W → W
  pub add_all_algorithms : W → W

-- The constructor of `OpenSSLConfig`, of which there is one object in a process.
unfoldable pub openssl_config : {W : Type 0} → OpenSslGlobals W → W → W
openssl_config lib w =
    lib.add_all_algorithms
      (lib.load_bio_strings (lib.load_error_strings (lib.library_init (lib.malloc_init w))))

-- The fields of `OpenSSLConnection`, which are its base class's and its own.
pub record SslConnection (W : Type 0) : Type 0 where
  pub base : UnixSocket W
  pub blocking : Bool
  pub ssl_last_use : ℕ

-- A result that the code takes for a success.
abbrev pub positive : ℤ → Bool
positive (pos zero) = false
positive (pos (suc n)) = true
positive (negsuc n) = false

module _ {W : Type 0} (net : Sockets W) (lib : OpenSsl W) where
  abbrev pub on_base : {A : Type 0} → Action (UnixSocket W) A → Action (SslConnection W) A
  on_base m c = let (r, u) = m c.base in (r, record c { base = u })

  abbrev pub failure : String → ℤ → ClientConnectionException
  failure prefix ret = record {
    identifier = prefix ++ lib.number_text ret;
    errmsg = lib.error_text ret;
  }

  -- A step of the constructor whose result is tested by `<= 0`.
  abbrev pub checked : String → (W → ℤ × W) → Action W (Unit {0})
  checked prefix f w =
      let (ret, w') = f w in if positive ret then (ok tt, w') else (throws (failure prefix ret), w')

  -- `SSL_CTX_new`, which fails by a null pointer. It is not tested: the next call is given the null
  -- pointer.
  abbrev pub new_context : Action W (Unit {0})
  new_context w = let (made, w') = lib.ctx_new w in if made then (ok tt, w') else (undefined, w')

  -- `SSL_new`, which fails by a null pointer.
  abbrev pub new_handle : Action W (Unit {0})
  new_handle w =
      let (made, w') = lib.ssl_new w in
      let (ret, w'') = lib.queued_error w' in
      if made then (ok tt, w') else (throws (failure "SSL_set_fd:" ret), w'')

  -- The body of the constructor: the context's files, the handle, the socket, and the handshake.
  unfoldable pub handshake : ServerSslContext → ℕ → Action W (Unit {0})
  handshake context socketid = do
    new_context
    checked "SSL_CTX_use_certificate_file:" (lib.use_certificate_file (get_cert_file_path context))
    checked "SSL_CTX_use_PrivateKey_file:"
        (lib.use_private_key_file (get_private_key_file_path context))
    new_handle
    checked "SSL_set_fd:" (lib.set_fd socketid)
    checked "SSL_accept:" lib.accept

  -- The constructor, at the address `self`.
  unfoldable pub ssl_connection :
      ℕ → Option ℕ → ℕ → ℕ → ServerSslContext → Action W (SslConnection W)
  ssl_connection self srv socketid peer context w =
      (do
        handshake context socketid
        (λ w'. (
          ok (record {
            base = record (unix_socket net self srv socketid peer w) { system = w' };
            blocking = true;
            ssl_last_use = net.time w;
          }),
          w',
        )))
        w

  -- The length that `Receive` reads; `none` is its return with nothing.
  unfoldable pub read_length : Bool → ℕ → ℕ → Option ℕ
  read_length blocking len maxlen =
      if len == 0 && not blocking
      then none
      else let len' =
          if len == 0 then (if maxlen == 0 || ltb 65536 maxlen then 65536 else maxlen) else len in
        some (if ltb 0 maxlen && ltb maxlen len' then maxlen else len')

  -- The exception of `Receive` and `Send` for a result that is not positive.
  unfoldable pub io_failure : String → ℤ → W → ClientConnectionException
  io_failure prefix ret w =
      let errv = lib.get_error ret w in
      if lib.is_syscall_error errv
      then record { identifier = "SSL_read:" ++ lib.errno_text w; errmsg = lib.errno_text w }
      else failure prefix errv

  abbrev pub set_system : W → SslConnection W → SslConnection W
  set_system w c = record c { base = record (c.base) { system = w } }

  -- What `Receive` makes of the outcome of `SSL_read`.
  unfoldable pub read_by : SslConnection W → ℤ × Bytes × W → Result Bytes × SslConnection W
  read_by c (pos zero, buf, w) = (throws (io_failure "SSL_read:" (pos zero) w), set_system w c)
  read_by c (pos (suc n), buf, w) = (ok (take (suc n) buf), set_system w c)
  read_by c (negsuc n, buf, w) = (throws (io_failure "SSL_read:" (negsuc n) w), set_system w c)

  -- `OpenSSLConnection::Receive`
  unfoldable pub receive : ℕ → ℕ → Action (SslConnection W) Bytes
  receive maxlen flags c =
      let c' : SslConnection W = record c { ssl_last_use = net.time c.base.system } in
      elim (read_length c.blocking (lib.pending c.base.system) maxlen) [
        | none ↦ (ok [], c')
        | some len ↦ read_by c' (lib.read len c.base.system)
      ]

  -- `OpenSSLConnection::Send`
  unfoldable pub send : Bytes → ℕ → Action (SslConnection W) ℤ
  send bytes flags c =
      let (ret, w) = lib.write bytes c.base.system in
      let c' : SslConnection W = record (set_system w c) { ssl_last_use = net.time w } in
      if positive ret then (ok ret, c') else (throws (io_failure "SSL_write:" ret w), c')

  -- The base class's view of the connection whose `Shutdown` is given.
  abbrev pub ssl_object : Action (SslConnection W) (Unit {0}) → Object (SslConnection W)
  ssl_object shutdown = record {
    self = λ c. c.base.self;
    is_shutdown_flag = λ c. c.base.is_shutdown_;
    mark_shutdown = λ c. record c { base = record (c.base) { is_shutdown_ = true } };
    virtual_get_server = λ c. c.base.server;
    virtual_shutdown = shutdown;
  }

  abbrev pub base_runtime : Runtime W → Runtime (SslConnection W)
  base_runtime rt = record {
    dequeue_connection = λ srv c. on_base ((system_runtime net rt).dequeue_connection srv c);
    defer_shutdown = λ srv c. on_base ((system_runtime net rt).defer_shutdown srv c);
    lock = λ c. on_base ((system_runtime net rt).lock c);
    destroy = λ c. on_base ((system_runtime net rt).destroy c);
  }

  -- The calls of `Shutdown` on the handle: `SSL_shutdown` unless the state is an error, and the
  -- frees.
  unfoldable pub close_handle : W → W
  close_handle w =
      lib.ctx_free
        (lib.ssl_free (elim (lib.get_shutdown w) [ pos n ↦ lib.shutdown w | negsuc n ↦ w ]))

  -- `OpenSSLConnection::Shutdown`
  unfoldable pub shutdown : Runtime W → Action (SslConnection W) (Unit {0})
  shutdown rt c =
      (do
        deregister (base_runtime rt) (ssl_object (λ v. (ok tt, v)))
        (base_runtime rt).lock c.base.self
        modify (λ v. set_system (close_handle v.base.system) v)
        (base_runtime rt).destroy c.base.self)
        c

  -- `GetLastUse` and `SetBlocking` are of the class; `PeerAsText`, `GetServer` and `IsEOF` are the
  -- base class's.
  unfoldable pub connection : Runtime W → Connection (SslConnection W)
  connection rt = record {
    receive = receive;
    send = send;
    peer_as_text = λ c. net.sockaddr_text c.base.peer c.base.system;
    get_server = λ c. c.base.server;
    is_eof = λ c. c.base.eof;
    get_last_use = λ c. c.ssl_last_use;
    set_blocking = λ b. modify (λ c. record c { blocking = b });
    shutdown = shutdown rt;
    is_shutdown = base_is_shutdown (base_runtime rt) (ssl_object (shutdown rt));
  }
