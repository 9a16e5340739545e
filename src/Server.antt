-- ===== src/Server.antt =====
-- siot/server.h and the `Server` methods of server.cc: the state of a server, the calls that it
-- makes outside its class, and its table of connections. The thread pool, the kernel and the
-- connection objects are parameters: what they answer is an `Env`, what is asked of them is logged.
pub mod Connections
pub mod Registry
pub mod Listener
pub mod Reaper
pub mod Wakes
pub mod Rounds
pub mod Life
pub mod Frame
pub mod Locks
pub mod Threads
pub mod Batch
pub mod Idle
pub mod Objects
pub mod Readable
pub mod Removal
pub mod Attached
pub mod Callbacks
pub mod Pool
use libsiot.Base.{
  ℕ, Bool, true, false, Option, none, String, List, [], ◌∷◌, Result, Action, modify, ok,
}
use libsiot.Base.Int.{ℤ, pos, negsuc}
use libsiot.SslContext.{ServerSslContext}
use Connections.{Table}

-- The methods of `ConnectionCallback` that run in the thread pool, and a call of one: a callback
-- object, by its address, and the method.
pub data Method : Type 0 where
  established terminated error data_ready : Method

pub record Callback : Type 0 where
  pub object : ℕ
  pub method : Method

-- A closure in the pool: `LockCallAndUnlock` of a callback, a callback alone, or `Shutdown`, on the
-- connection with the given address.
pub data Task : Type 0 where
  guarded : Callback → ℕ → Task
  bare : Callback → ℕ → Task
  shut : ℕ → Task

-- A call of the server on something outside its class: the callback object, the counters, the
-- kernel, a connection object, the condition variable, the pool, which is given the reaper, and
-- `connected_.Reset`, which deletes the object that was there. `ran` is a callback run by a task.
pub data Effect : Type 0 where
  connection_failed : String → Effect
  accept_errors client_connection_errors epoll_errors : String → Effect
  read_after_close notify reaper_added : Effect
  callback_reset : ℕ → Effect
  epoll_add epoll_delete : ℕ → Effect
  read_lock unlock shutdown : ℕ → Effect
  ran : Callback → ℕ → Effect

-- The fields. `log` and `tasks` have the newest first; the pool may run its tasks in any order.
pub record Server : Type 0 where
  pub callback : ℕ
  pub ssl_context : Option ServerSslContext
  pub maxconn : ℤ
  pub num_threads : ℕ
  pub max_idle : ℤ
  pub running_ : Bool
  pub serverfd : ℕ
  pub connections : Table
  pub tasks : List Task
  pub log : List Effect

-- The outcome of `accept`: a message, or the new descriptor.
pub data Accept : Type 0 where
  refused : String → Accept
  accepted : ℕ → Accept

-- A failure of `epoll_ctl`: whether `errno` is `EBADFD`, and its text.
pub record Refusal : Type 0 where
  pub is_ebadfd : Bool
  pub message : String

-- The exception for a server that cannot be set up, and its `what`.
pub record ServerSetupException : Type 0 where
  pub errmsg : String

abbrev pub what : ServerSetupException → String
what e = e.errmsg

-- What the rest of the system answers: the connection objects by address, the clock, the listening
-- socket by the number of the event, the constructors of `OpenSSLConnection` and
-- `UNIXSocketConnection`, of which `ssl_context_` chooses one, the callback object's
-- `AddDecorators`, and `epoll_ctl` by descriptor, `none` for success.
pub record Env : Type 0 where
  pub is_shutdown : ℕ → Bool
  pub last_use : ℕ → ℕ
  pub time : ℕ
  pub accept : ℕ → Accept
  pub construct : Option ServerSslContext → ℕ → Result ℕ
  pub add_decorators : ℕ → ℕ
  pub try_epoll_add : ℕ → Option String
  pub try_epoll_delete : ℕ → Option Refusal

-- The constructor, for a socket that could be made.
unfoldable pub server : ℕ → ℕ → ℕ → Server
server connected num_threads fd = record {
  callback = connected;
  ssl_context = none;
  maxconn = pos num_threads;
  num_threads = num_threads;
  max_idle = negsuc 0;
  running_ = true;
  serverfd = fd;
  connections = [];
  tasks = [];
  log = [];
}

-- `Server::Shutdown`
unfoldable pub stop : Server → Server
stop s = record s { running_ = false }

-- `Server::SetMaxConnections`
unfoldable pub set_max_connections : ℤ → Server → Server
set_max_connections n s = record s { maxconn = n }

-- `Server::SetConnectionCallback`
unfoldable pub set_connection_callback : ℕ → Server → Server
set_connection_callback connected s = record s {
  callback = connected;
  log = callback_reset connected ∷ s.log;
}

-- `Server::SetServerSSLContext`
unfoldable pub set_server_ssl_context : Option ServerSslContext → Server → Server
set_server_ssl_context c s = record s { ssl_context = c }

-- `Server::SetMaxIdle`
unfoldable pub set_max_idle : ℤ → Server → Server
set_max_idle n s = record s { max_idle = n }

-- A call outside.
abbrev pub emit : Effect → Action Server (Unit {0})
emit e = modify (λ s. record s { log = e ∷ s.log })

-- `executor_.Add`
abbrev pub add_task : Task → Action Server (Unit {0})
add_task t = modify (λ s. record s { tasks = t ∷ s.tasks })

-- A call of a method of `connected_`, made now or by a closure in the pool.
abbrev pub current : Server → Method → Callback
current s m = record { object = s.callback; method = m }

abbrev pub call_now : Method → ℕ → Action Server (Unit {0})
call_now m conn s = (ok tt, record s { log = ran (current s m) conn ∷ s.log })

abbrev pub add_call : (Callback → Task) → Method → Action Server (Unit {0})
add_call task m s = (ok tt, record s { tasks = task (current s m) ∷ s.tasks })

abbrev pub set_connections : Table → Server → Server
set_connections m s = record s { connections = m }
