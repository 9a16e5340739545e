-- ===== src/Connection.antt =====
-- siot/connection.h and the `Connection` methods of server.cc: the interface that every connection
-- and decorator implements, and the part of its behaviour that the base class fixes.
pub mod Contract
pub mod Closing
pub mod Locking
pub mod Sink
use libsiot.Base.{
  ℕ, Bool, Option, none, some, Bytes, String, Action, ◌>>=◌, ◌>>◌, modify, skip, gets,
}
use libsiot.Base.Int.{ℤ}

-- The virtual methods, over the state `S` that a call can reach: the object, what it wraps, and the
-- operating system. Methods that only read are functions of the state.
pub record Connection (S : Type 0) : Type 0 where
  pub receive : ℕ → ℕ → Action S Bytes
  pub send : Bytes → ℕ → Action S ℤ
  pub peer_as_text : S → String
  pub get_server : S → Option ℕ
  pub is_eof : S → Bool
  pub get_last_use : S → ℕ
  pub set_blocking : Bool → Action S (Unit {0})
  pub shutdown : Action S (Unit {0})
  pub is_shutdown : S → Bool

-- What a connection calls outside its own class: `Server::DequeueConnection` and
-- `Server::DeferShutdown`, the writer side of its mutex (thread++), and `delete this`. A server and
-- a connection are named by their addresses.
pub record Runtime (S : Type 0) : Type 0 where
  pub dequeue_connection : ℕ → ℕ → Action S (Unit {0})
  pub defer_shutdown : ℕ → ℕ → Action S (Unit {0})
  pub lock : ℕ → Action S (Unit {0})
  pub destroy : ℕ → Action S (Unit {0})

-- The base class's view of an object: its address, its flag `is_shutdown_`, and the two virtual
-- methods that the base class calls.
pub record Object (S : Type 0) : Type 0 where
  pub self : S → ℕ
  pub is_shutdown_flag : S → Bool
  pub mark_shutdown : S → S
  pub virtual_get_server : S → Option ℕ
  pub virtual_shutdown : Action S (Unit {0})

module _ {S : Type 0} (rt : Runtime S) (o : Object S) where
  -- The call of the server, if there is one.
  abbrev pub dequeue_by : Option ℕ → ℕ → Action S (Unit {0})
  dequeue_by none c = skip
  dequeue_by (some srv) c = rt.dequeue_connection srv c

  -- `Connection::Deregister`
  unfoldable pub deregister : Action S (Unit {0})
  deregister s = dequeue_by (o.virtual_get_server s) (o.self s) (o.mark_shutdown s)

  -- `Connection::Shutdown`
  unfoldable pub base_shutdown : Action S (Unit {0})
  unfolding deregister
  base_shutdown = deregister

  -- `Connection::DeferredShutdown`
  unfoldable pub deferred_shutdown : Action S (Unit {0})
  deferred_shutdown s = elim (o.virtual_get_server s) [
    | some srv ↦ rt.defer_shutdown srv (o.self s) s
    | none ↦ o.virtual_shutdown s
  ]

  -- `Connection::IsShutdown`
  unfoldable pub base_is_shutdown : S → Bool
  base_is_shutdown s = o.is_shutdown_flag s
