-- ===== src/LineBuffer/Closing.antt =====
-- `LineBufferDecorator::Shutdown`.
use libsiot.Base.{ℕ, List}
use libsiot.Connection.{Connection, Runtime}
use libsiot.Connection.Closing.{Deed, View, IsLogged, IsClosable}
use libsiot.Decorator.Closing.{decorated_view, decorated-Logs}
use libsiot.LineBuffer.{shutdown, connection}

module _ {S : Type 0} {trace : S → List Deed} {view : S → View} (rt : Runtime S)
    (logged : IsLogged rt trace view) (conn : Connection S)
    (closable : IsClosable conn trace view) where
  -- Around a connection whose `Shutdown` comes back and makes known calls, and where
  -- `DequeueConnection` of the server, the lock and the deletion come back and leave those calls
  -- alone: `Shutdown` of a line buffer comes back, and its calls are, in this order: it
  -- leaves the server of what it wraps, if there is one, takes its own lock, makes the calls of the
  -- wrapped connection's `Shutdown` if it owns it, and none of them if not, and deletes itself.
  pub line-IsClosable :
      (fuel : ℕ) → IsClosable (connection conn rt fuel) (λ d. trace d.wrapped) (decorated_view view)
  unfolding connection shutdown
  line-IsClosable fuel = record {
    shuts = decorated-Logs rt logged conn closable;
    serves = λ d. closable.serves d.wrapped;
  }
