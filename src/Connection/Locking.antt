-- ===== src/Connection/Locking.antt =====
-- The lock of a connection: `Connection` is itself a `ReadWriteMutex` of thread++, by the one that
-- it has.
use libsiot.Base.{Bool, Action}

-- A `ReadWriteMutex`.
pub record ReadWriteMutex (S : Type 0) : Type 0 where
  pub lock : Action S (Unit {0})
  pub try_lock : Action S Bool
  pub unlock : Action S (Unit {0})
  pub read_lock : Action S (Unit {0})
  pub try_read_lock : Action S Bool

module _ {S : Type 0} (mtx : ReadWriteMutex S) where
  -- `Connection::Lock`
  abbrev pub lock : Action S (Unit {0})
  lock = mtx.lock

  -- `Connection::TryLock`
  abbrev pub try_lock : Action S Bool
  try_lock = mtx.try_lock

  -- `Connection::Unlock`
  abbrev pub unlock : Action S (Unit {0})
  unlock = mtx.unlock

  -- `Connection::ReadLock`
  abbrev pub read_lock : Action S (Unit {0})
  read_lock = mtx.read_lock

  -- `Connection::TryReadLock`
  abbrev pub try_read_lock : Action S Bool
  try_read_lock = mtx.try_read_lock
