-- ===== src/Server/Threads/Watched.antt =====
-- Which descriptors the kernel is asked to watch: the calls of `epoll_ctl` against the table.
use libsiot.Base.{
  ℕ, ◌≡◌, ◌≢◌, refl, Bool, true, false, Option, none, some, List, [], ◌∷◌, if◌then◌else◌, ◌==◌,
  arith,
}
use libsiot.Server.{
  Server, server, Effect, connection_failed, epoll_add, epoll_delete, stop, set_max_idle,
  set_max_connections, set_server_ssl_context, set_connection_callback,
}
use libsiot.Server.Connections.{
  Ascends, lookup, lookup-insert, lookup-erase, insert-Ascends, erase-Ascends,
}
use libsiot.Server.Frame.{IsFrame, IsNeutral}
use libsiot.Server.Threads.{Reach, IsUnset, Reach-Keeps}

-- Whether the last call of `epoll_ctl` for `fd` was one of `EPOLL_CTL_ADD`.
abbrev pub watched : ℕ → List Effect → Bool
watched fd [] = false
watched fd (epoll_add k ∷ es) = if k == fd then true else watched fd es
watched fd (epoll_delete k ∷ es) = if k == fd then false else watched fd es
watched fd (e ∷ es) = watched fd es

-- Whether an entry of the table is there and points to an object.
abbrev pub is_connection : Option (Option ℕ) → Bool
is_connection none = false
is_connection (some none) = false
is_connection (some (some conn)) = true

abbrev IsWatched : ℕ → ℕ → Server → Type 0
IsWatched serverfd fd s =
    Ascends 0 s.connections
    × (watched fd s.log ≡ is_connection (lookup fd s.connections))
    × (s.serverfd ≡ serverfd)

module _ (serverfd fd : ℕ) (other : fd ≢ serverfd) where
  emits :
      (e : Effect) (s : Server)
      → IsNeutral e
      → IsWatched serverfd fd s
      → IsWatched serverfd fd (record s { log = e ∷ s.log })
  emits (epoll_add k) s n h = absurd n
  emits (epoll_delete k) s n h = absurd n
  emits (connection_failed m) s n h = h
  emits e s n h = h

  IsWatched-IsFrame : IsFrame (IsWatched serverfd fd)
  IsWatched-IsFrame = record {
    calm = record {
      shrinks = record {
        emits = emits;
        queues = λ t s n e h. h;
        removes = λ k s h. (
          erase-Ascends 0 k s.connections h.0,
          ground (arith, lookup-erase 0 k fd s.connections h.0),
          h.2,
        );
        dequeues = λ before after t s n e h. h;
      };
      locks = λ f c s e h. h;
      registers = λ k v s h. (
        insert-Ascends 0 k (some v) s.connections (omega arith) h.0,
        ground (arith, lookup-insert k fd (some v) s.connections),
        h.2,
      );
      enters = λ k s e h. (
        insert-Ascends 0 k none s.connections (omega arith) h.0,
        ground (arith, lookup-insert k fd none s.connections),
        h.2,
      );
    };
    finishes = λ before after f c s e h. h;
  }

  unwatched :
      (s : Server)
      → IsWatched serverfd fd s
      → watched fd (epoll_add s.serverfd ∷ s.log) ≡ is_connection (lookup fd s.connections)
  unwatched s h = let kept = h.1 in let same = h.2 in ground arith

  IsWatched-IsUnset : IsUnset (IsWatched serverfd fd)
  unfolding stop set_max_idle set_max_connections set_server_ssl_context set_connection_callback
  IsWatched-IsUnset = record {
    stops = λ s h. h;
    idles = λ n s h. h;
    maxima = λ n s h. h;
    callbacks = λ n s h. h;
    contexts = λ c s h. h;
    watches = λ s h. (h.0, unwatched s h, h.2);
  }

-- In every state that a new server reaches by the threads' steps, whatever the system answers: the
-- last call of `epoll_ctl` for a descriptor other than the listening socket's, if there was one,
-- was one of `EPOLL_CTL_ADD` exactly if the table has an entry for the descriptor that points to an
-- object. A state that an undefined step leaves is counted.
pub Reach-IsWatched :
    (fd connected num_threads serverfd : ℕ) {t : Server}
    → fd ≢ serverfd
    → Reach (server connected num_threads serverfd) t
    → watched fd t.log ≡ is_connection (lookup fd t.connections)
unfolding server
Reach-IsWatched fd connected num_threads serverfd other r =
    (Reach-Keeps (IsWatched-IsFrame serverfd fd other) (IsWatched-IsUnset serverfd fd other) r
      (tt, refl, refl)).1
