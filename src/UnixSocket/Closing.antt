-- ===== src/UnixSocket/Closing.antt =====
-- `UNIXSocketConnection::Shutdown`.
use mathlib.Core.Path.{subst}
use libsiot.Base.{ℕ, ◌≡◌, refl, List, [], ◌∷◌, ok, Option, modify, ◌>>◌, Action, none, true, some}
use libsiot.Connection.{Runtime, Object, deregister, dequeue_by}
use libsiot.Connection.Closing.{
  Deed, shut_both, closed, destroyed, locked, View, Logs, IsLogged, IsClosable, Logs->>,
  deregister-Logs, dequeued_by,
}
use libsiot.UnixSocket.{Sockets, UnixSocket, system_runtime, socket_object, shutdown, connection}

-- The object leaves its server, takes its lock, shuts its descriptor down and closes it, and goes.
abbrev pub socket_view : {W : Type 0} → UnixSocket W → View
socket_view u = (
  destroyed u.self
      ∷ closed u.socket
      ∷ shut_both u.socket
      ∷ locked u.self
      ∷ dequeued_by u.server u.self,
  u.server,
)

-- The system logs the two calls on a descriptor.
pub record LogsCalls {W : Type 0} (net : Sockets W) (trace : W → List Deed) : Type 0 where
  pub shuts : (fd : ℕ) (w : W) → trace (net.shutdown_both fd w) ≡ shut_both fd ∷ trace w
  pub closes : (fd : ℕ) (w : W) → trace (net.close fd w) ≡ closed fd ∷ trace w

module _ {W : Type 0} (net : Sockets W) {trace : W → List Deed} (calls : LogsCalls net trace)
    (rt : Runtime W) (logged : IsLogged rt trace (λ _. ([], none))) where
  pub system_runtime-IsLogged : IsLogged (system_runtime net rt) (λ u. trace u.system) socket_view
  system_runtime-IsLogged = record {
    dequeues = λ srv c u.
        let l = logged.dequeues srv c u.system in record { returns = l.returns; logs = l.logs };
    dequeue_same = λ srv c u. refl;
    locks = λ c u. let l = logged.locks c u.system in record { returns = l.returns; logs = l.logs };
    lock_same = λ c u. refl;
    destroys =
        λ c u. let l = logged.destroys c u.system in record { returns = l.returns; logs = l.logs };
  }

  abbrev as_object : Object (UnixSocket W)
  as_object = socket_object net (λ v. (ok tt, v))

  abbrev on_socket : (ℕ → W → W) → Action (UnixSocket W) (Unit {0})
  on_socket f = modify (λ v. record v { system = f v.socket v.system })

  abbrev close_and_go : ℕ → Action (UnixSocket W) (Unit {0})
  close_and_go self =
      on_socket net.shutdown_both >> (on_socket net.close >> (system_runtime net rt).destroy self)

  socket_kept :
      (srv : Option ℕ) (c : ℕ) (u : UnixSocket W)
      → (dequeue_by (system_runtime net rt) as_object srv c u).1.socket ≡ u.socket
  socket_kept none c u = refl
  socket_kept (some srv) c u = refl

  close_and_go-Logs :
      (self : ℕ) (u : UnixSocket W)
      → Logs
          (λ v. trace v.system)
          u
          (destroyed self ∷ closed u.socket ∷ shut_both u.socket ∷ [])
          (close_and_go self u)
  close_and_go-Logs self u =
      let u1 : UnixSocket W = record u { system = net.shutdown_both u.socket u.system } in
      let u2 : UnixSocket W = record u { system = net.close u.socket u1.system } in
      Logs->> {ds = shut_both u.socket ∷ []} (on_socket net.shutdown_both)
        (on_socket net.close >> (system_runtime net rt).destroy self) u
        (record { returns = refl; logs = calls.shuts u.socket u.system })
        (Logs->> {ds = closed u.socket ∷ []} (on_socket net.close)
          ((system_runtime net rt).destroy self) u1
          (record { returns = refl; logs = calls.closes u.socket u1.system })
          (system_runtime-IsLogged.destroys self u2))

  shutdown-Logs :
      (u : UnixSocket W) → Logs (λ v. trace v.system) u (socket_view u).0 (shutdown net rt u)
  unfolding shutdown deregister
  shutdown-Logs u =
      let u0 : UnixSocket W = record u { eof = true } in
      let rt' = system_runtime net rt in
      let leave = deregister-Logs rt' system_runtime-IsLogged as_object (λ q. (refl, refl)) u0 in
      let u1 = (deregister rt' as_object u0).1 in
      let u2 = (rt'.lock u.self u1).1 in
      let all =
        Logs->> (deregister rt' as_object) (rt'.lock u.self >> close_and_go u.self) u0 leave.0 (
          Logs->> (rt'.lock u.self) (close_and_go u.self) u1
            (system_runtime-IsLogged.locks u.self u1) (close_and_go-Logs u.self u2)) in
      let logs : Logs (λ v. trace v.system) u0 (socket_view u).0 (shutdown net rt u) =
        subst
          (λ fd.
            Logs (λ v. trace v.system) u0
              (destroyed u.self
                ∷ closed fd
                ∷ shut_both fd
                ∷ locked u.self
                ∷ dequeued_by u.server u.self)
              (shutdown net rt u))
          (socket_kept u.server u.self (as_object.mark_shutdown u0)) all in
      record { returns = logs.returns; logs = logs.logs }

  -- Where `DequeueConnection` of the server, the lock and the deletion come back and leave the
  -- object alone: `Shutdown` of a socket comes back, and its calls are, in this order: it leaves
  -- its server, if it has one, takes the writer's side of its lock, shuts its descriptor down,
  -- closes it, and deletes itself.
  pub socket-IsClosable : IsClosable (connection net rt) (λ u. trace u.system) socket_view
  unfolding connection
  socket-IsClosable = record { shuts = shutdown-Logs; serves = λ u. refl }
