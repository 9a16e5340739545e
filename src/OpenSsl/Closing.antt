-- ===== src/OpenSsl/Closing.antt =====
-- `OpenSSLConnection::Shutdown`.
use libsiot.Base.{◌≡◌, refl, ◌∙◌, none, List, [], ◌∷◌, ok, Action, modify, ◌>>◌}
use libsiot.Base.Int.{ℤ, pos, negsuc}
use libsiot.Connection.{Runtime, deregister}
use libsiot.Connection.Closing.{
  Deed, destroyed, locked, View, Logs, IsLogged, IsClosable, Logs->>, deregister-Logs, dequeued_by,
}
use libsiot.UnixSocket.{Sockets}
use libsiot.OpenSsl.{
  OpenSsl, SslConnection, base_runtime, ssl_object, close_handle, set_system, shutdown, connection,
}

-- The object leaves its server, takes its lock, and goes.
abbrev pub ssl_view : {W : Type 0} → SslConnection W → View
ssl_view c = (
  destroyed c.base.self ∷ locked c.base.self ∷ dequeued_by c.base.server c.base.self,
  c.base.server,
)

-- `SSL_shutdown`, `SSL_free` and `SSL_CTX_free` do not close the descriptor, which `SSL_set_fd` has
-- only lent.
pub record KeepsOpen {W : Type 0} (lib : OpenSsl W) (trace : W → List Deed) : Type 0 where
  pub shuts : (w : W) → trace (lib.shutdown w) ≡ trace w
  pub frees : (w : W) → trace (lib.ssl_free w) ≡ trace w
  pub context_frees : (w : W) → trace (lib.ctx_free w) ≡ trace w

module _ {W : Type 0} (net : Sockets W) (lib : OpenSsl W) {trace : W → List Deed}
    (keeps : KeepsOpen lib trace) (rt : Runtime W)
    (logged : IsLogged rt trace (λ _. ([], none))) where
  pub base_runtime-IsLogged : IsLogged (base_runtime net lib rt) (λ c. trace c.base.system) ssl_view
  base_runtime-IsLogged = record {
    dequeues = λ srv a c.
        let l = logged.dequeues srv a c.base.system in
        record { returns = l.returns; logs = l.logs };
    dequeue_same = λ srv a c. refl;
    locks = λ a c.
        let l = logged.locks a c.base.system in record { returns = l.returns; logs = l.logs };
    lock_same = λ a c. refl;
    destroys = λ a c.
        let l = logged.destroys a c.base.system in record { returns = l.returns; logs = l.logs };
  }

  close_handle-quiet : (w : W) → trace (close_handle net lib w) ≡ trace w
  unfolding close_handle
  close_handle-quiet w = go (lib.get_shutdown w)
    where
      go :
          (state : ℤ)
          → trace
              (lib.ctx_free (lib.ssl_free (elim state [ pos n ↦ lib.shutdown w | negsuc n ↦ w ])))
            ≡ trace w
      go (pos n) =
          keeps.context_frees (lib.ssl_free (lib.shutdown w))
          ∙ keeps.frees (lib.shutdown w)
          ∙ keeps.shuts w
      go (negsuc n) = keeps.context_frees (lib.ssl_free w) ∙ keeps.frees w

  abbrev free_handle : Action (SslConnection W) (Unit {0})
  free_handle = modify (λ v. set_system net lib (close_handle net lib v.base.system) v)

  shutdown-Logs :
      (c : SslConnection W)
      → Logs (λ v. trace v.base.system) c (ssl_view c).0 (shutdown net lib rt c)
  unfolding shutdown
  shutdown-Logs c =
      let rt' = base_runtime net lib rt in
      let o = ssl_object net lib (λ v. (ok tt, v)) in
      let leave = deregister-Logs rt' base_runtime-IsLogged o (λ q. (refl, refl)) c in
      let c1 = (deregister rt' o c).1 in
      let c2 = (rt'.lock c.base.self c1).1 in
      let c3 = (free_handle c2).1 in
      Logs->> (deregister rt' o) (rt'.lock c.base.self >> (free_handle >> rt'.destroy c.base.self))
        c leave.0
        (Logs->> (rt'.lock c.base.self) (free_handle >> rt'.destroy c.base.self) c1
          (base_runtime-IsLogged.locks c.base.self c1)
          (Logs->> {ds = []} free_handle (rt'.destroy c.base.self) c2
            (record { returns = refl; logs = close_handle-quiet c2.base.system })
            (base_runtime-IsLogged.destroys c.base.self c3)))

  -- Where `DequeueConnection` of the server, the lock and the deletion come back and leave the
  -- object alone, and OpenSSL closes no descriptor: `Shutdown` of an encrypted connection comes
  -- back, and its calls are, in this order: it leaves its server, if it has one, takes the writer's
  -- side of its lock, and deletes itself. Its descriptor is neither shut down nor closed.
  pub ssl-IsClosable : IsClosable (connection net lib rt) (λ c. trace c.base.system) ssl_view
  unfolding connection
  ssl-IsClosable = record { shuts = shutdown-Logs; serves = λ c. refl }
