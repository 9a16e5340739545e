-- ===== src/Server/Attached/Socket.antt =====
-- A socket of the server.
use libsiot.Base.{ℕ, ◌≡◌, refl, ap, ◌∙◌, true, none, [], append-nil, ok, Action, modify, skip, ◌>>◌}
use libsiot.Connection.{Runtime, deregister}
use libsiot.UnixSocket.{Sockets, UnixSocket, system_runtime, socket_object, shutdown, connection}
use libsiot.Server.{Server, Env}
use libsiot.Server.Attached.{
  image, Membership, members_by, leave_all, leave_by, leave_by-all, IsAttached, IsMember, image->>,
  deregister-image,
}

-- The socket alone leaves its server.
abbrev pub alone : {W : Type 0} → UnixSocket W → Membership
alone u = (members_by u.server u.self, u.server)

-- The calls on a descriptor leave the server alone.
pub record SparesServer {W : Type 0} (net : Sockets W) (sv : W → Server) : Type 0 where
  pub shuts : (fd : ℕ) (w : W) → sv (net.shutdown_both fd w) ≡ sv w
  pub closes : (fd : ℕ) (w : W) → sv (net.close fd w) ≡ sv w

module _ (env : Env) (home : ℕ) {W : Type 0} (net : Sockets W) {sv : W → Server}
    (spares : SparesServer net sv) (rt : Runtime W)
    (attached : IsAttached env home rt sv (λ _. ([], none))) where
  pub system_runtime-IsAttached :
      IsAttached env home (system_runtime net rt) (λ u. sv u.system) alone
  system_runtime-IsAttached = record {
    dequeues = λ srv c u. attached.dequeues srv c u.system;
    dequeue_same = λ srv c u. refl;
    locks = λ c u. attached.locks c u.system;
    lock_same = λ c u. refl;
    destroys = λ c u. attached.destroys c u.system;
  }

  abbrev on_socket : (ℕ → W → W) → Action (UnixSocket W) (Unit {0})
  on_socket f = modify (λ v. record v { system = f v.socket v.system })

  abbrev close_and_go : ℕ → Action (UnixSocket W) (Unit {0})
  close_and_go self =
      on_socket net.shutdown_both >> (on_socket net.close >> (system_runtime net rt).destroy self)

  close_and_go-image :
      (self : ℕ) (u : UnixSocket W)
      → image (λ v. sv v.system) (close_and_go self u) ≡ (ok tt, sv u.system)
  close_and_go-image self u =
      let w1 = net.shutdown_both u.socket u.system in
      let w2 = net.close u.socket w1 in
      attached.destroys self w2
      ∙ ap (λ t. (ok tt, t)) (spares.closes u.socket w1 ∙ spares.shuts u.socket u.system)

  shutdown-image :
      (u : UnixSocket W)
      → image (λ v. sv v.system) (shutdown net rt u) ≡ leave_all env home (alone u).0 (sv u.system)
  unfolding shutdown leave_all
  shutdown-image u =
      let rt' = system_runtime net rt in
      let o = socket_object net (λ v. (ok tt, v)) in
      let u0 : UnixSocket W = record u { eof = true } in
      let u1 = (deregister rt' o u0).1 in
      let leave =
        deregister-image env home rt' system_runtime-IsAttached o (λ q. (refl, refl)) u0 in
      image->> (λ v. sv v.system) (deregister rt' o) (rt'.lock u.self >> close_and_go u.self)
        (leave_by env home u.server u.self) skip u0 leave.0
        (λ _.
          image->> (λ v. sv v.system) (rt'.lock u.self) (close_and_go u.self) skip skip u1
            (system_runtime-IsAttached.locks u.self u1)
            (λ _. close_and_go-image u.self (rt'.lock u.self u1).1))
      ∙ leave_by-all env home u.server u.self [] (sv u.system)
      ∙ ap (λ ms. leave_all env home ms (sv u.system)) (append-nil (members_by u.server u.self))

  -- Where the runtime's `DequeueConnection` is that of the server at `home`, and the lock, the
  -- deletion and the calls on a descriptor leave that server alone: `Shutdown` of a socket ends as
  -- `DequeueConnection` of its address does, and changes the server just so, if the server is its
  -- own; if not, it comes back and changes nothing of the server.
  pub socket-IsMember : IsMember env home (connection net rt) (λ u. sv u.system) alone
  unfolding connection
  socket-IsMember = record { leaves = shutdown-image; serves = λ u. refl }
