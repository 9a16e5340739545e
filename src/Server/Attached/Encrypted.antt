-- ===== src/Server/Attached/Encrypted.antt =====
-- An encrypted connection of the server.
use libsiot.Base.{ℕ, ◌≡◌, refl, ap, ◌∙◌, none, [], append-nil, ok, Action, modify, skip, ◌>>◌}
use libsiot.Base.Int.{ℤ, pos, negsuc}
use libsiot.Connection.{Runtime, deregister}
use libsiot.UnixSocket.{Sockets}
use libsiot.OpenSsl.{
  OpenSsl, SslConnection, base_runtime, ssl_object, close_handle, set_system, shutdown, connection,
}
use libsiot.Server.{Server, Env}
use libsiot.Server.Attached.{
  image, Membership, members_by, leave_all, leave_by, leave_by-all, IsAttached, IsMember, image->>,
  deregister-image,
}

abbrev pub encrypted : {W : Type 0} → SslConnection W → Membership
encrypted c = (members_by c.base.server c.base.self, c.base.server)

-- The calls of OpenSSL in `Shutdown` leave the server alone.
pub record SparesServer {W : Type 0} (lib : OpenSsl W) (sv : W → Server) : Type 0 where
  pub shuts : (w : W) → sv (lib.shutdown w) ≡ sv w
  pub frees : (w : W) → sv (lib.ssl_free w) ≡ sv w
  pub context_frees : (w : W) → sv (lib.ctx_free w) ≡ sv w

module _ (env : Env) (home : ℕ) {W : Type 0} (net : Sockets W) (lib : OpenSsl W) {sv : W → Server}
    (spares : SparesServer lib sv) (rt : Runtime W)
    (attached : IsAttached env home rt sv (λ _. ([], none))) where
  pub base_runtime-IsAttached :
      IsAttached env home (base_runtime net lib rt) (λ c. sv c.base.system) encrypted
  base_runtime-IsAttached = record {
    dequeues = λ srv a c. attached.dequeues srv a c.base.system;
    dequeue_same = λ srv a c. refl;
    locks = λ a c. attached.locks a c.base.system;
    lock_same = λ a c. refl;
    destroys = λ a c. attached.destroys a c.base.system;
  }

  close_handle-spares : (w : W) → sv (close_handle net lib w) ≡ sv w
  unfolding close_handle
  close_handle-spares w = go (lib.get_shutdown w)
    where
      go :
          (state : ℤ)
          → sv (lib.ctx_free (lib.ssl_free (elim state [ pos n ↦ lib.shutdown w | negsuc n ↦ w ])))
            ≡ sv w
      go (pos n) =
          spares.context_frees (lib.ssl_free (lib.shutdown w))
          ∙ spares.frees (lib.shutdown w)
          ∙ spares.shuts w
      go (negsuc n) = spares.context_frees (lib.ssl_free w) ∙ spares.frees w

  abbrev free_and_go : ℕ → Action (SslConnection W) (Unit {0})
  free_and_go self =
      modify (λ v. set_system net lib (close_handle net lib v.base.system) v)
      >> (base_runtime net lib rt).destroy self

  shutdown-image :
      (c : SslConnection W)
      → image (λ v. sv v.base.system) (shutdown net lib rt c)
        ≡ leave_all env home (encrypted c).0 (sv c.base.system)
  unfolding shutdown leave_all
  shutdown-image c =
      let rt' = base_runtime net lib rt in
      let o = ssl_object net lib (λ v. (ok tt, v)) in
      let c1 = (deregister rt' o c).1 in
      let c2 = (rt'.lock c.base.self c1).1 in
      let leave = deregister-image env home rt' base_runtime-IsAttached o (λ q. (refl, refl)) c in
      image->> (λ v. sv v.base.system) (deregister rt' o)
        (rt'.lock c.base.self >> free_and_go c.base.self)
        (leave_by env home c.base.server c.base.self) skip c leave.0
        (λ _.
          image->> (λ v. sv v.base.system) (rt'.lock c.base.self) (free_and_go c.base.self) skip
            skip c1 (base_runtime-IsAttached.locks c.base.self c1)
            (λ _.
              attached.destroys c.base.self (close_handle net lib c2.base.system)
              ∙ ap (λ t. (ok tt, t)) (close_handle-spares c2.base.system)))
      ∙ leave_by-all env home c.base.server c.base.self [] (sv c.base.system)
      ∙ ap (λ ms. leave_all env home ms (sv c.base.system))
          (append-nil (members_by c.base.server c.base.self))

  -- Where the runtime's `DequeueConnection` is that of the server at `home`, and the lock, the
  -- deletion and OpenSSL leave that server alone: `Shutdown` of an encrypted connection ends as
  -- `DequeueConnection` of its address does, and changes the server just so, if the server is its
  -- own; if not, it comes back and changes nothing of the server.
  pub ssl-IsMember : IsMember env home (connection net lib rt) (λ c. sv c.base.system) encrypted
  unfolding connection
  ssl-IsMember = record { leaves = shutdown-image; serves = λ c. refl }
