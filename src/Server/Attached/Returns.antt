-- ===== src/Server/Attached/Returns.antt =====
-- When `Shutdown` of a connection of a server comes back.
use libsiot.Base.{
  ℕ, ◌≡◌, ◌↔◌, refl, ap, ◌∙◌, sym, true, List, [], ◌∷◌, ok, skip, Result, throws, undefined,
  running, ◌>>◌, Action, ◌==◌, if◌then◌else◌, Bool-cases, inl, inr, arith,
}
use libsiot.Connection.{Connection}
use libsiot.Server.{Server, Env}
use libsiot.Server.Connections.{Table}
use libsiot.Server.Registry.{dequeue_connection}
use libsiot.Server.Removal.{AllOther, dequeue_returns_iff}
use libsiot.Server.Attached.{image, Membership, leave_one, leave_all, IsMember}

-- No entry of the table of the server at `home` points to one of the objects that belong to it.
abbrev pub AllGone : ℕ → List (ℕ × ℕ) → Table → Type 0
AllGone home [] m = Unit
AllGone home ((srv, c) ∷ ms) m = (srv ≡ home → AllOther c m) × AllGone home ms m

module _ (env : Env) (home : ℕ) where
  pub leave_one-gone :
      (srv c : ℕ) (t : Server)
      → (srv ≡ home → AllOther c t.connections)
      → leave_one env home srv c t ≡ (ok tt, t)
  leave_one-gone srv c t h = elim (Bool-cases (srv == home)) [
    | inl here ↦ rw here ((dequeue_returns_iff env c t).1.1 (h (ground arith)))
    | inr away ↦ rw away refl
  ]

  leave_one-ok :
      (srv c : ℕ) (t : Server)
      → (leave_one env home srv c t).0 ≡ ok tt
      → srv ≡ home
      → AllOther c t.connections
  leave_one-ok srv c t e same =
      (dequeue_returns_iff env c t).0.0
        (ap (λ b. ((if b then dequeue_connection env c else skip) t).0) (sym here) ∙ e)
    where
      here : (srv == home) ≡ true
      here = ground arith

  pub first_ok :
      (k : Action Server (Unit {0})) (t : Server) (o : Result (Unit {0}) × Server)
      → (((λ _. o) >> k) t).0 ≡ ok tt
      → o.0 ≡ ok tt
  first_ok k t (ok tt, u) e = refl
  first_ok k t (throws x, u) e = absurd (cc)
  first_ok k t (undefined, u) e = absurd (cc)
  first_ok k t (running, u) e = absurd (cc)

  pub leave_all-gone :
      (ms : List (ℕ × ℕ)) (t : Server)
      → AllGone home ms t.connections
      → leave_all env home ms t ≡ (ok tt, t)
  unfolding leave_all
  leave_all-gone [] t h = refl
  leave_all-gone ((srv, c) ∷ ms) t h =
      ap (λ o. ((λ _. o) >> leave_all env home ms) t) (leave_one-gone srv c t h.0)
      ∙ leave_all-gone ms t h.1

  pub leave_all-ok :
      (ms : List (ℕ × ℕ)) (t : Server)
      → (leave_all env home ms t).0 ≡ ok tt
      → AllGone home ms t.connections
  unfolding leave_all
  leave_all-ok [] t e = tt
  leave_all-ok ((srv, c) ∷ ms) t e =
      let absent =
        leave_one-ok srv c t (first_ok (leave_all env home ms) t (leave_one env home srv c t) e) in
      let went =
        ap (λ o. (((λ _. o) >> leave_all env home ms) t).0) (leave_one-gone srv c t absent) in
      (absent, leave_all-ok ms t (sym went ∙ e))

  -- For a connection whose `Shutdown` does nothing to the server at `home` but to take the objects
  -- that leave it out of its table, one after the other, and otherwise comes back, which is so
  -- where the locks, the deletions and the calls of the kernel and of OpenSSL come back and leave
  -- the server alone (in a callback, say, the lock does not come back): `Shutdown` comes back
  -- exactly if no entry of the server's table points to the connection or to what it owns, and
  -- exactly then it has come back and left the server as it was. For a connection that is in the
  -- table, it does not come back.
  pub shutdown_returns_iff :
      {S : Type 0} {conn : Connection S} {sv : S → Server} {view : S → Membership} (s : S)
      → IsMember env home conn sv view
      → (((conn.shutdown s).0 ≡ ok tt) ↔ AllGone home (view s).0 (sv s).connections)
        × ((image sv (conn.shutdown s) ≡ (ok tt, sv s))
            ↔ AllGone home (view s).0 (sv s).connections)
  shutdown_returns_iff {conn} {sv} {view} s member =
      let ms = (view s).0 in
      let same = member.leaves s in
      let back : (conn.shutdown s).0 ≡ ok tt → AllGone home ms (sv s).connections =
        λ e. leave_all-ok ms (sv s) (sym (ap (λ o. o.0) same) ∙ e) in
      let gone : AllGone home ms (sv s).connections → image sv (conn.shutdown s) ≡ (ok tt, sv s) =
        λ h. same ∙ leave_all-gone ms (sv s) h in
      ((back, λ h. ap (λ o. o.0) (gone h)), (λ e. back (ap (λ o. o.0) e), gone))
