-- ===== src/Server/Attached.antt =====
-- Connections and the server that they belong to: what `Shutdown` of a connection does to the
-- server's table, and when it comes back.
pub mod Decorators
pub mod Socket
pub mod Encrypted
pub mod Returns
pub mod Range
use libsiot.Base.{
  ℕ, ◌≡◌, refl, ap, ◌∙◌, sym, Bool, true, false, Option, none, some, List, [], ◌∷◌, ◌++◌, Result,
  ok, throws, undefined, running, Action, skip, ◌>>=◌, ◌>>◌, if◌then◌else◌, ◌==◌,
}
use libsiot.Connection.{Connection, Runtime, Object, deregister, dequeue_by}
use libsiot.Server.{Server, Env}
use libsiot.Server.Registry.{dequeue_connection}

-- An outcome, as seen from the server.
abbrev pub image : {S : Type 0} → (S → Server) → Result (Unit {0}) × S → Result (Unit {0}) × Server
image sv o = (o.0, sv o.1)

-- The objects that leave their server in a `Shutdown`, each with its server, the first one first;
-- and the object's server.
abbrev pub Membership : Type 0
Membership = List (ℕ × ℕ) × Option ℕ

abbrev pub members_by : Option ℕ → ℕ → List (ℕ × ℕ)
members_by none c = []
members_by (some srv) c = (srv, c) ∷ []

module _ (env : Env) (home : ℕ) where
  -- An object leaves its server, where this is the server at `home`.
  abbrev pub leave_one : ℕ → ℕ → Action Server (Unit {0})
  leave_one srv c = if srv == home then dequeue_connection env c else skip

  -- The objects leave, one after the other, as long as `DequeueConnection` comes back.
  unfoldable pub leave_all : List (ℕ × ℕ) → Action Server (Unit {0})
  leave_all [] = skip
  leave_all ((srv, c) ∷ ms) = leave_one srv c >> leave_all ms

  -- The runtime's `DequeueConnection` is that of the server at `home`, whose state is `sv`; the
  -- lock and the deletion leave the server alone, and all three leave alone what `view` reads.
  pub record IsAttached {S : Type 0} (rt : Runtime S) (sv : S → Server) (view : S → Membership)
      : Type 0 where
    pub dequeues :
        (srv c : ℕ) (s : S) → image sv (rt.dequeue_connection srv c s) ≡ leave_one srv c (sv s)
    pub dequeue_same : (srv c : ℕ) (s : S) → view (rt.dequeue_connection srv c s).1 ≡ view s
    pub locks : (c : ℕ) (s : S) → image sv (rt.lock c s) ≡ (ok tt, sv s)
    pub lock_same : (c : ℕ) (s : S) → view (rt.lock c s).1 ≡ view s
    pub destroys : (c : ℕ) (s : S) → image sv (rt.destroy c s) ≡ (ok tt, sv s)

  -- `Shutdown` ends as the leaving of its objects ends, and does just that to the server.
  pub record IsMember {S : Type 0} (conn : Connection S) (sv : S → Server) (view : S → Membership)
      : Type 0 where
    pub leaves : (s : S) → image sv (conn.shutdown s) ≡ leave_all (view s).0 (sv s)
    pub serves : (s : S) → conn.get_server s ≡ (view s).1

module _ {S : Type 0} (sv : S → Server) where
  image_by :
      (k : Action S (Unit {0})) (q : Action Server (Unit {0})) (s : S) (t : Server)
      (o : Result (Unit {0}) × S)
      → (o.0 ≡ ok tt → image sv (k o.1) ≡ q (sv o.1))
      → image sv (((λ _. o) >> k) s) ≡ ((λ _. image sv o) >> q) t
  image_by k q s t (ok tt, s') h = h refl
  image_by k q s t (throws e, s') h = refl
  image_by k q s t (undefined, s') h = refl
  image_by k q s t (running, s') h = refl

  -- Two steps of a method, by the two steps of the server.
  pub image->> :
      (m k : Action S (Unit {0})) (p q : Action Server (Unit {0})) (s : S)
      → image sv (m s) ≡ p (sv s)
      → ((m s).0 ≡ ok tt → image sv (k (m s).1) ≡ q (sv (m s).1))
      → image sv ((m >> k) s) ≡ (p >> q) (sv s)
  image->> m k p q s first later =
      image_by k q s (sv s) (m s) later ∙ ap (λ o. ((λ _. o) >> q) (sv s)) first

-- A last step that does nothing.
pub >>-skip : (p : Action Server (Unit {0})) (t : Server) → (p >> skip) t ≡ p t
>>-skip p t = go (p t)
  where
    go : (o : Result (Unit {0}) × Server) → ((λ _. o) >> skip) t ≡ o
    go (ok tt, u) = refl
    go (throws e, u) = refl
    go (undefined, u) = refl
    go (running, u) = refl

module _ (env : Env) (home : ℕ) where
  -- The step of the server in `Deregister`.
  abbrev pub leave_by : Option ℕ → ℕ → Action Server (Unit {0})
  leave_by none c = skip
  leave_by (some srv) c = leave_one env home srv c

  pub leave_by-all :
      (srv : Option ℕ) (c : ℕ) (ms : List (ℕ × ℕ)) (t : Server)
      → (leave_by srv c >> leave_all env home ms) t ≡ leave_all env home (members_by srv c ++ ms) t
  unfolding leave_all
  leave_by-all none c ms t = refl
  leave_by-all (some srv) c ms t = refl

  module _ {S : Type 0} {sv : S → Server} {view : S → Membership} (rt : Runtime S)
      (attached : IsAttached env home rt sv view) (o : Object S)
      (marks : (s : S)
        → (sv (o.mark_shutdown s) ≡ sv s) × (view (o.mark_shutdown s) ≡ view s)) where
    pub deregister-image :
        (s : S)
        → (image sv (deregister rt o s) ≡ leave_by (o.virtual_get_server s) (o.self s) (sv s))
          × (view (deregister rt o s).1 ≡ view s)
    unfolding deregister
    deregister-image s = go (o.virtual_get_server s)
      where
        go :
            (srv : Option ℕ)
            → (image sv (dequeue_by rt o srv (o.self s) (o.mark_shutdown s))
                ≡ leave_by srv (o.self s) (sv s))
              × (view (dequeue_by rt o srv (o.self s) (o.mark_shutdown s)).1 ≡ view s)
        go none = (ap (λ t. (ok tt, t)) (marks s).0, (marks s).1)
        go (some srv) = (
          attached.dequeues srv (o.self s) (o.mark_shutdown s)
              ∙ ap (leave_one env home srv (o.self s)) (marks s).0,
          attached.dequeue_same srv (o.self s) (o.mark_shutdown s) ∙ (marks s).1,
        )
