-- ===== src/Server/Attached/Range.antt =====
-- The range reader, whose `Shutdown` eats the rest of its range before it shuts down what it owns.
use libsiot.Base.{
  ℕ, suc, zero, ◌≡◌, ◌↔◌, ◌-◌, refl, ap, ◌∙◌, sym, Bytes, List, [], ◌++◌, Result, ok, throws,
  undefined, running, Action, skip, modify, ◌>>◌, ◌>>=◌, if◌then◌else◌, ltb, not, ◌&&◌, Option,
  some, none, Bool-cases, inl, inr,
}
use libsiot.Connection.{Connection, Runtime, deregister}
use libsiot.Decorator.{forward, forward_runtime, decorator_object}
use libsiot.RangeReader
use libsiot.RangeReader.{RangeReader, advance, drain}
use libsiot.Server.{Server, Env}
use libsiot.Server.Connections.{Table}
use libsiot.Server.Attached.{
  image, Membership, members_by, leave_all, leave_one, leave_by, IsAttached, IsMember, image->>,
  >>-skip, deregister-image,
}
use libsiot.Server.Attached.Decorators.{around, inner-IsAttached, shut_wrapped, shut_wrapped-image}
use libsiot.Server.Attached.Returns.{AllGone, leave_all-gone, leave_all-ok, first_ok}

-- `Receive` leaves the server alone, and the objects that a `Shutdown` takes out of it.
abbrev pub ReadsAlone : {S : Type 0} → Connection S → (S → Server) → (S → Membership) → Type 0
ReadsAlone {S} conn sv view =
    (n flags : ℕ) (s : S)
    → (sv (conn.receive n flags s).1 ≡ sv s) × (view (conn.receive n flags s).1 ≡ view s)

module _ {S : Type 0} {sv : S → Server} {view : S → Membership} (conn : Connection S)
    (alone : ReadsAlone conn sv view) where
  -- What the loop leaves alone.
  abbrev IsSpared : RangeReader S → RangeReader S → Type 0
  IsSpared r q =
      (sv q.wrapped ≡ sv r.wrapped)
      × (view q.wrapped ≡ view r.wrapped)
      × (q.owned ≡ r.owned)
      × (q.self ≡ r.self)

  drain-IsSpared : (fuel : ℕ) (r : RangeReader S) → IsSpared r (drain conn fuel r).1
  unfolding drain
  drain-IsSpared zero r = (refl, refl, refl, refl)
  drain-IsSpared (suc fuel) r =
      elim (Bool-cases (ltb r.own.offset r.own.max_size && not (conn.is_eof r.wrapped))) [
        | inr over ↦ rw over (refl, refl, refl, refl)
        | inl more ↦ rw more (
            go (drain-IsSpared fuel) (conn.receive (r.own.max_size - r.own.offset) 0 r.wrapped)
              (alone (r.own.max_size - r.own.offset) 0 r.wrapped))
      ]
    where
      go :
          ((q : RangeReader S) → IsSpared q (drain conn fuel q).1)
          → (o : Result Bytes × S) → (sv o.1 ≡ sv r.wrapped) × (view o.1 ≡ view r.wrapped)
          → IsSpared r ((forward (λ _. o) >>= λ got. modify (advance got) >> drain conn fuel) r).1
      go ih (ok d, s') (same, same') =
          let (e, e', o, f) = ih (advance d (record r { wrapped = s' })) in
          (e ∙ same, e' ∙ same', o, f)
      go ih (throws x, s') (same, same') = (same, same', refl, refl)
      go ih (undefined, s') (same, same') = (same, same', refl, refl)
      go ih (running, s') (same, same') = (same, same', refl, refl)

-- An end of a loop that does nothing to the server.
abbrev pub ends_as : Result (Unit {0}) → Action Server (Unit {0})
ends_as d t = (d, t)

module _ (env : Env) (home : ℕ) {S : Type 0} {sv : S → Server} {view : S → Membership}
    (rt : Runtime S) (attached : IsAttached env home rt sv view) (conn : Connection S)
    (member : IsMember env home conn sv view) (alone : ReadsAlone conn sv view) (fuel : ℕ)
    (r : RangeReader S) where
  -- The reader as the loop finds it: it has left its server and has its lock.
  abbrev pub at_loop : RangeReader S
  at_loop =
      ((forward_runtime rt).lock r.self
        (deregister (forward_runtime rt) (decorator_object conn skip) r).1).1

  abbrev pub owned_members : List (ℕ × ℕ)
  owned_members = if r.owned then (view r.wrapped).0 else []

  -- The last steps, behind the loop.
  abbrev behind_loop : Action (RangeReader S) (Unit {0})
  behind_loop =
      shut_wrapped env home rt attached conn member r.owned >> (forward_runtime rt).destroy r.self

  behind_loop-image :
      (q : RangeReader S)
      → view q.wrapped ≡ view r.wrapped
      → image (λ p. sv p.wrapped) (behind_loop q) ≡ leave_all env home owned_members (sv q.wrapped)
  behind_loop-image q same =
      image->> (λ p. sv p.wrapped) (shut_wrapped env home rt attached conn member r.owned)
        ((forward_runtime rt).destroy r.self) (leave_all env home owned_members) skip q
        (shut_wrapped-image env home rt attached conn member r.owned q
          ∙ ap (λ w. leave_all env home (if r.owned then w.0 else []) (sv q.wrapped)) same)
        (λ _.
          (inner-IsAttached env home rt attached).destroys r.self
            (shut_wrapped env home rt attached conn member r.owned q).1)
      ∙ >>-skip (leave_all env home owned_members) (sv q.wrapped)

  range_shutdown-image :
      image (λ q. sv q.wrapped) (RangeReader.shutdown conn rt fuel r)
      ≡ (leave_by env home (view r.wrapped).1 r.self
            >> (ends_as (drain conn fuel at_loop).0 >> leave_all env home owned_members))
          (sv r.wrapped)
  unfolding RangeReader.shutdown
  range_shutdown-image =
      let inner = inner-IsAttached env home rt attached in
      let leave =
        deregister-image env home (forward_runtime rt) inner (decorator_object conn skip)
          (λ q. (refl, refl)) r in
      let d1 = (deregister (forward_runtime rt) (decorator_object conn skip) r).1 in
      let (spared, spared', o, f) = drain-IsSpared conn alone fuel at_loop in
      image->> (λ q. sv q.wrapped) (deregister (forward_runtime rt) (decorator_object conn skip))
        ((forward_runtime rt).lock r.self >> (drain conn fuel >> behind_loop))
        (leave_by env home (view r.wrapped).1 r.self)
        (ends_as (drain conn fuel at_loop).0 >> leave_all env home owned_members) r
        (leave.0
          ∙ ap (λ srv. leave_by env home srv r.self (sv r.wrapped)) (member.serves r.wrapped))
        (λ _.
          image->> (λ q. sv q.wrapped) ((forward_runtime rt).lock r.self)
            (drain conn fuel >> behind_loop) skip
            (ends_as (drain conn fuel at_loop).0 >> leave_all env home owned_members) d1
            (inner.locks r.self d1)
            (λ _.
              image->> (λ q. sv q.wrapped) (drain conn fuel) behind_loop
                (ends_as (drain conn fuel at_loop).0) (leave_all env home owned_members) at_loop
                (ap (λ t. ((drain conn fuel at_loop).0, t)) spared)
                (λ _.
                  behind_loop-image (drain conn fuel at_loop).1
                    (spared' ∙ inner.lock_same r.self d1 ∙ leave.1))))

  -- When the three steps come back.
  abbrev steps : List (ℕ × ℕ) → Result (Unit {0}) → Action Server (Unit {0})
  steps ms d = leave_all env home ms >> (ends_as d >> leave_all env home owned_members)

  loop_ok :
      (d : Result (Unit {0})) (t : Server)
      → ((ends_as d >> leave_all env home owned_members) t).0 ≡ ok tt
      → (d ≡ ok tt) × AllGone home owned_members t.connections
  loop_ok (ok tt) t e = (refl, leave_all-ok env home owned_members t e)
  loop_ok (throws x) t e = absurd (cc)
  loop_ok undefined t e = absurd (cc)
  loop_ok running t e = absurd (cc)

  after_leaving :
      (ms : List (ℕ × ℕ)) (d : Result (Unit {0})) (t : Server)
      → AllGone home ms t.connections
      → steps ms d t ≡ (ends_as d >> leave_all env home owned_members) t
  after_leaving ms d t gone =
      ap (λ o. ((λ _. o) >> (ends_as d >> leave_all env home owned_members)) t)
        (leave_all-gone env home ms t gone)

  steps_ok :
      (ms : List (ℕ × ℕ)) (d : Result (Unit {0})) (t : Server)
      → (steps ms d t).0 ≡ ok tt
      → AllGone home ms t.connections × (d ≡ ok tt) × AllGone home owned_members t.connections
  steps_ok ms d t e =
      let gone = leave_all-ok env home ms t (
        first_ok env home (ends_as d >> leave_all env home owned_members) t
          (leave_all env home ms t) e) in
      let (came, gone') = loop_ok d t (sym (ap (λ o. o.0) (after_leaving ms d t gone)) ∙ e) in
      (gone, came, gone')

  steps_gone :
      (ms : List (ℕ × ℕ)) (d : Result (Unit {0})) (t : Server)
      → AllGone home ms t.connections × (d ≡ ok tt) × AllGone home owned_members t.connections
      → steps ms d t ≡ (ok tt, t)
  steps_gone ms d t (gone, back, gone') =
      after_leaving ms d t gone
      ∙ ap (λ x. (ends_as x >> leave_all env home owned_members) t) back
      ∙ leave_all-gone env home owned_members t gone'

  leave_by-members :
      (srv : Option ℕ) (c : ℕ) (d : Result (Unit {0})) (t : Server)
      → (leave_by env home srv c >> (ends_as d >> leave_all env home owned_members)) t
        ≡ steps (members_by srv c) d t
  unfolding leave_all
  leave_by-members none c d t = refl
  leave_by-members (some srv) c d t =
      ap (λ o. ((λ _. o) >> (ends_as d >> leave_all env home owned_members)) t)
        (sym (>>-skip (leave_one env home srv c) t))

  apart :
      (srv : Option ℕ) (c : ℕ) (m : Table)
      → AllGone home (members_by srv c ++ owned_members) m
        ↔ (AllGone home (members_by srv c) m × AllGone home owned_members m)
  apart none c m = (λ g. (tt, g), λ g. g.1)
  apart (some srv) c m = (λ g. ((g.0, tt), g.1), λ g. (g.0.0, g.1))

  -- Where `DequeueConnection` is that of the server at `home`, the reader's lock and deletion come
  -- back and leave the server alone, and around a connection whose `Receive` leaves the server
  -- alone and whose `Shutdown` does nothing to it but to take objects out of its table, and
  -- otherwise comes back: `Shutdown` of a range reader comes back exactly if no entry of the
  -- server's table points to the reader, if that is its server, or to what it owns, and the loop,
  -- as it starts once the reader has left its server and has its lock, comes back by a value; and
  -- exactly then it has come back and left the server as it was. In a callback that holds the lock
  -- for reading, the lock does not come back.
  pub range_shutdown_returns_iff :
      let o = RangeReader.shutdown conn rt fuel r in
      let free =
        AllGone home (around view r).0 (sv r.wrapped).connections
        × ((drain conn fuel at_loop).0 ≡ ok tt) in
      ((o.0 ≡ ok tt) ↔ free) × ((image (λ q. sv q.wrapped) o ≡ (ok tt, sv r.wrapped)) ↔ free)
  range_shutdown_returns_iff =
      let srv = (view r.wrapped).1 in
      let d = (drain conn fuel at_loop).0 in
      let t = sv r.wrapped in
      let same = range_shutdown-image ∙ leave_by-members srv r.self d t in
      let parts = apart srv r.self t.connections in
      let back : (RangeReader.shutdown conn rt fuel r).0 ≡ ok tt
          → AllGone home (around view r).0 t.connections × (d ≡ ok tt) =
        λ e.
          let (gone, came, gone') =
            steps_ok (members_by srv r.self) d t (sym (ap (λ o. o.0) same) ∙ e) in
          (parts.1 (gone, gone'), came) in
      let ends : AllGone home (around view r).0 t.connections × (d ≡ ok tt)
          → image (λ q. sv q.wrapped) (RangeReader.shutdown conn rt fuel r) ≡ (ok tt, t) =
        λ h.
          let (gone, gone') = parts.0 h.0 in
          same ∙ steps_gone (members_by srv r.self) d t (gone, h.1, gone') in
      ((back, λ h. ap (λ o. o.0) (ends h)), (λ e. back (ap (λ o. o.0) e), ends))
