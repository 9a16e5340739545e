-- ===== src/Server/Attached/Decorators.antt =====
-- The line buffer and the buffer for acknowledgement, around a connection of the server.
use libsiot.Base.{
  ℕ, ◌≡◌, refl, ap, ◌∙◌, Bool, true, false, List, [], ◌++◌, Action, skip, ◌>>◌, if◌then◌else◌,
}
use libsiot.Connection.{Connection, Runtime, deregister}
use libsiot.Decorator.{Decorator, forward, forward_runtime, decorator_object}
use libsiot.LineBuffer
use libsiot.Acknowledgement
use libsiot.Server.{Server, Env}
use libsiot.Server.Attached.{
  image, Membership, members_by, leave_all, leave_by, leave_by-all, IsAttached, IsMember, image->>,
  >>-skip, deregister-image,
}

-- A decorator leaves the server of what it wraps, and then does what it wraps, if the decorator
-- owns it.
abbrev pub around : {F S : Type 0} → (S → Membership) → Decorator F S → Membership
around view d =
    let v = view d.wrapped in (members_by v.1 d.self ++ (if d.owned then v.0 else []), v.1)

module _ (env : Env) (home : ℕ) {S : Type 0} {sv : S → Server} {view : S → Membership}
    (rt : Runtime S) (attached : IsAttached env home rt sv view) where
  pub forward_runtime-IsAttached :
      {F : Type 0}
      → IsAttached env home (forward_runtime {F = F} rt) (λ d. sv d.wrapped) (around view)
  forward_runtime-IsAttached = record {
    dequeues = λ srv c d. attached.dequeues srv c d.wrapped;
    dequeue_same = λ srv c d.
        ap (λ v. (members_by v.1 d.self ++ (if d.owned then v.0 else []), v.1))
          (attached.dequeue_same srv c d.wrapped);
    locks = λ c d. attached.locks c d.wrapped;
    lock_same = λ c d.
        ap (λ v. (members_by v.1 d.self ++ (if d.owned then v.0 else []), v.1))
          (attached.lock_same c d.wrapped);
    destroys = λ c d. attached.destroys c d.wrapped;
  }

  -- The same, where only what the wrapped connection does is looked at.
  pub inner-IsAttached :
      {F : Type 0}
      → IsAttached env home (forward_runtime {F = F} rt) (λ d. sv d.wrapped) (λ d. view d.wrapped)
  inner-IsAttached = record {
    dequeues = λ srv c d. attached.dequeues srv c d.wrapped;
    dequeue_same = λ srv c d. attached.dequeue_same srv c d.wrapped;
    locks = λ c d. attached.locks c d.wrapped;
    lock_same = λ c d. attached.lock_same c d.wrapped;
    destroys = λ c d. attached.destroys c d.wrapped;
  }

  module _ (conn : Connection S) (member : IsMember env home conn sv view) {F : Type 0} where
    abbrev pub leave_server : Action (Decorator F S) (Unit {0})
    leave_server = deregister (forward_runtime rt) (decorator_object conn skip)

    abbrev pub shut_wrapped : Bool → Action (Decorator F S) (Unit {0})
    shut_wrapped owned = if owned then forward conn.shutdown else skip

    pub shut_wrapped-image :
        (owned : Bool) (d : Decorator F S)
        → image (λ q. sv q.wrapped) (shut_wrapped owned d)
          ≡ leave_all env home (if owned then (view d.wrapped).0 else []) (sv d.wrapped)
    unfolding leave_all
    shut_wrapped-image true d = member.leaves d.wrapped
    shut_wrapped-image false d = refl

    -- `Shutdown` of a decorator, by the steps of the server.
    pub steps-image :
        (d : Decorator F S)
        → image
            (λ q. sv q.wrapped)
            ((leave_server
                >> ((forward_runtime rt).lock d.self
                    >> (shut_wrapped d.owned >> (forward_runtime rt).destroy d.self)))
              d)
          ≡ leave_all env home (around view d).0 (sv d.wrapped)
    steps-image d =
        let v = view d.wrapped in
        let ms : List (ℕ × ℕ) = if d.owned then v.0 else [] in
        let leave =
          deregister-image env home (forward_runtime rt) inner-IsAttached
            (decorator_object conn skip) (λ q. (refl, refl)) d in
        let d1 = (leave_server d).1 in
        let d2 = ((forward_runtime rt).lock d.self d1).1 in
        let same : view d2.wrapped ≡ v = inner-IsAttached.lock_same d.self d1 ∙ leave.1 in
        image->> (λ q. sv q.wrapped) leave_server
          ((forward_runtime rt).lock d.self
            >> (shut_wrapped d.owned >> (forward_runtime rt).destroy d.self))
          (leave_by env home v.1 d.self) (leave_all env home ms) d
          (leave.0
            ∙ ap (λ srv. leave_by env home srv d.self (sv d.wrapped)) (member.serves d.wrapped))
          (λ _.
            image->> (λ q. sv q.wrapped) ((forward_runtime rt).lock d.self)
              (shut_wrapped d.owned >> (forward_runtime rt).destroy d.self) skip
              (leave_all env home ms) d1 (inner-IsAttached.locks d.self d1)
              (λ _.
                image->> (λ q. sv q.wrapped) (shut_wrapped d.owned)
                  ((forward_runtime rt).destroy d.self) (leave_all env home ms) skip d2
                  (shut_wrapped-image d.owned d2
                    ∙ ap (λ w. leave_all env home (if d.owned then w.0 else []) (sv d2.wrapped))
                        same)
                  (λ _. inner-IsAttached.destroys d.self (shut_wrapped d.owned d2).1)
                ∙ >>-skip (leave_all env home ms) (sv d2.wrapped)))
        ∙ leave_by-all env home v.1 d.self ms (sv d.wrapped)

  module _ (conn : Connection S) (member : IsMember env home conn sv view) where
    -- Around a connection whose `Shutdown` is for the server at `home` the leaving of known
    -- objects, and where the runtime's `DequeueConnection` is that of this server, and the lock and
    -- the deletion leave it alone: `Shutdown` of a line buffer is for the server the leaving of the
    -- line buffer's address, if the server is that of what it wraps, and then, if that comes back
    -- and it owns what it wraps, the leaving of those objects; it ends as that ends.
    pub line-IsMember :
        (fuel : ℕ)
        → IsMember env home (LineBuffer.connection conn rt fuel) (λ d. sv d.wrapped) (around view)
    unfolding LineBuffer.connection LineBuffer.shutdown
    line-IsMember fuel = record {
      leaves = steps-image conn member;
      serves = λ d. member.serves d.wrapped;
    }

    pub ack-IsMember :
        IsMember env home (Acknowledgement.connection conn rt) (λ d. sv d.wrapped) (around view)
    unfolding Acknowledgement.connection Acknowledgement.shutdown
    ack-IsMember = record {
      leaves = steps-image conn member;
      serves = λ d. member.serves d.wrapped;
    }
