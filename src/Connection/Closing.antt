-- ===== src/Connection/Closing.antt =====
-- What `Shutdown` does outside the object: the calls that it makes, in order. The interface between
-- a connection and the decorators around it.
use libsiot.Base.{
  ℕ, ◌≡◌, refl, sym, ap, ◌∙◌, Option, none, some, List, [], ◌∷◌, ◌++◌, append_assoc, Result, ok,
  throws, undefined, running, Action, ◌>>◌,
}
use libsiot.Connection.{Connection, Runtime, Object, deregister, dequeue_by}

-- A call outside: `DequeueConnection` of a server, the writer's side of an object's lock,
-- `shutdown` and `close` of a descriptor, and `delete this`.
pub data Deed : Type 0 where
  dequeued : ℕ → ℕ → Deed
  locked shut_both closed destroyed : ℕ → Deed

-- The outcome of an action from `s`: it has come back and made the calls `ds`, the newest first.
pub record Logs {S : Type 0} (trace : S → List Deed) (s : S) (ds : List Deed)
    (o : Result (Unit {0}) × S) : Type 0 where
  pub returns : o.0 ≡ ok tt
  pub logs : trace o.1 ≡ ds ++ trace s

-- What is to come of an object's `Shutdown`: its calls; and the object's server.
abbrev pub View : Type 0
View = List Deed × Option ℕ

-- The runtime's calls come back and are logged, and leave alone what `view` reads.
pub record IsLogged {S : Type 0} (rt : Runtime S) (trace : S → List Deed) (view : S → View)
    : Type 0 where
  pub dequeues :
      (srv c : ℕ) (s : S) → Logs trace s (dequeued srv c ∷ []) (rt.dequeue_connection srv c s)
  pub dequeue_same : (srv c : ℕ) (s : S) → view (rt.dequeue_connection srv c s).1 ≡ view s
  pub locks : (c : ℕ) (s : S) → Logs trace s (locked c ∷ []) (rt.lock c s)
  pub lock_same : (c : ℕ) (s : S) → view (rt.lock c s).1 ≡ view s
  pub destroys : (c : ℕ) (s : S) → Logs trace s (destroyed c ∷ []) (rt.destroy c s)

-- `Shutdown` comes back and makes exactly the calls that `view` says.
pub record IsClosable {S : Type 0} (conn : Connection S) (trace : S → List Deed) (view : S → View)
    : Type 0 where
  pub shuts : (s : S) → Logs trace s (view s).0 (conn.shutdown s)
  pub serves : (s : S) → conn.get_server s ≡ (view s).1

after_ok :
    {S B : Type 0} (k : Action S B) (s : S) (o : Result (Unit {0}) × S)
    → o.0 ≡ ok tt
    → ((λ _. o) >> k) s ≡ k o.1
after_ok k s (ok _, t) e = refl
after_ok k s (throws x, t) e = absurd (cc)
after_ok k s (undefined, t) e = absurd (cc)
after_ok k s (running, t) e = absurd (cc)

pub >>-ok :
    {S B : Type 0} (m : Action S (Unit {0})) (k : Action S B) (s : S)
    → (m s).0 ≡ ok tt
    → (m >> k) s ≡ k (m s).1
>>-ok m k s e = after_ok k s (m s) e

pub Logs->> :
    {S : Type 0} {trace : S → List Deed} {ds es : List Deed} (m k : Action S (Unit {0})) (s : S)
    → Logs trace s ds (m s)
    → Logs trace (m s).1 es (k (m s).1)
    → Logs trace s (es ++ ds) ((m >> k) s)
Logs->> {trace} {ds} {es} m k s first later =
    let e = >>-ok m k s first.returns in
    record {
      returns = ap (λ o. o.0) e ∙ later.returns;
      logs =
          ap (λ o. trace o.1) e
          ∙ later.logs
          ∙ ap (λ l. es ++ l) first.logs
          ∙ sym (append_assoc es ds (trace s));
    }

-- The call of `DequeueConnection` that `Deregister` makes.
abbrev pub dequeued_by : Option ℕ → ℕ → List Deed
dequeued_by none c = []
dequeued_by (some srv) c = dequeued srv c ∷ []

module _ {S : Type 0} {trace : S → List Deed} {view : S → View} (rt : Runtime S)
    (logged : IsLogged rt trace view) (o : Object S)
    (marks : (s : S)
      → (trace (o.mark_shutdown s) ≡ trace s) × (view (o.mark_shutdown s) ≡ view s)) where
  pub deregister-Logs :
      (s : S)
      → Logs trace s (dequeued_by (o.virtual_get_server s) (o.self s)) (deregister rt o s)
        × (view (deregister rt o s).1 ≡ view s)
  unfolding deregister
  deregister-Logs s = go (o.virtual_get_server s)
    where
      go :
          (srv : Option ℕ)
          → Logs trace s
              (dequeued_by srv (o.self s))
              (dequeue_by rt o srv (o.self s) (o.mark_shutdown s))
            × (view (dequeue_by rt o srv (o.self s) (o.mark_shutdown s)).1 ≡ view s)
      go none = (record { returns = refl; logs = (marks s).0 }, (marks s).1)
      go (some srv) =
          let called = logged.dequeues srv (o.self s) (o.mark_shutdown s) in
          (
            record {
              returns = called.returns;
              logs = called.logs ∙ ap (λ l. dequeued srv (o.self s) ∷ l) (marks s).0;
            },
            logged.dequeue_same srv (o.self s) (o.mark_shutdown s) ∙ (marks s).1,
          )
