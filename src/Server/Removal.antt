-- ===== src/Server/Removal.antt =====
-- `DequeueConnection`: when it comes back, and that its loop's body undoes a registration.
use libsiot.Base.{
  ℕ, ◌≡◌, ◌↔◌, refl, ap, ◌∙◌, false, Option, none, some, [], ◌∷◌, ok, Bool-cases, inl, inr, arith,
}
use libsiot.Server.{Server, Env}
use libsiot.Server.Connections.{
  Table, lookup, insert, erase, Ascends, insert-Ascends, lookup-insert, lookup-erase,
}
use libsiot.Server.Registry.{points_to, remove_entry, dequeue_from, dequeue_connection}
use libsiot.Server.Listener.{register}
use libsiot.Server.Idle.{fault-ne-ok}

-- No entry points to the connection.
abbrev pub AllOther : ℕ → Table → Type 0
AllOther conn [] = Unit
AllOther conn ((fd, p) ∷ m) = (points_to p conn ≡ false) × AllOther conn m

dequeue_missing :
    (env : Env) (conn : ℕ) (m : Table) (s : Server)
    → AllOther conn m
    → dequeue_from env conn m s ≡ (ok tt, s)
unfolding dequeue_from
dequeue_missing env conn [] s h = refl
dequeue_missing env conn ((fd, p) ∷ m) s h = rw (h.0) (dequeue_missing env conn m s h.1)

dequeue_ok :
    (env : Env) (conn : ℕ) (m : Table) (s : Server)
    → (dequeue_from env conn m s).0 ≡ ok tt
    → AllOther conn m
unfolding dequeue_from
dequeue_ok env conn [] s = λ e. tt
dequeue_ok env conn ((fd, p) ∷ m) s = elim (Bool-cases (points_to p conn)) [
  | inl here ↦ rw here (λ e. absurd (fault-ne-ok (remove_entry env fd) s tt e))
  | inr there ↦ rw there (λ e. (refl, dequeue_ok env conn m s e))
]

-- `DequeueConnection` comes back exactly if no entry points to the connection, and exactly then it
-- has changed nothing: else it erases an entry and goes on with an invalid iterator.
pub dequeue_returns_iff :
    (env : Env) (conn : ℕ) (s : Server)
    → (((dequeue_connection env conn s).0 ≡ ok tt) ↔ AllOther conn s.connections)
      × ((dequeue_connection env conn s ≡ (ok tt, s)) ↔ AllOther conn s.connections)
unfolding dequeue_connection
dequeue_returns_iff env conn s =
    let back = dequeue_ok env conn s.connections s in
    let same = dequeue_missing env conn s.connections s in
    ((back, λ h. ap (λ o. o.0) (same h)), (λ e. back (ap (λ o. o.0) e), same))

register-connections :
    (env : Env) (fd conn : ℕ) (s : Server)
    → (register env fd conn s).1.connections
      ≡ insert fd (some (env.add_decorators conn)) s.connections
unfolding register
register-connections env fd conn s = ground arith

remove_entry-connections :
    (env : Env) (fd : ℕ) (s : Server)
    → (remove_entry env fd s).1.connections ≡ erase fd s.connections
unfolding remove_entry
remove_entry-connections env fd s = ground arith

-- Where the keys of the table ascend, as those of a map do, and the descriptor is new: taking the
-- entry out again after its registration leaves under every descriptor what was there before.
pub register_remove :
    (env : Env) (fd conn j : ℕ) (s : Server)
    → Ascends 0 s.connections
    → lookup fd s.connections ≡ none
    → lookup j (remove_entry env fd (register env fd conn s).1).1.connections
      ≡ lookup j s.connections
register_remove env fd conn j s ordered new =
    let v : Option ℕ = some (env.add_decorators conn) in
    ap (lookup j) (
      remove_entry-connections env fd (register env fd conn s).1
      ∙ ap (erase fd) (register-connections env fd conn s))
    ∙ lookup-erase 0 fd j (insert fd v s.connections)
        (insert-Ascends 0 fd v s.connections (omega arith) ordered)
    ∙ ground (arith, lookup-insert fd j v s.connections)
