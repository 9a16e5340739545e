-- ===== src/Server/Idle.antt =====
-- Which connections the reaper takes, and what a pass over the table does.
use libsiot.Base.{
  ap, ℕ, suc, ◌+◌, ◌-◌, ◌≤◌, ◌<◌, ◌≡◌, ◌≢◌, ◌⊎◌, ◌↔◌, refl, true, false, none, some, [], ◌∷◌, ◌++◌,
  Result, ok, throws, undefined, running, Action, fault, ◌>>◌, Bool-cases, inl, inr, u64_mod, arith,
}
use libsiot.Base.Int.{ℤ, pos}
use libsiot.Server.{Server, Env, terminated, shutdown, call_now}
use libsiot.Server.Registry.{
  points_to, remove_entry, dequeue_from, dequeue_connection, shutdown_connection,
}
use libsiot.Server.Connections.{Table, lookup}
use libsiot.Server.Reaper.{to_u64, is_due, unwatch, close_idle, reap_entry, reap_from}

-- With a positive setting that stands since the thread began, and times below 2 ^ 64, the last use
-- at most 2 ^ 31 seconds later than the time that the reaper has read: exactly those connections
-- are due that are shut down, or have been used later than that time, or have been idle for longer
-- than the setting.
pub is_due_iff :
    (env : Env) (k conn : ℕ)
    → suc k < 2147483648
    → env.time < u64_mod
    → env.last_use conn < u64_mod
    → env.last_use conn ≤ env.time + 2147483648
    → (is_due env (to_u64 (pos (suc k))) (pos (suc k)) conn ≡ true) ↔ (
        (env.is_shutdown conn ≡ true)
        ⊎ (env.time < env.last_use conn)
        ⊎ (suc k < env.time - env.last_use conn))
unfolding is_due to_u64
is_due_iff env k conn small fits fits' near = ground arith

-- Entries that the reaper leaves alone.
abbrev pub AllLive : Env → ℕ → ℤ → Table → Type 0
AllLive env limit max_idle [] = Unit
AllLive env limit max_idle ((fd, none) ∷ m) = ⊥
AllLive env limit max_idle ((fd, some conn) ∷ m) =
    (is_due env limit max_idle conn ≡ false) × AllLive env limit max_idle m

-- A pass with no entry to take changes nothing and ends.
reap_live :
    (env : Env) (limit : ℕ) (m : Table) (s : Server)
    → AllLive env limit s.max_idle m
    → reap_from env limit m s ≡ (ok tt, s)
unfolding reap_from
reap_live env limit [] s live = refl
reap_live env limit ((fd, none) ∷ m) s live = absurd live
reap_live env limit ((fd, some conn) ∷ m) s live = rw (live.0) (reap_live env limit m s live.1)

-- No action before an undefined step comes back normally.
pub fault-ne-ok :
    {A B : Type 0} (m : Action Server A) (s : Server) (b : B) → ((m >> fault) s).0 ≢ ok b
fault-ne-ok {A} {B} m s b = go (m s)
  where
    go : (o : Result A × Server) → (((λ _. o) >> fault {A = B}) s).0 ≢ ok b
    go (ok a, t) e = cc
    go (throws x, t) e = cc
    go (undefined, t) e = cc
    go (running, t) e = cc

-- Behind entries that are not due, an entry that is due is taken as `reap_entry` says, and then the
-- behaviour is undefined, as the loop's iterator is invalid: the pass does not come back.
pub reap_first_due :
    (env : Env) (limit fd conn : ℕ) (before rest : Table) (s : Server)
    → AllLive env limit s.max_idle before
    → is_due env limit s.max_idle conn ≡ true
    → (reap_from env limit (before ++ (fd, some conn) ∷ rest) s
        ≡ (reap_entry env fd conn >> fault) s)
      × ((reap_from env limit (before ++ (fd, some conn) ∷ rest) s).0 ≢ ok tt)
unfolding reap_from
reap_first_due env limit fd conn [] rest s live over =
    (rw over, rw over (fault-ne-ok (reap_entry env fd conn) s tt))
reap_first_due env limit fd conn ((f, none) ∷ before) rest s live over = absurd live
reap_first_due env limit fd conn ((f, some c) ∷ before) rest s live over =
    let (same, ends) = reap_first_due env limit fd conn before rest s live.1 over in
    (rw (live.0) same, rw (live.0) ends)

-- An outcome that is neither an exception nor a loop that goes on.
abbrev IsPlain : Result (Unit {0}) × Server → Type 0
IsPlain o = (o.0 ≡ ok tt) ⊎ (o.0 ≡ undefined)

IsPlain->> :
    (m k : Action Server (Unit {0})) (s : Server)
    → IsPlain (m s)
    → ((t : Server) → IsPlain (k t))
    → IsPlain ((m >> k) s)
IsPlain->> m k s first later = go (m s) first
  where
    go : (o : Result (Unit {0}) × Server) → IsPlain o → IsPlain (((λ _. o) >> k) s)
    go (ok tt, t) h = later t
    go (throws x, t) (inl h) = absurd (cc)
    go (throws x, t) (inr h) = absurd (cc)
    go (undefined, t) h = h
    go (running, t) (inl h) = absurd (cc)
    go (running, t) (inr h) = absurd (cc)

plain_fault :
    (m : Action Server (Unit {0})) (s : Server)
    → IsPlain (m s)
    → ((m >> fault {A = Unit {0}}) s).0 ≡ undefined
plain_fault m s h = go (m s) h
  where
    go :
        (o : Result (Unit {0}) × Server)
        → IsPlain o
        → (((λ _. o) >> fault {A = Unit {0}}) s).0 ≡ undefined
    go (ok tt, t) h = refl
    go (throws x, t) (inl h) = absurd (cc)
    go (throws x, t) (inr h) = absurd (cc)
    go (undefined, t) h = refl
    go (running, t) (inl h) = absurd (cc)
    go (running, t) (inr h) = absurd (cc)

remove_entry-IsPlain : (env : Env) (fd : ℕ) (s : Server) → IsPlain (remove_entry env fd s)
unfolding remove_entry
remove_entry-IsPlain env fd s = inl (ground arith)

dequeue_from-IsPlain :
    (env : Env) (conn : ℕ) (m : Table) (s : Server) → IsPlain (dequeue_from env conn m s)
unfolding dequeue_from
dequeue_from-IsPlain env conn [] s = inl refl
dequeue_from-IsPlain env conn ((fd, p) ∷ m) s = elim (Bool-cases (points_to p conn)) [
  | inl here ↦ rw here (inr (plain_fault (remove_entry env fd) s (remove_entry-IsPlain env fd s)))
  | inr there ↦ rw there (dequeue_from-IsPlain env conn m s)
]

close_idle-IsPlain : (env : Env) (conn : ℕ) (s : Server) → IsPlain (close_idle env conn s)
unfolding close_idle shutdown_connection dequeue_connection
close_idle-IsPlain env conn s = elim (Bool-cases (env.is_shutdown conn)) [
  | inl over ↦ rw over (inl refl)
  | inr live ↦ rw live (
      IsPlain->> (shutdown_connection env conn) (call_now terminated conn) s
        (dequeue_from-IsPlain env conn s.connections (record s { log = shutdown conn ∷ s.log }))
        (λ t. inl refl))
]

reap_entry-IsPlain : (env : Env) (fd conn : ℕ) (s : Server) → IsPlain (reap_entry env fd conn s)
unfolding reap_entry unwatch
reap_entry-IsPlain env fd conn s =
    IsPlain->> (unwatch env fd) (close_idle env conn) s (inl (ground arith))
      (close_idle-IsPlain env conn)

-- A null pointer in the table makes a pass over it undefined.
pub reap_null :
    (env : Env) (limit fd : ℕ) (m : Table) (s : Server)
    → lookup fd m ≡ some none
    → (reap_from env limit m s).0 ≡ undefined
unfolding reap_from
reap_null env limit fd [] s e = absurd (cc)
reap_null env limit fd ((f, none) ∷ m) s e = refl
reap_null env limit fd ((f, some c) ∷ m) s e = elim (Bool-cases (is_due env limit s.max_idle c)) [
  | inl over ↦ rw over (plain_fault (reap_entry env f c) s (reap_entry-IsPlain env f c s))
  | inr live ↦ rw live (reap_null env limit fd m s (ground arith))
]

reap_ok :
    (env : Env) (limit : ℕ) (m : Table) (s : Server)
    → (reap_from env limit m s).0 ≡ ok tt
    → AllLive env limit s.max_idle m
unfolding reap_from
reap_ok env limit [] s = λ e. tt
reap_ok env limit ((fd, none) ∷ m) s = λ e. absurd (cc)
reap_ok env limit ((fd, some conn) ∷ m) s = elim (Bool-cases (is_due env limit s.max_idle conn)) [
  | inl over ↦ rw over (λ e. absurd (fault-ne-ok (reap_entry env fd conn) s tt e))
  | inr live ↦ rw live (λ e. (refl, reap_ok env limit m s e))
]

-- A pass over the table comes back exactly if it has no null pointer and no entry that is due, and
-- exactly then it has changed nothing.
pub reap_returns_iff :
    (env : Env) (limit : ℕ) (m : Table) (s : Server)
    → (((reap_from env limit m s).0 ≡ ok tt) ↔ AllLive env limit s.max_idle m)
      × ((reap_from env limit m s ≡ (ok tt, s)) ↔ AllLive env limit s.max_idle m)
reap_returns_iff env limit m s =
    let back = reap_ok env limit m s in
    let same = reap_live env limit m s in
    ((back, λ h. ap (λ o. o.0) (same h)), (λ e. back (ap (λ o. o.0) e), same))
