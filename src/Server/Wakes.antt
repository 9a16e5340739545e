-- ===== src/Server/Wakes.antt =====
-- The thread of the reaper, from its start on: what it takes for it to come back.
use mathlib.Core.Path.{subst}
use libsiot.Base.{
  ap, ℕ, ◌≡◌, ◌↔◌, refl, Bool, true, false, List, [], ◌∷◌, Result, ok, throws, undefined, running,
  ◌>>◌, ◌>>=◌, if◌then◌else◌, Bool-cases, inl, inr, sym, Action, ◌∙◌,
}
use libsiot.Server.{Server, Env}
use libsiot.Server.Reaper.{Wake, to_u64, reap_from, reap_round, reap_loop, reap_connections_epoll}
use libsiot.Server.Idle.{AllLive, reap_returns_iff}

-- What the other threads make of the server, up to a waking that finds it stopped, with the result
-- of a reaper that does nothing.
abbrev pub waits : List Wake → Action Server Bool
waits [] s = (ok true, s)
waits (w ∷ ws) s =
    if s.running_
    then (if (w.meanwhile s).running_ then waits ws (w.meanwhile s) else (ok false, w.meanwhile s))
    else (ok false, s)

-- Whenever the reaper wakes and the server has not been stopped, no entry is due and none is null.
abbrev pub AllWakesLive : ℕ → List Wake → Server → Type 0
AllWakesLive limit [] s = Unit
AllWakesLive limit (w ∷ ws) s =
    s.running_ ≡ true
    → (w.meanwhile s).running_ ≡ true
    → AllLive w.answers limit (w.meanwhile s).max_idle (w.meanwhile s).connections
      × AllWakesLive limit ws (w.meanwhile s)

abbrev pub ComesBack : {A : Type 0} → Result A × Server → Type 0
ComesBack (ok a, s) = Unit
ComesBack (throws x, s) = ⊥
ComesBack (undefined, s) = ⊥
ComesBack (running, s) = ⊥

abbrev go_on : ℕ → List Wake → Result Bool × Server → Result Bool × Server
go_on limit ws o = ((λ _. o) >>= λ on. if on then reap_loop ws limit else (λ t. (ok false, t))) o.1

-- The loop by cases: a server that has been stopped before the wait, or in it, and a round.
loop_stopped :
    (limit : ℕ) (w : Wake) (ws : List Wake) (s : Server)
    → s.running_ ≡ false
    → reap_loop (w ∷ ws) limit s ≡ (ok false, s)
unfolding reap_loop
loop_stopped limit w ws s off = simp off refl

loop_round :
    (limit : ℕ) (w : Wake) (ws : List Wake) (s : Server) {o : Result Bool × Server}
    → s.running_ ≡ true
    → reap_round w.answers limit (w.meanwhile s) ≡ o
    → reap_loop (w ∷ ws) limit s ≡ go_on limit ws o
unfolding reap_loop
loop_round limit w ws s on e = simp on (ap (go_on limit ws) e)

round_stopped :
    (env : Env) (limit : ℕ) (s : Server)
    → s.running_ ≡ false
    → reap_round env limit s ≡ (ok false, s)
unfolding reap_round
round_stopped env limit s off = simp off refl

round_live :
    (env : Env) (limit : ℕ) (s : Server)
    → s.running_ ≡ true
    → AllLive env limit s.max_idle s.connections
    → reap_round env limit s ≡ (ok true, s)
unfolding reap_round
round_live env limit s on live = simp on (
    ap (λ (o : Result (Unit {0}) × Server). ((λ _. o) >> (λ t. (ok true, t))) s)
      ((reap_returns_iff env limit s.connections s).1.1 live))

-- A round that does not stand on live entries does not go on.
round_back :
    (env : Env) (limit : ℕ) (ws : List Wake) (s : Server)
    → s.running_ ≡ true
    → ComesBack (go_on limit ws (reap_round env limit s))
    → AllLive env limit s.max_idle s.connections
unfolding reap_round
round_back env limit ws s on =
    simp on
      (go (reap_from env limit s.connections s) (reap_returns_iff env limit s.connections s).0.0)
  where
    go :
        (o : Result (Unit {0}) × Server)
        → (o.0 ≡ ok tt → AllLive env limit s.max_idle s.connections)
        → ComesBack (go_on limit ws (((λ _. o) >> (λ t. (ok true, t))) s))
        → AllLive env limit s.max_idle s.connections
    go (ok _, t) live back = live refl
    go (throws x, t) live back = absurd back
    go (undefined, t) live back = absurd back
    go (running, t) live back = absurd back

loop_live :
    (limit : ℕ) (ws : List Wake) (s : Server)
    → AllWakesLive limit ws s
    → reap_loop ws limit s ≡ waits ws s
unfolding reap_loop
loop_live limit [] s h = refl
loop_live limit (w ∷ ws) s h = elim (Bool-cases s.running_) [
  | inr off ↦ loop_stopped limit w ws s off ∙ simp off refl
  | inl on ↦ elim (Bool-cases (w.meanwhile s).running_) [
    | inr off ↦
        loop_round limit w ws s on (round_stopped w.answers limit (w.meanwhile s) off)
        ∙ simp (on, off) refl
    | inl still ↦
        let (live, rest) = h on still in
        loop_round limit w ws s on (round_live w.answers limit (w.meanwhile s) still live)
        ∙ simp (on, still) (loop_live limit ws (w.meanwhile s) rest)
  ]
]

waits-ComesBack : (ws : List Wake) (s : Server) → ComesBack (waits ws s)
waits-ComesBack [] s = tt
waits-ComesBack (w ∷ ws) s = elim (Bool-cases s.running_) [
  | inr off ↦ simp off tt
  | inl on ↦ elim (Bool-cases (w.meanwhile s).running_) [
    | inr off ↦ simp (on, off) tt
    | inl still ↦ simp (on, still) (waits-ComesBack ws (w.meanwhile s))
  ]
]

loop_back :
    (limit : ℕ) (ws : List Wake) (s : Server)
    → ComesBack (reap_loop ws limit s)
    → AllWakesLive limit ws s
loop_back limit [] s back = tt
loop_back limit (w ∷ ws) s back = λ on still.
    let live =
      round_back w.answers limit ws (w.meanwhile s) still
        (subst ComesBack (loop_round limit w ws s on refl) back) in
    let rest =
      subst ComesBack
        (loop_round limit w ws s on (round_live w.answers limit (w.meanwhile s) still live)) back in
    (live, loop_back limit ws (w.meanwhile s) rest)

-- Whatever the other threads do between its rounds and whatever the rest of the system answers: the
-- thread of the reaper comes back from its rounds exactly if each of them, up to one that finds the
-- server stopped, meets no entry that is due, as seen with the setting of the thread's start, and
-- no null pointer; and exactly then it ends like a thread that does nothing: the server is what the
-- other threads alone have made of it.
pub reaper_only_waits :
    (ws : List Wake) (s : Server)
    → (ComesBack (reap_connections_epoll ws s) ↔ AllWakesLive (to_u64 s.max_idle) ws s)
      × ((reap_connections_epoll ws s ≡ waits ws s) ↔ AllWakesLive (to_u64 s.max_idle) ws s)
unfolding reap_connections_epoll
reaper_only_waits ws s =
    let back = loop_back (to_u64 s.max_idle) ws s in
    let live = loop_live (to_u64 s.max_idle) ws s in
    let waited : reap_loop ws (to_u64 s.max_idle) s ≡ waits ws s
        → ComesBack (reap_loop ws (to_u64 s.max_idle) s) =
      λ e. subst ComesBack (sym e) (waits-ComesBack ws s) in
    ((back, λ h. waited (live h)), (λ e. back (waited e), live))
