-- ===== src/Server/Threads/Final.antt =====
-- `Server::Shutdown` is final, and what the threads never change.
use libsiot.Base.{ℕ, ◌≡◌, refl, Bool, true, false, ok, if◌then◌else◌, List, ◌∷◌}
use libsiot.Server.{
  set_connection_callback, Server, Env, stop, set_max_idle, set_max_connections,
  set_server_ssl_context,
}
use libsiot.Server.Frame.{IsFrame}
use libsiot.Server.Reaper.{reap_round}
use libsiot.Server.Rounds.{Turn, finished, listen_loop}
use libsiot.Server.Threads.{Reach, IsUnset, Reach-Keeps}

abbrev IsStopped : Server → Type 0
IsStopped s = s.running_ ≡ false

IsStopped-IsFrame : IsFrame IsStopped
IsStopped-IsFrame = record {
  calm = record {
    shrinks = record {
      emits = λ e s n h. h;
      queues = λ t s n e h. h;
      removes = λ k s h. h;
      dequeues = λ before after t s n e h. h;
    };
    locks = λ f c s e h. h;
    registers = λ k v s h. h;
    enters = λ k s e h. h;
  };
  finishes = λ before after f c s e h. h;
}

IsStopped-IsUnset : IsUnset IsStopped
unfolding set_connection_callback stop set_max_idle set_max_connections set_server_ssl_context
IsStopped-IsUnset = record {
  stops = λ s h. refl;
  idles = λ n s h. h;
  maxima = λ n s h. h;
  callbacks = λ n s h. h;
  contexts = λ c s h. h;
  watches = λ s h. h;
}

if_false : {A : Type 0} (b : Bool) (x y : A) → b ≡ false → (if b then x else y) ≡ y
if_false true x y e = absurd (cc)
if_false false x y e = refl

reap_round-stopped :
    (env : Env) (limit : ℕ) (s : Server)
    → s.running_ ≡ false
    → reap_round env limit s ≡ (ok false, s)
unfolding reap_round
reap_round-stopped env limit s off = if_false s.running_ _ _ off

listen_loop-stopped :
    (t : Turn) (turns : List Turn) (s : Server)
    → s.running_ ≡ false
    → listen_loop (t ∷ turns) s ≡ (finished, s)
unfolding listen_loop
listen_loop-stopped t turns s off = if_false s.running_ _ _ off

-- After `Server::Shutdown`, whatever the threads and the program do next and in whatever order: the
-- listener's loop ends at its next test, whatever `epoll_wait` would return from then on, the next
-- waking of the reaper ends its thread, and neither does anything else.
pub stop_is_final :
    (env : Env) (turn : Turn) (turns : List Turn) (limit : ℕ) (s t : Server)
    → Reach (stop s) t
    → (listen_loop (turn ∷ turns) t ≡ (finished, t)) × (reap_round env limit t ≡ (ok false, t))
unfolding stop
stop_is_final env turn turns limit s t r =
    let off = Reach-Keeps IsStopped-IsFrame IsStopped-IsUnset r refl in
    (listen_loop-stopped turn turns t off, reap_round-stopped env limit t off)
