-- ===== src/Server/Threads/Loop.antt =====
-- `ListenEpoll` as a whole: which failure of its set-up it reports, and how its loop ends.
use Prim.Native.String.{◌++◌ as str_append}
use libsiot.Base.{◌≡◌, ◌⊎◌, Bool, true, false, none, some, String, List, [], ◌∷◌}
use libsiot.Server.{Server, reaper_added, epoll_add}
use libsiot.Server.Rounds.{Setup, Turn, Round, again, finished, lost, setup_exception}
use libsiot.Server.Threads.{Reach}

-- The first call of the set-up that fails, the message that is to be reported, and whether
-- `epoll_ctl` has been called.
pub data FailsBy (calls : Setup) (number : String) : String → Bool → Type 0 where
  at_bind : (e : String) → calls.bind ≡ some e → FailsBy calls number e false
  at_listen :
      (e : String) → calls.bind ≡ none → calls.listen ≡ some e → FailsBy calls number e false
  at_epoll_create :
      (e : String)
      → calls.bind ≡ none
      → calls.listen ≡ none
      → calls.epoll_create ≡ some e
      → FailsBy calls number
          (str_append (str_append (str_append "epoll_create (" number) "): ") e)
          false
  at_epoll_ctl :
      (e : String)
      → calls.bind ≡ none
      → calls.listen ≡ none
      → calls.epoll_create ≡ none
      → calls.epoll_ctl ≡ some e
      → FailsBy calls number (str_append "epoll_ctl: " e) true

-- No call of the set-up fails.
abbrev pub Succeeds : Setup → Type 0
Succeeds calls =
    (calls.bind ≡ none)
    × (calls.listen ≡ none)
    × (calls.epoll_create ≡ none)
    × (calls.epoll_ctl ≡ none)

-- The server behind the set-up, by whether `epoll_ctl` has been called.
abbrev pub set_up_state : Bool → Server → Server
set_up_state true s = record s { log = epoll_add s.serverfd ∷ reaper_added ∷ s.log }
set_up_state false s = record s { log = reaper_added ∷ s.log }

-- How the loop ends: without an exception only where a test has found that the server is stopped.
abbrev pub IsEnd : Round × Server → Type 0
IsEnd (finished, s) = s.running_ ≡ false
IsEnd (again, s) = Unit
IsEnd (lost, s) = Unit
IsEnd (setup_exception message, s) = Unit

-- The outcome of `ListenEpoll`.
abbrev pub Ends : Setup → String → Server → Round × Server → Type 0
Ends calls number s o =
    ((message : String) × (called : Bool) × FailsBy calls number message called
      × (o ≡ (setup_exception (record { errmsg = message }), set_up_state called s)))
    ⊎ (Succeeds calls × Reach (set_up_state true s) o.1 × IsEnd o)

-- The other threads go by steps.
abbrev pub AllSteps : List Turn → Type 0
AllSteps [] = Unit
AllSteps (t ∷ turns) = ((s : Server) → Reach s (t.meanwhile s)) × AllSteps turns

-- How the body of the loop ends: not by a test.
abbrev GoesOn : Round × Server → Type 0
GoesOn (finished, s) = ⊥
GoesOn (again, s) = Unit
GoesOn (lost, s) = Unit
GoesOn (setup_exception m, s) = Unit
