-- ===== src/Server/Rounds.antt =====
-- The frame of `Server::ListenEpoll`: setting the socket up, and the rounds of its `while` loop.
use Prim.Native.String.{◌++◌ as str_append}
use libsiot.Base.{
  ℕ, ◌*◌, Bool, false, Option, none, some, String, List, [], ◌∷◌, Result, ok, throws, undefined,
  running, if◌then◌else◌,
}
use libsiot.Base.Int.{ℤ, pos, negsuc}
use libsiot.Server.{
  ServerSetupException, Server, Env, connection_failed, epoll_errors, epoll_add, reaper_added, emit,
}
use libsiot.Server.Listener.{Event, handle_events}

-- The outcomes of the calls that set the socket up: the text of the error, if there is one.
pub record Setup : Type 0 where
  pub bind : Option String
  pub listen : Option String
  pub epoll_create : Option String
  pub epoll_ctl : Option String

-- The message of the `ServerSetupException`, if one is thrown. `number` is the text of
-- `num_threads_`.
unfoldable pub set_up : Setup → String → Option String
set_up calls number = elim calls.bind [
  | some e ↦ some e
  | none ↦ elim calls.listen [
    | some e ↦ some e
    | none ↦ elim calls.epoll_create [
      | some e ↦ some (str_append (str_append (str_append "epoll_create (" number) "): ") e)
      | none ↦ elim calls.epoll_ctl [ some e ↦ some (str_append "epoll_ctl: " e) | none ↦ none ]
    ]
  ]
]

-- The timeout of `epoll_wait`, in milliseconds; `none` is -1, no timeout. The setting is at most
-- 2147483, where the product fits an `int`.
unfoldable pub wait_timeout : ℤ → Option ℕ
wait_timeout (pos n) = some (n * 1000)
wait_timeout (negsuc n) = none

-- The outcome of `epoll_wait`: a batch, or an error, with whether it is one of `ERESTART`, `EINTR`
-- and `EAGAIN`.
pub data Wait : Type 0 where
  ready : List Event → Wait
  wait_failed : Bool → String → Wait

-- How a round of the loop ends: with the next one, with the end of the loop, by a
-- `ServerSetupException`, or not at all.
pub data Round : Type 0 where
  again finished lost : Round
  setup_exception : ServerSetupException → Round

abbrev pub round_of : Result (Unit {0}) × Server → Round × Server
round_of (ok _, s) = (again, s)
round_of (throws e, s) = (lost, s)
round_of (undefined, s) = (lost, s)
round_of (running, s) = (lost, s)

-- The body of the `while` loop, for what `epoll_wait` returns.
abbrev pub listen_body : Env → Wait → Server → Round × Server
listen_body env (ready events) s = round_of (handle_events env 0 false events s)
listen_body env (wait_failed retry message) s =
    let (r, t) = emit (connection_failed message) s in
    if retry
    then round_of (emit (epoll_errors message) t)
    else (setup_exception (record { errmsg = str_append "epoll_wait: " message }), t)

-- A round of the loop with nothing of other threads between its test and its body.
unfoldable pub listen_round : Env → Wait → Server → Round × Server
listen_round env w s = if s.running_ then listen_body env w s else (finished, s)

-- What follows a round: the next one, or the end.
abbrev pub continue_by : (Server → Round × Server) → Round × Server → Round × Server
continue_by more (again, s) = more s
continue_by more (finished, s) = (finished, s)
continue_by more (lost, s) = (lost, s)
continue_by more (setup_exception e, s) = (setup_exception e, s)

-- What a round of the loop meets: what the other threads make of the server behind its test, while
-- `epoll_wait` waits, what that returns, and what the rest of the system answers then.
pub record Turn : Type 0 where
  pub meanwhile : Server → Server
  pub answers : Env
  pub wait : Wait

-- The `while` loop, for what its rounds meet; `again` means that the list has been used up.
unfoldable pub listen_loop : List Turn → Server → Round × Server
listen_loop [] s = (again, s)
listen_loop (t ∷ turns) s =
    let on = continue_by (listen_loop turns) (listen_body t.answers t.wait (t.meanwhile s)) in
    if s.running_ then on else (finished, s)

-- Behind the set-up.
abbrev pub listen_by : Option String → List Turn → Server → Round × Server
listen_by (some message) turns s = (setup_exception (record { errmsg = message }), s)
listen_by none turns s = listen_loop turns s

-- The call of `epoll_ctl` for the listening socket, where the calls before it succeed.
unfoldable pub watch_listening : Setup → Server → Server
watch_listening calls s = elim calls.bind [
  | some e ↦ s
  | none ↦ elim calls.listen [
    | some e ↦ s
    | none ↦ elim calls.epoll_create [
      | some e ↦ s
      | none ↦ record s { log = epoll_add s.serverfd ∷ s.log }
    ]
  ]
]

-- `Server::ListenEpoll`. The reaper is given to the pool before the set-up.
unfoldable pub listen_epoll : Setup → String → List Turn → Server → Round × Server
listen_epoll calls number turns s =
    listen_by (set_up calls number) turns
      (watch_listening calls (record s { log = reaper_added ∷ s.log }))

-- What `configure` has found.
pub record Build : Type 0 where
  pub posix_source : Bool
  pub have_epoll_create : Bool
  pub have_kqueue : Bool
  pub have_select : Bool

-- `Server::Listen`, for the variants of the loop that the build has. Only `ListenEpoll` is defined.
unfoldable pub listen : {A : Type 0} → Build → A → A → A → A → A → A
listen build listen_epoll listen_kqueue listen_select listen_poll skipped =
    if build.posix_source
    then (if build.have_epoll_create
        then listen_epoll
        else (if build.have_kqueue
            then listen_kqueue
            else (if build.have_select then listen_select else listen_poll)))
    else skipped
