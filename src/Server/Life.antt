-- ===== src/Server/Life.antt =====
-- The system resources of a `Server`: the address list and the socket of the constructor, the
-- failures of `ListenEpoll` before its loop, and the destructor.
use libsiot.Base.{
  ℕ, suc, ◌≡◌, Option, none, some, String, List, [], ◌∷◌, if◌then◌else◌, ◌==◌, is_none, arith, ◌≢◌,
}
use libsiot.Server.{ServerSetupException}
use libsiot.Server.Rounds.{Setup, set_up}

-- What a call that makes something answers: the text of its error, or what it made.
pub data Answer : Type 0 where
  failed : String → Answer
  made : ℕ → Answer

-- The calls that make or release a resource.
pub data SystemCall : Type 0 where
  free_info close shut_down epoll_made : ℕ → SystemCall

-- `info_`, a pointer that may be null, `serverfd_`, and the calls made, the newest first.
pub record Endpoint : Type 0 where
  pub info : Option ℕ
  pub serverfd : ℕ
  pub calls : List SystemCall

-- How the constructor ends: by a `ServerSetupException`, or with the object.
pub data Opened : Type 0 where
  setup_failed : ServerSetupException → List SystemCall → Opened
  opened : Endpoint → Opened

-- `Server::Server`, for the answers of `c_str2addrinfo` and `socket`.
unfoldable pub open_endpoint : Answer → Answer → Opened
open_endpoint (failed message) sock = setup_failed (record { errmsg = message }) []
open_endpoint (made info) (failed message) =
    setup_failed (record { errmsg = message }) (free_info info ∷ [])
open_endpoint (made info) (made fd) =
    opened (record { info = some info; serverfd = fd; calls = [] })

abbrev pub call : SystemCall → Endpoint → Endpoint
call c e = record e { calls = c ∷ e.calls }

-- `freeaddrinfo(info_); info_ = 0;`
abbrev pub release_info : Option ℕ → Endpoint → Endpoint
release_info none e = e
release_info (some info) e = record e { info = none; calls = free_info info ∷ e.calls }

-- What `ListenEpoll` does to the resources before its loop: a failed `bind` closes the socket and
-- frees the addresses; the other failures release nothing.
abbrev pub after_bind : Setup → Option String → Endpoint → Endpoint
after_bind calls (some message) e = release_info e.info (call (close e.serverfd) e)
after_bind calls none e = e

-- Where all the calls before it succeed, `epoll_create` has made the given descriptor.
abbrev pub after_epoll_create : ℕ → Setup → Endpoint → Endpoint
after_epoll_create epollfd calls e = elim calls.bind [
  | some m ↦ e
  | none ↦ elim calls.listen [
    | some m ↦ e
    | none ↦ elim calls.epoll_create [ some m ↦ e | none ↦ call (epoll_made epollfd) e ]
  ]
]

-- The beginning of `ListenEpoll`: the message of its exception, if it throws, and the resources.
unfoldable pub begin_listening : Setup → String → ℕ → Endpoint → Option String × Endpoint
begin_listening calls number epollfd e =
    (set_up calls number, after_epoll_create epollfd calls (after_bind calls calls.bind e))

-- `Server::~Server`
unfoldable pub destroy : Endpoint → Endpoint
destroy e =
    let freed = release_info e.info e in
    call (close freed.serverfd) (call (shut_down freed.serverfd) freed)

-- How often an address list is freed, a descriptor closed, and an epoll descriptor made.
abbrev pub frees : ℕ → List SystemCall → ℕ
frees info [] = 0
frees info (free_info i ∷ cs) = if i == info then suc (frees info cs) else frees info cs
frees info (c ∷ cs) = frees info cs

abbrev pub closes : ℕ → List SystemCall → ℕ
closes fd [] = 0
closes fd (close f ∷ cs) = if f == fd then suc (closes fd cs) else closes fd cs
closes fd (c ∷ cs) = closes fd cs

-- `Listen`, if it is called: what it does to the resources.
abbrev pub listened : Option Setup → String → ℕ → Endpoint → Endpoint
listened none number epollfd e = e
listened (some calls) number epollfd e = (begin_listening calls number epollfd e).1

-- The rest of a server's life behind its constructor: where that throws, there is no object to
-- destroy.
abbrev pub rest_of_life : Option Setup → String → ℕ → Opened → List SystemCall
rest_of_life listening number epollfd (setup_failed e calls) = calls
rest_of_life listening number epollfd (opened e) =
    (destroy (listened listening number epollfd e)).calls

-- A server's life, for what its constructor and `Listen` meet.
unfoldable pub life : Answer → Answer → Option Setup → String → ℕ → List SystemCall
unfolding open_endpoint
life addresses sock listening number epollfd =
    rest_of_life listening number epollfd (open_endpoint addresses sock)

-- The socket's calls of `close` over a life: one, and one more after a failed `bind`.
abbrev pub expected_closes : Option Setup → ℕ
expected_closes none = 1
expected_closes (some calls) = if is_none calls.bind then 1 else 2

module _ (info fd epollfd : ℕ) (number : String) where
  begin_lem :
      (bind listen epoll_create epoll_ctl : Option String)
      → epollfd ≢ fd
      → let calls : Setup = record {
        bind = bind;
        listen = listen;
        epoll_create = epoll_create;
        epoll_ctl = epoll_ctl;
      } in
        let e : Endpoint = record { info = some info; serverfd = fd; calls = [] } in
        let e' = destroy (begin_listening calls number epollfd e).1 in
        (frees info e'.calls ≡ 1)
        × (closes fd e'.calls ≡ expected_closes (some calls))
        × (closes epollfd e'.calls ≡ 0)
  unfolding begin_listening destroy
  begin_lem (some m) l c x other = ground arith
  begin_lem none (some m) c x other = ground arith
  begin_lem none none (some m) x other = ground arith
  begin_lem none none none x other = ground arith

  begin_frees :
      (f : ℕ) (bind listen epoll_create epoll_ctl : Option String)
      → let calls : Setup = record {
        bind = bind;
        listen = listen;
        epoll_create = epoll_create;
        epoll_ctl = epoll_ctl;
      } in
        let e : Endpoint = record { info = some info; serverfd = f; calls = [] } in
        frees info (destroy (begin_listening calls number epollfd e).1).calls ≡ 1
  unfolding begin_listening destroy
  begin_frees f (some m) l c x = ground arith
  begin_frees f none (some m) c x = ground arith
  begin_frees f none none (some m) x = ground arith
  begin_frees f none none none x = ground arith

  -- Over every life of a server whose address was resolved, whether its socket could be made,
  -- whether `Listen` was called, and whatever it met: the list of addresses is freed exactly once.
  -- And if the socket was made, it is closed exactly once, but twice if `bind` has failed, in
  -- `ListenEpoll` and by the destructor; a descriptor that `epoll_create` has made besides is never
  -- closed.
  pub life_releases :
      (sock : Answer) (listening : Option Setup)
      → epollfd ≢ fd
      → let calls = life (made info) (made fd) listening number epollfd in
        (frees info (life (made info) sock listening number epollfd) ≡ 1)
        × (closes fd calls ≡ expected_closes listening)
        × (closes epollfd calls ≡ 0)
  unfolding life destroy
  life_releases sock listening other =
      (freed sock listening, (kept listening).0, (kept listening).1)
    where
      kept :
          (listening : Option Setup)
          → (closes fd (life (made info) (made fd) listening number epollfd)
              ≡ expected_closes listening)
            × (closes epollfd (life (made info) (made fd) listening number epollfd) ≡ 0)
      kept none = ground arith
      kept (some calls) =
          let all = begin_lem calls.bind calls.listen calls.epoll_create calls.epoll_ctl other in
          (all.1, all.2)

      freed :
          (sock : Answer) (listening : Option Setup)
          → frees info (life (made info) sock listening number epollfd) ≡ 1
      freed (failed m) listening = ground arith
      freed (made f) none = ground arith
      freed (made f) (some calls) =
          begin_frees f calls.bind calls.listen calls.epoll_create calls.epoll_ctl
