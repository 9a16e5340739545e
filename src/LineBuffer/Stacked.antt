-- ===== src/LineBuffer/Stacked.antt =====
-- All three decorators around a socket: a client that reads the lines of a part of its input.
use mathlib.Core.List.{map}
use mathlib.Core.Path.{subst}
use libsiot.Base.{
  ℕ, ◌-◌, ◌<◌, ◌≡◌, refl, ap, ◌∙◌, sym, true, false, Option, Bytes, List, [], ◌++◌, append_assoc,
  length, take, inl, u64_mod, arith, ◌+◌, ◌≢◌, ◌⊎◌, inr, Result, ok, throws, undefined, running,
  none, Bool-cases, ◌∷◌,
}
use libsiot.Connection.{Connection, Runtime}
use libsiot.Connection.Contract.{IsSource, Returns}
use libsiot.UnixSocket
use libsiot.UnixSocket.{Sockets, UnixSocket, unix_socket}
use libsiot.UnixSocket.Source.{IsSocket, EndsRight, socket_pending, socket-IsSource}
use libsiot.RangeReader
use libsiot.RangeReader.{RangeReader, range_reader}
use libsiot.RangeReader.Source.{InRange, range_pending, range-IsSource}
use libsiot.Acknowledgement
use libsiot.Acknowledgement.{Acknowledged, acknowledged, set_auto_ack}
use libsiot.Acknowledgement.Buffer.{unread}
use libsiot.Acknowledgement.Auto.{IsAutomatic, auto-IsSource}
use libsiot.LineBuffer.{LineBuffer, line_buffer, receive, find}
use libsiot.LineBuffer.Lines.{lines, HasNoEmptyLine}
use libsiot.LineBuffer.Delivery.{end_line, told, deliverable, Ready, receive-Delivers}
use libsiot.LineBuffer.Fetch.{MayPause}
use libsiot.LineBuffer.Client.{receive_lines, receive_lines_lem, spent}

-- A socket, the reader of a range around it, and the buffer for acknowledgement around that.
abbrev pub Stack : Type 0 → Type 0
Stack W = Acknowledged (RangeReader (UnixSocket W))

-- The objects as they are made, with automatic acknowledgement.
abbrev pub stacked :
    {W : Type 0} → Sockets W → ℕ → Option ℕ → ℕ → ℕ → W → ℕ → ℕ → LineBuffer (Stack W)
stacked net self srv fd peer w max_size max_buffer_size =
    line_buffer (self + 3)
      (set_auto_ack true (
        acknowledged (self + 2)
          (range_reader (self + 1) (unix_socket net self srv fd peer w) max_size true)
          max_buffer_size true))
      true

module _ {W : Type 0} (net : Sockets W) (rt : Runtime W) (rt' : Runtime (UnixSocket W))
    (rt'' : Runtime (RangeReader (UnixSocket W))) (spare : ℕ) where
  abbrev ranged : Connection (RangeReader (UnixSocket W))
  ranged = RangeReader.connection (UnixSocket.connection net rt) rt' spare

  abbrev pub acknowledging : Connection (Stack W)
  acknowledging = Acknowledgement.connection ranged rt''

module _ {W : Type 0} (net : Sockets W) {Plain : ℕ → Type 0} {input : ℕ → W → Bytes}
    (socket : IsSocket net Plain input) (rt : Runtime W) (rt' : Runtime (UnixSocket W))
    (rt'' : Runtime (RangeReader (UnixSocket W))) (spare fuel : ℕ) where
  abbrev conn : Connection (Stack W)
  conn = acknowledging net rt rt' rt'' spare

  abbrev Inner : Stack W → Type 0
  Inner = IsAutomatic (InRange (EndsRight input))

  abbrev left_over : Stack W → Bytes
  left_over = unread (range_pending (socket_pending input))

  conn-IsSource : IsSource conn Plain Inner left_over
  conn-IsSource =
      auto-IsSource (ranged net rt rt' rt'' spare)
        (range-IsSource (UnixSocket.connection net rt) (socket-IsSource net socket rt) rt' spare)
        rt''

  module _ (self fd peer max_size max_buffer_size : ℕ) (srv : Option ℕ) (w : W)
      (fits : max_size < u64_mod) (full : HasNoEmptyLine true (take max_size (input fd w)))
      (small : length (take max_size (input fd w)) < u64_mod)
      (enough : length (take max_size (input fd w)) < fuel) where
    abbrev start : LineBuffer (Stack W)
    start = stacked net self srv fd peer w max_size max_buffer_size

    same : take (max_size - 0) (input fd w) ≡ take max_size (input fd w)
    same = ap (λ n. take n (input fd w)) (omega arith)

    start-Ready : Ready Inner left_over fuel start
    unfolding unix_socket set_auto_ack
    start-Ready = record {
      inner = record {
        inner = record { inner = λ e. absurd (cc); before_end = omega arith; fits = fits };
        auto = refl;
        clean = inl refl;
      };
      full = subst (λ t. HasNoEmptyLine true t) (sym same) full;
      fits = subst (λ t. length t < u64_mod) (sym same) small;
      enough = subst (λ t. length t < fuel) (sym same) enough;
    }

    -- A call that hands over nothing at the reported end leaves no line to come.
    all_told :
        (q : LineBuffer (Stack W)) (res : Result Bytes)
        → Inner q.wrapped
        → (res ≡ ok [] → (q.own.remaining_lines ≡ []) × (find q.own.remainder ≡ none))
        → (deliverable left_over q ≡ []) ⊎ (res ≢ ok []) ⊎ (conn.is_eof q.wrapped ≡ false)
    all_told q (ok []) inner h =
        let (none_left, missing) = h refl in
        elim (Bool-cases (conn.is_eof q.wrapped)) [
          | inl done ↦
              inl (
                spent left_over q none_left missing
                  (conn-IsSource.eof_drained q.wrapped inner done))
          | inr going ↦ inr (inr going)
        ]
    all_told q (ok (c ∷ cs)) inner h = inr (inl (λ e. cc))
    all_told q (throws x) inner h = inr (inl (λ e. cc))
    all_told q undefined inner h = inr (inl (λ e. cc))
    all_told q running inner h = inr (inl (λ e. cc))

    -- With the documented behaviour of `recv`: a client makes a line buffer around a buffer with
    -- automatic acknowledgement around a range reader around a new socket, and calls `Receive` as
    -- often as it likes. Every call comes back, and what it has got at any time are the first of
    -- the complete lines of the first `max_size` bytes of the socket's input, in order and each
    -- with `\n` for its end, whatever the pieces in which the system hands the input over and
    -- whatever the size of the buffer for acknowledgement; it has got all of them when a call hands
    -- over the empty string and the wrapped connection reports its end. The conditions: `max_size`
    -- is below 2 ^ 64, and these bytes have no empty line and are fewer than 2 ^ 64 and than the
    -- fuel.
    pub stacked_lines_first :
        (k n flags : ℕ)
        → let (got, after) = receive_lines conn fuel k start in
          let o = receive conn fuel n flags after in
          Returns o.0
          × ((rest : List Bytes) × (map end_line (lines (take max_size (input fd w)))
                ≡ (got ++ told o.0) ++ rest)
              × ((rest ≡ []) ⊎ (o.0 ≢ ok []) ⊎ (conn.is_eof o.1.wrapped ≡ false)))
    unfolding unix_socket set_auto_ack
    stacked_lines_first k n flags =
        let pause : MayPause conn Inner Unit = λ _ _ _ _ _ _ _. tt in
        let (ready, parts) = receive_lines_lem conn conn-IsSource pause fuel k start start-Ready in
        let (got, after) = receive_lines conn fuel k start in
        let one = receive-Delivers conn fuel conn-IsSource pause n flags after ready in
        let o = receive conn fuel n flags after in
        (
          one.returns,
          (
            deliverable left_over o.1,
            ap (λ t. map end_line (lines t)) (sym same)
                ∙ parts
                ∙ ap (◌++◌ got) one.tells
                ∙ sym (append_assoc got (told o.0) _),
            all_told o.1 o.0 one.ready.inner (λ e. let (a, b, _) = one.nothing e in (a, b)),
          ),
        )
