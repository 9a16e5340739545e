-- ===== src/LineBuffer/Wire.antt =====
-- Both ends of a stream: a client sends lines through its decorators, and the one at the other end
-- reads them through its own.
use mathlib.Core.List.{map, map-append}
use mathlib.Core.Path.{subst}
use native.Mathlib.Decide.{dec_lt}
use libsiot.Base.{
  ℕ, ◌+◌, ◌≤◌, ◌<◌, ◌≡◌, ◌≢◌, ◌⊎◌, refl, sym, ap, ◌∙◌, true, false, Option, Bytes, List, [], ◌∷◌,
  ◌++◌, append_assoc, length, length-append, length-drop, take, drop, take-append-drop, ok, inl,
  inr, u64_mod, arith,
}
use libsiot.Connection.{Connection, Runtime}
use libsiot.Connection.Contract.{Returns}
use libsiot.Connection.Sink.{IsSink, send_all, send_all_lem}
use libsiot.Decorator.Sink.{Wraps, wrapped_sent, forward-IsSink}
use libsiot.UnixSocket
use libsiot.UnixSocket.{Sockets, UnixSocket, unix_socket}
use libsiot.UnixSocket.Source.{IsSocket}
use libsiot.UnixSocket.Sink.{IsWire, Owns, handed, socket-IsSink}
use libsiot.RangeReader.{RangeReader}
use libsiot.Acknowledgement
use libsiot.Acknowledgement.{Acknowledged, acknowledged}
use libsiot.LineBuffer.{LineBuffer, line_buffer, receive, connection}
use libsiot.LineBuffer.Lines.{lines, strip_cr, HasNoEmptyLine}
use libsiot.LineBuffer.Delivery.{end_line, told}
use libsiot.LineBuffer.Client.{receive_lines}
use libsiot.LineBuffer.Stacked.{stacked, acknowledging, stacked_lines_first}
use libsiot.LineBuffer.Text.{
  AllLines, text_of, lines-text_of, lines_from-append, HasNoEmptyLine-append,
  text_of-HasNoEmptyLine,
}

length-zero : (xs : Bytes) → length xs ≡ 0 → xs ≡ []
length-zero [] e = refl
length-zero (x ∷ xs) e = absurd (omega arith)

nil_or_not : (xs : Bytes) → (xs ≡ []) ⊎ (xs ≢ [])
nil_or_not [] = inl refl
nil_or_not (x ∷ xs) = inr (λ e. cc)

-- The sender's connection: a line buffer around a buffer for acknowledgement around a socket, which
-- both pass `Send` on.
abbrev pub Sender : Type 0 → Type 0
Sender W = LineBuffer (Acknowledged (UnixSocket W))

abbrev pub sender : {W : Type 0} → Sockets W → ℕ → Option ℕ → ℕ → ℕ → W → ℕ → Sender W
sender net self srv from peer w room =
    line_buffer (self + 2)
      (acknowledged (self + 1) (unix_socket net self srv from peer w) room true) true

-- The system as the sender leaves it.
abbrev pub system_of : {W : Type 0} → Sender W → W
system_of d = d.wrapped.wrapped.system

module _ {W : Type 0} (net : Sockets W) (rt : Runtime W) (rt' : Runtime (UnixSocket W))
    (rt'' : Runtime (Acknowledged (UnixSocket W))) (fuel : ℕ) where
  abbrev inner : Connection (Acknowledged (UnixSocket W))
  inner = Acknowledgement.connection (UnixSocket.connection net rt) rt'

  abbrev pub sending : Connection (Sender W)
  sending = connection inner rt'' fuel

  sending-IsSink :
      {from : ℕ} {input : W → Bytes}
      → IsWire net from input
      → IsSink sending (Wraps (Wraps (Owns from))) (wrapped_sent (wrapped_sent (handed input)))
  unfolding connection Acknowledgement.connection
  sending-IsSink wire =
      forward-IsSink inner sending (λ bytes flags d. refl)
        (forward-IsSink (UnixSocket.connection net rt) inner (λ bytes flags d. refl)
          (socket-IsSink net wire rt))

-- What a reader of `max_size` bytes has of a text of which `there` has arrived and `left` has not.
part_of_text :
    (ls : List Bytes) (there left : Bytes) (max_size : ℕ)
    → AllLines ls
    → there ++ left ≡ text_of ls
    → let part = take max_size there in
      HasNoEmptyLine true part
      × (length part ≤ length (text_of ls))
      × ((rest : List Bytes) × (map end_line (map strip_cr ls) ≡ map end_line (lines part) ++ rest)
          × ((rest ≡ []) ⊎ (left ≢ []) ⊎ (max_size < length (text_of ls))))
part_of_text ls there left max_size h e =
    let part = take max_size there in
    let more = drop max_size there ++ left in
    let whole : part ++ more ≡ text_of ls =
      sym (append_assoc part (drop max_size there) left)
      ∙ ap (λ t. t ++ left) (take-append-drop max_size there)
      ∙ e in
    let parts = ap length whole in
    let sizes = length-append part more in
    let (rest, split, all) = lines_from-append [] part more in
    (
      HasNoEmptyLine-append true part more
          (subst (HasNoEmptyLine true) (sym whole) (text_of-HasNoEmptyLine ls h)),
      omega arith,
      (
        map end_line rest,
        ap (map end_line) (sym (lines-text_of ls h) ∙ ap lines (sym whole) ∙ split)
            ∙ map-append end_line (lines part) rest,
        elim (nil_or_not left) [
          | inr some_left ↦ inr (inl some_left)
          | inl none_left ↦ elim (dec_lt max_size (length (text_of ls))) [
            | yes long ↦ inr (inr long)
            | no fitting ↦
                let nothing : length more ≡ 0 = omega (
                  arith,
                  ap length e,
                  length-append there left,
                  length-drop max_size there,
                  length-append (drop max_size there) left,
                  ap length none_left,
                ) in
                inl (ap (map end_line) (all (length-zero more nothing)))
          ]
        ],
      ),
    )

module _ {W : Type 0} (net : Sockets W) {Plain : ℕ → Type 0} {input : ℕ → W → Bytes}
    (socket : IsSocket net Plain input) {from to : ℕ} (wire : IsWire net from (input to))
    (rt : Runtime W) (rt_socket : Runtime (UnixSocket W))
    (rt_sender : Runtime (Acknowledged (UnixSocket W)))
    (rt_range : Runtime (RangeReader (UnixSocket W))) (spare fuel : ℕ) (self peer self' peer' : ℕ)
    (srv srv' : Option ℕ) (w : W) (sender_room room : ℕ) where
  arrived :
      (m : ℕ) (ls : List Bytes)
      → input to w ≡ []
      → let (left, d) =
          send_all
            (sending net rt rt_socket rt_sender fuel)
            m
            (text_of ls)
            (sender net self srv from peer w sender_room) in
        input to (system_of d) ++ left ≡ text_of ls
  unfolding unix_socket
  arrived m ls e =
      send_all_lem (sending net rt rt_socket rt_sender fuel)
        (sending-IsSink net rt rt_socket rt_sender fuel wire) m (text_of ls)
        (sender net self srv from peer w sender_room) refl
      ∙ ap (λ t. t ++ text_of ls) e

  -- With the documented behaviour of `send` and `recv` on the two ends of a stream, which is empty
  -- at first: a client sends lines, each with `\n` for its end, by any number of calls of `Send`
  -- through a line buffer and a buffer for acknowledgement, each call with what is left, whatever
  -- part of it the system takes, and goes on after failures. After that, a client at the other end
  -- reads, by any number of calls of `Receive` through a line buffer, an automatic acknowledgement
  -- and a range of `max_size` bytes. Every `Receive` comes back, and what it has got are the first
  -- of the lines that were sent, in order, each less a carriage return at its end. It has got all
  -- of them if everything was sent, the range is as long as the text, and a call has handed over
  -- the empty string at the reported end. No line may be empty or hold a newline, and `max_size`
  -- and the length of the text are below 2 ^ 64, the text's also below the fuel.
  pub lines_arrive :
      (ls : List Bytes)
      → AllLines ls
      → input to w ≡ []
      → (max_size : ℕ) → max_size < u64_mod
      → length (text_of ls) < u64_mod
      → length (text_of ls) < fuel
      → (m k n flags : ℕ)
      → let (left, d) =
          send_all
            (sending net rt rt_socket rt_sender fuel)
            m
            (text_of ls)
            (sender net self srv from peer w sender_room) in
        let conn = acknowledging net rt rt_socket rt_range spare in
        let (got, after) =
          receive_lines conn fuel k (stacked net self' srv' to peer' (system_of d) max_size room) in
        let o = receive conn fuel n flags after in
        Returns o.0
        × ((rest : List Bytes) × (map end_line (map strip_cr ls) ≡ (got ++ told o.0) ++ rest)
            × ((rest ≡ [])
                ⊎ (left ≢ [])
                ⊎ (max_size < length (text_of ls))
                ⊎ (o.0 ≢ ok [])
                ⊎ (conn.is_eof o.1.wrapped ≡ false)))
  lines_arrive ls h empty max_size fits small enough m k n flags =
      let (left, d) =
        send_all (sending net rt rt_socket rt_sender fuel) m (text_of ls)
          (sender net self srv from peer w sender_room) in
      let conn = acknowledging net rt rt_socket rt_range spare in
      let (full, short, (rest, e, why)) =
        part_of_text ls (input to (system_of d)) left max_size h (arrived m ls empty) in
      let (returns, (rest', e', why')) =
        stacked_lines_first net socket rt rt_socket rt_range spare fuel self' to peer' max_size room
          srv' (system_of d) fits full (omega arith) (omega arith) k n flags in
      let (got, after) =
        receive_lines conn fuel k (stacked net self' srv' to peer' (system_of d) max_size room) in
      let o = receive conn fuel n flags after in
      (
        returns,
        (
          rest' ++ rest,
          e ∙ ap (λ t. t ++ rest) e' ∙ append_assoc (got ++ told o.0) rest' rest,
          elim why [
            | inr (inl some_left) ↦ inr (inl some_left)
            | inr (inr long) ↦ inr (inr (inl long))
            | inl none_more ↦ elim why' [
              | inl done ↦ inl (ap (λ t. t ++ rest) done ∙ none_more)
              | inr other ↦ inr (inr (inr other))
            ]
          ],
        ),
      )
