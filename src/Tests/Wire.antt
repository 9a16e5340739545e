-- ===== src/Tests/Wire.antt =====
-- A stream through memory, of which `send` takes one byte a call: two lines, of which the first
-- ends in a carriage return.
use mathlib.Core.List.{map}
use libsiot.Base.{
  ◌<◌, ◌≡◌, ◌≢◌, ◌⊎◌, refl, sym, false, none, Bytes, List, [], ◌∷◌, ◌++◌, append-nil, ok, length,
  arith,
}
use libsiot.Base.Int.{ℤ, pos}
use libsiot.Connection.Contract.{Returns}
use libsiot.Connection.Sink.{send_all}
use libsiot.Acknowledgement
use libsiot.RangeReader
use libsiot.UnixSocket
use libsiot.UnixSocket.{Sockets, unix_socket}
use libsiot.UnixSocket.Source.{IsSocket}
use libsiot.UnixSocket.Sink.{IsWire, Gave}
use libsiot.LineBuffer
use libsiot.LineBuffer.{find, rfind, take_line, split, pop_line, fetch, receive}
use libsiot.LineBuffer.Lines.{strip_cr}
use libsiot.LineBuffer.Delivery.{end_line, told}
use libsiot.LineBuffer.Client.{receive_lines}
use libsiot.LineBuffer.Text.{AllLines, text_of}
use libsiot.LineBuffer.Stacked.{acknowledging, stacked}
use libsiot.LineBuffer.Wire.{sending, sender, system_of, lines_arrive}
use libsiot.Tests.Tape.{idle_runtime, Any}
use libsiot.Tests.Socket.{memory, memory-IsSocket, input}

abbrev one_byte : Bytes → Bytes → ℤ × Bytes
one_byte [] w = (pos 0, w)
one_byte (b ∷ bs) w = (pos 1, w ++ b ∷ [])

abbrev stream : Sockets Bytes
stream = record memory { send = λ fd bytes flags. one_byte bytes }

stream-IsSocket : IsSocket stream Any input
stream-IsSocket = record { plain_zero = tt; recv_took = memory-IsSocket.recv_took }

stream-IsWire : IsWire stream 4 (input 5)
stream-IsWire = record { gives = λ bytes flags w. gives bytes w }
  where
    gives : (bytes w : Bytes) → Gave (input 5) bytes w (one_byte bytes w)
    gives [] w = (omega arith, sym (append-nil w))
    gives (b ∷ bs) w = (omega arith, refl)

-- "a\r" and "b"
abbrev two : List Bytes
two = (97 ∷ 13 ∷ []) ∷ (98 ∷ []) ∷ []

two-AllLines : AllLines two
unfolding find
two-AllLines = ((λ e. cc, refl), ((λ e. cc, refl), tt))

lines_arrive_example :
    let (left, d) =
      send_all
        (sending stream idle_runtime idle_runtime idle_runtime 9)
        5
        (text_of two)
        (sender stream 1 none 4 0 [] 100) in
    let conn = acknowledging stream idle_runtime idle_runtime idle_runtime 9 in
    let (got, after) = receive_lines conn 9 2 (stacked stream 11 none 5 0 (system_of d) 50 100) in
    let o = receive conn 9 0 0 after in
    Returns o.0
    × ((rest : List Bytes) × (map end_line (map strip_cr two) ≡ (got ++ told o.0) ++ rest)
        × ((rest ≡ [])
            ⊎ (left ≢ [])
            ⊎ (50 < length (text_of two))
            ⊎ (o.0 ≢ ok [])
            ⊎ (conn.is_eof o.1.wrapped ≡ false)))
lines_arrive_example =
    lines_arrive stream stream-IsSocket stream-IsWire idle_runtime idle_runtime idle_runtime
      idle_runtime 9 9 1 0 11 0 none none [] 100 100 two two-AllLines refl 50 (omega arith)
      (omega arith) (omega arith) 5 2 0 0

-- Five calls of `Send` and two of `Receive` bring both lines over.
both_arrive :
    let (left, d) =
      send_all
        (sending stream idle_runtime idle_runtime idle_runtime 9)
        5
        (text_of two)
        (sender stream 1 none 4 0 [] 100) in
    (left ≡ [])
    × ((receive_lines
          (acknowledging stream idle_runtime idle_runtime idle_runtime 9)
          9
          2
          (stacked stream 11 none 5 0 (system_of d) 50 100)).0
        ≡ (97 ∷ 10 ∷ []) ∷ (98 ∷ 10 ∷ []) ∷ [])
unfolding send_all LineBuffer.connection Acknowledgement.connection UnixSocket.connection
    UnixSocket.send unix_socket receive_lines receive find rfind take_line split pop_line fetch
    Acknowledgement.receive Acknowledgement.is_eof Acknowledgement.hand_over Acknowledgement.request
    RangeReader.connection RangeReader.receive RangeReader.receive_part RangeReader.is_eof
    RangeReader.clip UnixSocket.receive UnixSocket.received_by UnixSocket.buffer_size
    Acknowledgement.set_auto_ack
both_arrive = (refl, refl)
