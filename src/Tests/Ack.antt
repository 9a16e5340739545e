-- ===== src/Tests/Ack.antt =====
-- Acknowledgement of the input of a tape, with room for four bytes.
use libsiot.Base.{◌<◌, ◌≡◌, ◌≢◌, refl, true, false, Bytes, List, [], ◌∷◌, ◌++◌, length, ok, arith}
use libsiot.Acknowledgement.{
  Acknowledged, acknowledged, receive, hand_over, request, acknowledge, set_auto_ack, set_buffer,
  connection,
}
use libsiot.Connection.Contract.{IsSource}
use libsiot.Acknowledgement.Auto.{IsAutomatic, auto-IsSource}
use libsiot.Acknowledgement.Buffer.{unread}
use libsiot.Acknowledgement.History.{
  Call, receives, acknowledges, sets_auto_ack, step, run, run_conserves, overflow_sticks,
}
use libsiot.Tests.Tape.{tape, tape-IsSource, whole, idle_runtime, Any}

abbrev six_bytes : Acknowledged Bytes
six_bytes = acknowledged 1 (1 ∷ 2 ∷ 3 ∷ 4 ∷ 5 ∷ 6 ∷ []) 4 false

abbrev some_calls : List Call
some_calls = receives 3 0 ∷ acknowledges 2 ∷ receives 0 0 ∷ sets_auto_ack true ∷ []

abbrev above_maximum : Acknowledged Bytes
above_maximum = set_buffer (1 ∷ 2 ∷ 3 ∷ 4 ∷ 5 ∷ []) six_bytes

-- Two bytes are acknowledged, and the third is returned again with what follows.
acknowledges_two : (run tape some_calls six_bytes).0 ≡ 1 ∷ 2 ∷ []
unfolding run step receive hand_over request acknowledge set_auto_ack
acknowledges_two = refl

-- A call with a limit that the buffer has reached asks the wrapped connection for as much as it
-- has.
exceeds_limit :
    (receive tape 2 0 (set_buffer (1 ∷ 2 ∷ []) (acknowledged 1 (3 ∷ 4 ∷ 5 ∷ []) 9 false))).0
    ≡ ok (1 ∷ 2 ∷ 3 ∷ 4 ∷ 5 ∷ [])
unfolding receive hand_over request
exceeds_limit = refl

run_conserves_example :
    Unit {0}
    × (unread whole six_bytes
        ≡ (run tape some_calls six_bytes).0 ++ unread whole (run tape some_calls six_bytes).1)
run_conserves_example =
    run_conserves tape tape-IsSource some_calls six_bytes tt
      (omega arith, tt, (omega arith, tt, tt))

overflow_sticks_example :
    ((d : Bytes) → (receive tape 3 0 above_maximum).0 ≢ ok d)
    × (4 < length (receive tape 3 0 above_maximum).1.own.buffer)
overflow_sticks_example =
    overflow_sticks tape tape-IsSource 3 0 above_maximum tt tt (omega arith) (omega arith)

auto-IsSource_example : IsSource (connection tape idle_runtime) Any (IsAutomatic Any) (unread whole)
auto-IsSource_example = auto-IsSource tape tape-IsSource idle_runtime
