-- ===== src/Tests/Stacked.antt =====
-- The three decorators around a socket in memory: the range is the first five bytes.
use mathlib.Core.List.{map}
use libsiot.Base.{◌≡◌, ◌≢◌, ◌⊎◌, true, false, none, Bytes, List, [], ◌∷◌, ◌++◌, ok, arith, take}
use libsiot.Connection.Contract.{Returns}
use libsiot.LineBuffer.{receive}
use libsiot.LineBuffer.Lines.{lines, HasNoEmptyLine}
use libsiot.LineBuffer.Delivery.{end_line, told}
use libsiot.LineBuffer.Client.{receive_lines}
use libsiot.LineBuffer.Stacked.{acknowledging, stacked, stacked_lines_first}
use libsiot.Tests.Tape.{idle_runtime}
use libsiot.Tests.Socket.{memory, memory-IsSocket}

-- "a\nb\nc\n"
abbrev three_lines : Bytes
three_lines = 97 ∷ 10 ∷ 98 ∷ 10 ∷ 99 ∷ 10 ∷ []

first_five : HasNoEmptyLine true (take 5 three_lines)
first_five =
    (λ _ e. omega arith, (λ h _. cc, (λ _ e. omega arith, (λ h _. cc, (λ _ e. omega arith, tt)))))

stacked_lines_first_example :
    let conn = acknowledging memory idle_runtime idle_runtime idle_runtime 9 in
    let (got, after) = receive_lines conn 9 1 (stacked memory 1 none 4 0 three_lines 5 100) in
    let o = receive conn 9 0 0 after in
    Returns o.0
    × ((rest : List Bytes) × (map end_line (lines (take 5 three_lines)) ≡ (got ++ told o.0) ++ rest)
        × ((rest ≡ []) ⊎ (o.0 ≢ ok []) ⊎ (conn.is_eof o.1.wrapped ≡ false)))
stacked_lines_first_example =
    stacked_lines_first memory memory-IsSocket idle_runtime idle_runtime idle_runtime 9 9 1 4 0 5
      100 none three_lines (omega arith) first_five (omega arith) (omega arith) 1 0 0
