-- ===== src/Tests/Range.antt =====
-- A range reader for four bytes of a tape of six.
use libsiot.Base.{ℕ, ◌≡◌, refl, true, Bytes, List, [], ◌∷◌, arith}
use libsiot.Connection.Contract.{IsSource, read_all}
use libsiot.RangeReader.{RangeReader, range_reader, clip, receive, receive_part, connection, drain}
use libsiot.RangeReader.Source.{InRange, range_pending, range-IsSource}
use libsiot.RangeReader.Drain.{Skips, drain-Skips}
use libsiot.Tests.Tape.{tape, tape-IsSource, tape-HasProgress, idle_runtime, Any, whole}

abbrev four_of_six : RangeReader Bytes
four_of_six = range_reader 1 (1 ∷ 2 ∷ 3 ∷ 4 ∷ 5 ∷ 6 ∷ []) 4 true

abbrev two_reads : List (ℕ × ℕ)
two_reads = (0, 0) ∷ (2, 0) ∷ []

four-InRange : InRange Any four_of_six
four-InRange = record { inner = tt; before_end = omega arith; fits = omega arith }

-- The two calls return the four bytes, and the next ones nothing.
reads_four :
    (read_all (connection tape idle_runtime 9) two_reads four_of_six).0 ≡ 1 ∷ 2 ∷ 3 ∷ 4 ∷ []
unfolding read_all connection receive receive_part clip
reads_four = refl

-- The loop of `Shutdown` leaves the tape behind its fourth byte.
drains_four : (drain tape 9 four_of_six).1.wrapped ≡ 5 ∷ 6 ∷ []
unfolding drain
drains_four = refl

range-IsSource_example :
    IsSource (connection tape idle_runtime 9) Any (InRange Any) (range_pending whole)
range-IsSource_example = range-IsSource tape tape-IsSource idle_runtime 9

drain-Skips_example : Skips whole four_of_six (drain tape 9 four_of_six)
drain-Skips_example =
    drain-Skips tape tape-IsSource tape-HasProgress 9 four_of_six four-InRange (omega arith)
