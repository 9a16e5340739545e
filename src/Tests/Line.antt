-- ===== src/Tests/Line.antt =====
-- Line buffering of a tape with two complete lines and the beginning of a third.
use mathlib.Core.List.{map}
use libsiot.Base.{◌≡◌, refl, true, Bytes, [], ◌∷◌, ok, undefined, arith, take}
use libsiot.Connection.Contract.{NeverThrows}
use libsiot.LineBuffer.{
  LineBuffer, line_buffer, find, rfind, take_line, split, pop_line, fetch, receive, is_eof,
}
use libsiot.LineBuffer.Lines.{strip_cr, lines_from, lines, HasNoEmptyLine}
use libsiot.LineBuffer.Ranged.{ranged_lines_complete}
use libsiot.RangeReader
use libsiot.RangeReader.{range_reader}
use libsiot.LineBuffer.Delivery.{Ready, Delivers, end_line, receive-Delivers}
use libsiot.LineBuffer.Client.{receive_lines}
use libsiot.LineBuffer.Complete.{receive_lines_complete}
use libsiot.LineBuffer.Gaps.{with_text, empty_line_undefined, unterminated_line_kept}
use libsiot.Tests.Tape.{tape, tape-IsSource, tape-HasProgress, Any, whole, idle_runtime}

-- "ab\r\nc\nd"
abbrev text : Bytes
text = 97 ∷ 98 ∷ 13 ∷ 10 ∷ 99 ∷ 10 ∷ 100 ∷ []

abbrev buffered : LineBuffer Bytes
buffered = line_buffer 1 text true

abbrev at_end : LineBuffer Bytes
at_end = line_buffer 1 [] true

-- The first call returns "ab\n".
first_line : (receive tape 9 0 0 buffered).0 ≡ ok (97 ∷ 98 ∷ 10 ∷ [])
unfolding receive fetch split find rfind take_line pop_line
first_line = refl

-- After two lines, a call returns nothing.
two_lines : (receive tape 9 0 0 (receive_lines tape 9 2 buffered).1).0 ≡ ok []
unfolding receive_lines receive fetch split find rfind take_line pop_line
two_lines = refl

ready : Ready Any whole 9 buffered
ready = record {
  inner = tt;
  full = (
    λ _ e. omega arith,
    (
      λ h _. cc,
      (λ h _. cc, (λ h _. cc, (λ _ e. omega arith, (λ h _. cc, (λ _ e. omega arith, tt))))),
    ),
  );
  fits = omega arith;
  enough = omega arith;
}

receive-Delivers_example : Delivers tape Any whole ⊥ 9 buffered (receive tape 9 0 0 buffered)
receive-Delivers_example = receive-Delivers tape 9 tape-IsSource tape-HasProgress 0 0 buffered ready

empty_line_undefined_example :
    (receive tape 9 0 0 (with_text tape at_end (10 ∷ 97 ∷ 10 ∷ []))).0 ≡ undefined
empty_line_undefined_example = empty_line_undefined tape at_end 8 0 0 (97 ∷ 10 ∷ []) (omega arith)

unterminated_line_kept_example :
    (receive tape 9 0 0 (with_text tape at_end (97 ∷ []))
      ≡ (ok [], with_text tape at_end (97 ∷ [])))
    × (is_eof tape (with_text tape at_end (97 ∷ [])) ≡ true)
unfolding find
unterminated_line_kept_example = unterminated_line_kept tape at_end 8 0 0 (97 ∷ []) refl refl

tape-NeverThrows : NeverThrows tape Any
tape-NeverThrows n s x v e = cc

receive_lines_complete_example : (receive_lines tape 9 2 buffered).0 ≡ map end_line (lines text)
unfolding lines_from strip_cr
receive_lines_complete_example =
    receive_lines_complete tape tape-IsSource tape-HasProgress tape-NeverThrows 9 1 2 text true tt
      ready.full (omega arith) (omega arith) (omega arith)

-- The lines of the first five bytes: "ab" and then "c" without its newline.
first_five : HasNoEmptyLine true (take 5 text)
first_five = (λ _ e. omega arith, (λ h _. cc, (λ h _. cc, (λ h _. cc, (λ _ e. omega arith, tt)))))

ranged_lines_complete_example :
    (receive_lines
      (RangeReader.connection tape idle_runtime 9)
      9
      2
      (line_buffer 1 (range_reader 2 text 5 true) true)).0
    ≡ map end_line (lines (take 5 text))
unfolding lines_from strip_cr
ranged_lines_complete_example =
    ranged_lines_complete tape tape-IsSource tape-HasProgress tape-NeverThrows idle_runtime 9 9 2 1
      2 5 text true true tt (omega arith) first_five (omega arith) (omega arith)
