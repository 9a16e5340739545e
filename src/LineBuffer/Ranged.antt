-- ===== src/LineBuffer/Ranged.antt =====
-- A line buffer over a range reader: the lines of a part of the input.
use mathlib.Core.List.{map}
use mathlib.Core.Path.{subst}
use libsiot.Base.{
  ℕ, ◌-◌, ◌≤◌, ◌<◌, ◌≡◌, ap, ◌∙◌, sym, Bool, true, Bytes, length, take, length-take, u64_mod, arith,
}
use libsiot.Connection.{Connection, Runtime}
use libsiot.Connection.Contract.{IsSource, HasProgress, NeverThrows}
use libsiot.RangeReader
use libsiot.RangeReader.{RangeReader, range_reader}
use libsiot.RangeReader.Source.{range-IsSource}
use libsiot.RangeReader.Progress.{range-HasProgress, range-NeverThrows}
use libsiot.LineBuffer.{line_buffer}
use libsiot.LineBuffer.Lines.{lines, HasNoEmptyLine}
use libsiot.LineBuffer.Delivery.{end_line}
use libsiot.LineBuffer.Client.{receive_lines}
use libsiot.LineBuffer.Complete.{receive_lines_complete}

module _ {S : Type 0} (conn : Connection S) {Plain : ℕ → Type 0} {Inv : S → Type 0}
    {pending : S → Bytes} (source : IsSource conn Plain Inv pending)
    (progress : HasProgress conn Inv) (quiet : NeverThrows conn Inv) (rt : Runtime S)
    (spare fuel : ℕ) where
  -- Over a source that never throws and, before its end, hands over at least one byte a call: a
  -- client of a new line buffer around a new range reader, whose maximum is a `uint64_t`, that
  -- calls `Receive` at least as often as the range has complete lines gets exactly the complete
  -- lines of the first `max_size` bytes of the input, in order, each with `\n` for its end, if
  -- these bytes have no empty line and are fewer than 2 ^ 64 and than the fuel.
  pub ranged_lines_complete :
      (self outer k max_size : ℕ) (s : S) (own own' : Bool)
      → Inv s
      → max_size < u64_mod
      → HasNoEmptyLine true (take max_size (pending s))
      → length (take max_size (pending s)) < fuel
      → length (lines (take max_size (pending s))) ≤ k
      → (receive_lines
          (RangeReader.connection conn rt spare)
          fuel
          k
          (line_buffer outer (range_reader self s max_size own) own')).0
        ≡ map end_line (lines (take max_size (pending s)))
  ranged_lines_complete self outer k max_size s own own' v fits full enough often =
      receive_lines_complete (RangeReader.connection conn rt spare)
        (range-IsSource conn source rt spare) (range-HasProgress conn rt spare progress)
        (range-NeverThrows conn rt spare quiet) fuel outer k (range_reader self s max_size own) own'
        (record { inner = v; before_end = omega arith; fits = fits })
        (subst (λ t. HasNoEmptyLine true t) (sym same) full)
        (subst (λ t. length t < u64_mod) (sym same)
          (omega (arith, length-take max_size (pending s))))
        (subst (λ t. length t < fuel) (sym same) enough)
        (subst (λ t. length (lines t) ≤ k) (sym same) often)
      ∙ ap (λ t. map end_line (lines t)) same
    where
      same : take (max_size - 0) (pending s) ≡ take max_size (pending s)
      same = ap (λ n. take n (pending s)) (omega arith)
