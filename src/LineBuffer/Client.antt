-- ===== src/LineBuffer/Client.antt =====
-- A client that reads line after line gets the lines of the input.
use libsiot.LineBuffer.Fetch.{MayPause}
use mathlib.Core.List.{map}
use libsiot.Base.{
  ℕ, zero, suc, ◌<◌, ◌≡◌, refl, sym, ap, ◌∙◌, Bool, true, none, Bytes, List, [], ◌++◌, ok, length,
  append_assoc, append-nil, inl, inr, u64_mod,
}
use libsiot.Connection.{Connection}
use libsiot.Connection.Contract.{IsSource, HasProgress}
use libsiot.LineBuffer.{LineBuffer, find, receive, line_buffer}
use libsiot.LineBuffer.Lines.{lines, HasNoEmptyLine, lines-find-none}
use libsiot.LineBuffer.Delivery.{Ready, end_line, deliverable, told, receive-Delivers}

-- A client that calls `Receive` a number of times, goes on after an exception, and collects the
-- lines.
unfoldable pub receive_lines :
    {S : Type 0} → Connection S → ℕ → ℕ → LineBuffer S → List Bytes × LineBuffer S
receive_lines conn fuel zero r = ([], r)
receive_lines conn fuel (suc k) r =
    let (o, r') = receive conn fuel 0 0 r in
    let (ls, r'') = receive_lines conn fuel k r' in (told o ++ ls, r'')

module _ {S : Type 0} (conn : Connection S) {Plain : ℕ → Type 0} {Inv : S → Type 0}
    {pending : S → Bytes} (source : IsSource conn Plain Inv pending) {Pause : Type 0}
    (pause : MayPause conn Inv Pause) (fuel : ℕ) where
  -- What a client has got and what it is still to get are the lines.
  pub receive_lines_lem :
      (k : ℕ) (r : LineBuffer S)
      → Ready Inv pending fuel r
      → Ready Inv pending fuel (receive_lines conn fuel k r).1
        × (deliverable pending r
            ≡ (receive_lines conn fuel k r).0
              ++ deliverable pending (receive_lines conn fuel k r).1)
  unfolding receive_lines
  receive_lines_lem zero r v = (v, refl)
  receive_lines_lem (suc k) r v =
      let one = receive-Delivers conn fuel source pause 0 0 r v in
      let (v', e) = receive_lines_lem k (receive conn fuel 0 0 r).1 one.ready in
      (
        v',
        one.tells
            ∙ ap (◌++◌ (told (receive conn fuel 0 0 r).0)) e
            ∙ sym (append_assoc (told (receive conn fuel 0 0 r).0) _ _),
      )

-- No line is to come where none is left and nothing is pending.
pub spent :
    {S : Type 0} (pending : S → Bytes) (q : LineBuffer S)
    → q.own.remaining_lines ≡ []
    → find q.own.remainder ≡ none
    → pending q.wrapped ≡ []
    → deliverable pending q ≡ []
spent pending q empty missing drained = ap (map end_line) (
    ap (λ l. l ++ lines (q.own.remainder ++ pending q.wrapped)) empty
    ∙ ap (λ t. lines (q.own.remainder ++ t)) drained
    ∙ ap lines (append-nil q.own.remainder)
    ∙ lines-find-none q.own.remainder [] missing)

module _ {S : Type 0} (conn : Connection S) {Plain : ℕ → Type 0} {Inv : S → Type 0}
    {pending : S → Bytes} (source : IsSource conn Plain Inv pending)
    (progress : HasProgress conn Inv) (fuel : ℕ) where
  -- Nothing is left when `Receive` hands over nothing.
  pub finished :
      (r : LineBuffer S)
      → Ready Inv pending fuel r
      → (receive conn fuel 0 0 r).0 ≡ ok []
      → deliverable pending r ≡ []
  finished r v e =
      let last = receive-Delivers conn fuel source progress 0 0 r v in
      let q = (receive conn fuel 0 0 r).1 in
      let (empty, missing, why) = last.nothing e in
      let drained : pending q.wrapped ≡ [] = elim why [
        | inl done ↦ source.eof_drained q.wrapped last.ready.inner done
        | inr h ↦ absurd h
      ] in
      last.tells ∙ rw e (spent pending q empty missing drained)

  -- Over a source that, before its end, hands over at least one byte a call: a client of a new
  -- decorator that has called `Receive` until the next call hands over the empty string has got
  -- exactly the complete lines of the input, in order, each with `\n` for its `\n` or `\r\n`,
  -- however the input arrives and also past exceptions, if the input has no empty line and is
  -- shorter than 2 ^ 64 and than the fuel.
  pub delivers_all :
      (self k : ℕ) (s : S) (own : Bool)
      → Inv s
      → HasNoEmptyLine true (pending s)
      → length (pending s) < u64_mod
      → length (pending s) < fuel
      → (receive conn fuel 0 0 (receive_lines conn fuel k (line_buffer self s own)).1).0 ≡ ok []
      → (receive_lines conn fuel k (line_buffer self s own)).0 ≡ map end_line (lines (pending s))
  delivers_all self k s own v full fits enough e =
      let (v', parts) =
        receive_lines_lem conn source progress fuel k (line_buffer self s own)
          (record { inner = v; full = full; fits = fits; enough = enough }) in
      let rest = finished (receive_lines conn fuel k (line_buffer self s own)).1 v' e in
      sym (
        parts
        ∙ ap (◌++◌ (receive_lines conn fuel k (line_buffer self s own)).0) rest
        ∙ append-nil _)
