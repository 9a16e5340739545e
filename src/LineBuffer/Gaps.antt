-- ===== src/LineBuffer/Gaps.antt =====
-- Where `Receive` does not do what the header says: empty lines, and a last line without a newline.
use libsiot.Base.{
  ℕ, zero, suc, ◌-◌, ◌≤◌, ◌<◌, ap, ◌∙◌, Result, ◌>>◌, ◌≡◌, refl, true, false, none, Bytes, List, [],
  ◌∷◌, ok, undefined, arith, is_none, length, get_elem?, u64_mod,
}
use libsiot.Connection.{Connection}
use libsiot.LineBuffer.{
  LineBuffer, LineState, newline, find, rfind, take_line, split, fetch, receive, is_eof, pop_line,
  on_lines,
}

out_of_range : (n : ℕ) (text : Bytes) → length text ≤ n → get_elem? text n ≡ none
out_of_range n [] h = refl
out_of_range zero (c ∷ cs) h = absurd (omega arith)
out_of_range (suc n) (c ∷ cs) h = out_of_range n cs (omega arith)

rfind-newline : (rest : Bytes) → is_none (rfind (newline ∷ rest)) ≡ false
unfolding rfind
rfind-newline rest = ground arith

take_line_empty : (rest : Bytes) → length rest < u64_mod - 1 → take_line (newline ∷ rest) 0 ≡ none
unfolding take_line
take_line_empty rest h = rw (out_of_range (u64_mod - 2) rest (omega arith), take_line)

split_empty :
    (n : ℕ) (rest : Bytes) (ls : List Bytes)
    → length rest < u64_mod - 1
    → let l : LineState = record { remainder = newline ∷ rest; remaining_lines = ls } in
      split (suc n) l ≡ (undefined, l)
unfolding split find
split_empty n rest ls h = rw (take_line_empty rest h, split)

split-none : (n : ℕ) (l : LineState) → find l.remainder ≡ none → split (suc n) l ≡ (ok tt, l)
unfolding split
split-none n l e = rw (e, split)

module _ {S : Type 0} (conn : Connection S) (r : LineBuffer S) where
  abbrev pub with_text : Bytes → LineBuffer S
  with_text text = record r { own = record { remainder = text; remaining_lines = [] } }

  fetch_found :
      (fuel : ℕ) (text : Bytes)
      → is_none (rfind text) ≡ false
      → fetch conn (suc fuel) (with_text text) ≡ (ok tt, with_text text)
  unfolding fetch
  fetch_found fuel text found = rw found

  fetch_eof :
      (fuel : ℕ) (text : Bytes)
      → conn.is_eof r.wrapped ≡ true
      → fetch conn (suc fuel) (with_text text) ≡ (ok tt, with_text text)
  unfolding fetch
  fetch_eof fuel text done = ground arith

  -- `Receive` behind loops whose outcomes are known.
  receive_by :
      (fuel n flags : ℕ) (text : Bytes) (o : Result (Unit {0}) × LineState)
      → fetch conn (suc fuel) (with_text text) ≡ (ok tt, with_text text)
      → split (suc (length text)) (with_text text).own ≡ o
      → receive conn (suc fuel) n flags (with_text text)
        ≡ (on_lines (λ _. o) >> on_lines pop_line) (with_text text)
  unfolding receive
  receive_by fuel n flags text o e e' =
      ap
        (λ (x : Result (Unit {0}) × LineBuffer S).
          ((λ _. x) >> (on_lines (λ l. split (suc (length l.remainder)) l) >> on_lines pop_line))
            (with_text text))
        e
      ∙ ap
          (λ (x : Result (Unit {0}) × LineState).
            (on_lines (λ _. x) >> on_lines pop_line) (with_text text))
          e'

  -- When no line is left and the buffered text, shorter than 2 ^ 64, begins with an empty line that
  -- ends in `\n` alone, the behaviour of `Receive` is undefined, whatever else is buffered.
  pub empty_line_undefined :
      (fuel n flags : ℕ) (rest : Bytes)
      → length rest < u64_mod - 1
      → (receive conn (suc fuel) n flags (with_text (newline ∷ rest))).0 ≡ undefined
  empty_line_undefined fuel n flags rest fits =
      ap (λ o. o.0)
        (receive_by fuel n flags (newline ∷ rest) _
          (fetch_found fuel (newline ∷ rest) (rfind-newline rest)) (split_empty _ rest [] fits))

  -- When no line is left, the wrapped connection is at its end, and the buffered text has no
  -- newline, `Receive` hands over nothing and changes nothing, and `IsEOF` is set.
  pub unterminated_line_kept :
      (fuel n flags : ℕ) (text : Bytes)
      → find text ≡ none
      → conn.is_eof r.wrapped ≡ true
      → (receive conn (suc fuel) n flags (with_text text) ≡ (ok [], with_text text))
        × (is_eof conn (with_text text) ≡ true)
  unfolding is_eof pop_line
  unterminated_line_kept fuel n flags text missing done = (
    receive_by fuel n flags text _ (fetch_eof fuel text done)
        (split-none _ (with_text text).own missing),
    rw done,
  )
