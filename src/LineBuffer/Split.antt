-- ===== src/LineBuffer/Split.antt =====
-- The second loop of `Receive` splits the text as the specification does.
use libsiot.Base.{
  ℕ, zero, suc, ◌≤◌, ◌<◌, ◌≡◌, refl, sym, ap, ◌∙◌, true, none, some, Bytes, List, [], ◌∷◌, ◌++◌,
  Result, ok, throws, undefined, running, length, length-append, length-drop, take, drop,
  append_assoc, Option-cases, inl, inr, u64_mod, arith,
}
use libsiot.LineBuffer.{LineState, find, split}
use libsiot.LineBuffer.Lines.{
  strip_cr, lines, HasNoEmptyLine, lines-find, find-lt-length, find-HasNoEmptyLine, take_line_lem,
}

-- All complete lines, of a state whose text goes on with `rest`.
abbrev pub unread_lines : Bytes → LineState → List Bytes
unread_lines rest l = l.remaining_lines ++ lines (l.remainder ++ rest)

-- The outcome of the loop: it has come back with the same lines, and none left in the remainder,
-- which is as it was if there is still no line in the list.
abbrev pub Splits : Bytes → LineState → Result (Unit {0}) × LineState → Type 0
Splits rest l (ok _, l') =
    (unread_lines rest l ≡ unread_lines rest l')
    × (find l'.remainder ≡ none)
    × HasNoEmptyLine true (l'.remainder ++ rest)
    × (length l'.remainder ≤ length l.remainder)
    × (l'.remaining_lines ≡ [] → l'.remainder ≡ l.remainder)
    × (length l.remaining_lines ≤ length l'.remaining_lines)
Splits rest l (throws x, l') = ⊥
Splits rest l (undefined, l') = ⊥
Splits rest l (running, l') = ⊥

Splits-trans :
    (rest : Bytes) (l m : LineState) (o : Result (Unit {0}) × LineState)
    → unread_lines rest l ≡ unread_lines rest m
    → length m.remainder ≤ length l.remainder
    → length l.remaining_lines < length m.remaining_lines
    → Splits rest m o
    → Splits rest l o
Splits-trans rest l m (ok _, l') e le more (e', f, g, h, same, k) = (
  e ∙ e',
  f,
  g,
  omega arith,
  (λ none_there. let z = ap length none_there in absurd (omega arith)),
  omega arith,
)
Splits-trans rest l m (throws x, l') e le more h = h
Splits-trans rest l m (undefined, l') e le more h = h
Splits-trans rest l m (running, l') e le more h = h

-- The loop of `Receive` that splits the lines off ends within as many rounds as the remainder has
-- bytes, and one more. On a text without empty lines it reads no byte out of range, moves each
-- complete line, without its line end, to the list behind those there, and leaves no newline.
pub split-Splits :
    (fuel : ℕ) (rest : Bytes) (l : LineState)
    → length l.remainder < fuel
    → length l.remainder < u64_mod
    → HasNoEmptyLine true (l.remainder ++ rest)
    → Splits rest l (split fuel l)
unfolding split
split-Splits zero rest l enough fits full = absurd (omega arith)
split-Splits (suc fuel) rest l enough fits full = elim (Option-cases (find l.remainder)) [
  | inl missing ↦ rw (missing, split) (refl, missing, full, omega arith, (λ _. refl), omega arith)
  | inr (i, here) ↦
      let (pos, full') = find-HasNoEmptyLine true l.remainder rest i here full in
      let shorter = length-drop (suc i) l.remainder in
      let within = find-lt-length l.remainder i here in
      let line = take_line_lem l.remainder i here (pos refl) fits in
      let m : LineState = record {
        remainder = drop (suc i) l.remainder;
        remaining_lines = l.remaining_lines ++ strip_cr (take i l.remainder) ∷ [];
      } in
      rw (here, split)
        (rw (line, split)
          (Splits-trans rest l m _ (moved i here) (omega arith)
            (omega (arith, length-append l.remaining_lines (strip_cr (take i l.remainder) ∷ [])))
            (split-Splits fuel rest m (omega arith) (omega arith) full')))
]
  where
    moved :
        (i : ℕ)
        → find l.remainder ≡ some i
        → unread_lines rest l
          ≡ (l.remaining_lines ++ strip_cr (take i l.remainder) ∷ [])
            ++ lines (drop (suc i) l.remainder ++ rest)
    moved i here =
        ap (◌++◌ l.remaining_lines) (lines-find l.remainder [] rest i here)
        ∙ sym (append_assoc l.remaining_lines _ _)
