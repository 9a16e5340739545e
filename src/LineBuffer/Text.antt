-- ===== src/LineBuffer/Text.antt =====
-- The text that is made of lines, and what is read back from the beginning of it.
use mathlib.Core.List.{map}
use libsiot.Base.{
  ◌≡◌, ◌≢◌, refl, sym, ap, ◌∙◌, Bool, true, false, none, Bytes, List, [], ◌∷◌, ◌++◌, append_assoc,
  append-nil, ◌==◌, ==_iff, Bool-cases, inl, inr, arith,
}
use libsiot.LineBuffer.{newline, find}
use libsiot.LineBuffer.Lines.{lines, lines_from, strip_cr, HasNoEmptyLine}
use libsiot.LineBuffer.Delivery.{end_line}

-- A line that can be sent as one: it is not empty and has no newline.
abbrev pub IsLine : Bytes → Type 0
IsLine l = (l ≢ []) × (find l ≡ none)

abbrev pub AllLines : List Bytes → Type 0
AllLines [] = Unit
AllLines (l ∷ ls) = IsLine l × AllLines ls

-- The lines one after the other, each with `\n` for its end.
abbrev pub text_of : List Bytes → Bytes
text_of [] = []
text_of (l ∷ ls) = end_line l ++ text_of ls

lines_from-line :
    (start l rest : Bytes)
    → find l ≡ none
    → lines_from start (end_line l ++ rest) ≡ strip_cr (start ++ l) ∷ lines rest
unfolding lines_from find
lines_from-line start [] rest e = ap (λ t. strip_cr t ∷ lines rest) (sym (append-nil start))
lines_from-line start (c ∷ cs) rest e = elim (Bool-cases (c == newline)) [
  | inl end ↦ ground arith
  | inr inside ↦
      let missing : find cs ≡ none = ground arith in
      rw inside (
        lines_from-line (start ++ c ∷ []) cs rest missing
        ∙ ap (λ t. strip_cr t ∷ lines rest) (append_assoc start (c ∷ []) cs))
]

-- The lines of a text made of lines are those lines, less a carriage return at their ends.
pub lines-text_of : (ls : List Bytes) → AllLines ls → lines (text_of ls) ≡ map strip_cr ls
unfolding lines_from
lines-text_of [] h = refl
lines-text_of (l ∷ ls) ((full, inside), h) =
    lines_from-line [] l (text_of ls) inside ∙ ap (◌∷◌ (strip_cr l)) (lines-text_of ls h)

-- The lines of the beginning of a text are the first ones of the text; all where it is the whole.
pub lines_from-append :
    (start a b : Bytes)
    → (rest : List Bytes) × (lines_from start (a ++ b) ≡ lines_from start a ++ rest)
      × (b ≡ [] → rest ≡ [])
unfolding lines_from
lines_from-append start [] b = (lines_from start b, refl, λ e. rw e refl)
lines_from-append start (c ∷ cs) b = elim (Bool-cases (c == newline)) [
  | inl end ↦
      let (rest, e, whole) = lines_from-append [] cs b in
      (rest, rw end (ap (◌∷◌ (strip_cr start)) e), whole)
  | inr inside ↦
      let (rest, e, whole) = lines_from-append (start ++ c ∷ []) cs b in (rest, rw inside e, whole)
]

pub HasNoEmptyLine-append :
    (at_start : Bool) (a b : Bytes) → HasNoEmptyLine at_start (a ++ b) → HasNoEmptyLine at_start a
HasNoEmptyLine-append at_start [] b h = tt
HasNoEmptyLine-append at_start (c ∷ cs) b (first, h) =
    (first, HasNoEmptyLine-append (c == newline) cs b h)

line-HasNoEmptyLine :
    (l rest : Bytes)
    → find l ≡ none
    → HasNoEmptyLine true rest
    → HasNoEmptyLine false (end_line l ++ rest)
unfolding find
line-HasNoEmptyLine [] rest e h = (λ f. cc, h)
line-HasNoEmptyLine (c ∷ cs) rest e h = elim (Bool-cases (c == newline)) [
  | inl end ↦ ground arith
  | inr inside ↦
      let missing : find cs ≡ none = ground arith in
      (λ f. cc, rw inside (line-HasNoEmptyLine cs rest missing h))
]

-- A text made of lines has no empty line.
pub text_of-HasNoEmptyLine : (ls : List Bytes) → AllLines ls → HasNoEmptyLine true (text_of ls)
unfolding find
text_of-HasNoEmptyLine [] h = tt
text_of-HasNoEmptyLine ([] ∷ ls) ((full, inside), h) = absurd (full refl)
text_of-HasNoEmptyLine ((c ∷ cs) ∷ ls) ((full, inside), h) = elim (Bool-cases (c == newline)) [
  | inl end ↦ ground arith
  | inr going ↦
      let missing : find cs ≡ none = ground arith in
      (
        λ _ e. absurd (ground (arith, ==_iff c newline)),
        rw going (line-HasNoEmptyLine cs (text_of ls) missing (text_of-HasNoEmptyLine ls h)),
      )
]
