-- ===== src/LineBuffer/Lines.antt =====
-- The specification: the lines of a text, by one pass over its bytes.
use libsiot.Base.{
  ℕ, zero, suc, ◌+◌, ◌-◌, ◌%◌, ◌<◌, ◌≡◌, ◌≢◌, refl, sym, ap, ◌∙◌, Bool, true, false, none, some,
  Bytes, List, [], ◌∷◌, ◌++◌, length, take, drop, get_elem?, append_assoc, append-nil, Bool-cases,
  Option-cases, inl, inr, ◌==◌, ==_iff, if◌then◌else◌, u64_mod, arith,
}
use libsiot.LineBuffer.{newline, carriage_return, find, rfind, take_line}

-- A line without a carriage return at its end.
unfoldable pub strip_cr : Bytes → Bytes
strip_cr [] = []
strip_cr (c ∷ []) = if c == carriage_return then [] else c ∷ []
strip_cr (c ∷ d ∷ cs) = c ∷ strip_cr (d ∷ cs)

-- The complete lines of a text that goes on from `start`.
unfoldable pub lines_from : Bytes → Bytes → List Bytes
lines_from start [] = []
lines_from start (c ∷ cs) =
    if c == newline then strip_cr start ∷ lines_from [] cs else lines_from (start ++ c ∷ []) cs

abbrev pub lines : Bytes → List Bytes
lines = lines_from []

-- No line is empty; `at_start` says whether the text begins a line.
abbrev pub HasNoEmptyLine : Bool → Bytes → Type 0
HasNoEmptyLine at_start [] = Unit
HasNoEmptyLine at_start (c ∷ cs) =
    (at_start ≡ true → c ≢ newline) × HasNoEmptyLine (c == newline) cs

-- The first newline ends the first line.
pub lines-find :
    (text : Bytes) (start rest : Bytes) (i : ℕ)
    → find text ≡ some i
    → lines_from start (text ++ rest)
      ≡ strip_cr (start ++ take i text) ∷ lines (drop (suc i) text ++ rest)
unfolding find lines_from
lines-find [] start rest i e = cc
lines-find (c ∷ cs) start rest i e = elim (Bool-cases (c == newline)) [
  | inl end ↦
      let z : i ≡ 0 = ground arith in
      rw (end, z) (ap (λ s. strip_cr s ∷ lines (cs ++ rest)) (sym (append-nil start)))
  | inr inside ↦ elim (Option-cases (find cs)) [
    | inl missing ↦ ground arith
    | inr (j, here) ↦
        let z : i ≡ suc j = ground arith in
        rw (inside, z)
          (lines-find cs (start ++ c ∷ []) rest j here
            ∙ ap (λ s. strip_cr s ∷ lines (drop (suc j) cs ++ rest))
                (append_assoc start (c ∷ []) (take j cs)))
  ]
]

-- Without a newline there is no complete line.
pub lines-find-none : (text start : Bytes) → find text ≡ none → lines_from start text ≡ []
unfolding find lines_from
lines-find-none [] start e = refl
lines-find-none (c ∷ cs) start e = ground (arith, lines-find-none cs (start ++ c ∷ []))

pub rfind-find : (text : Bytes) → rfind text ≡ none → find text ≡ none
unfolding find rfind
rfind-find [] e = refl
rfind-find (c ∷ cs) e = ground (arith, rfind-find cs)

pub find-rfind : (text : Bytes) → find text ≡ none → rfind text ≡ none
unfolding find rfind
find-rfind [] e = refl
find-rfind (c ∷ cs) e = ground (arith, find-rfind cs)

pub find-lt-length : (text : Bytes) (i : ℕ) → find text ≡ some i → i < length text
unfolding find
find-lt-length [] i e = cc
find-lt-length (c ∷ cs) i e = elim (Option-cases (find cs)) [
  | inl missing ↦ ground arith
  | inr (j, here) ↦ ground (arith, find-lt-length cs j here)
]

-- Text without empty lines does not begin with a newline, and goes on without empty lines.
pub find-HasNoEmptyLine :
    (b : Bool) (text rest : Bytes) (i : ℕ)
    → find text ≡ some i
    → HasNoEmptyLine b (text ++ rest)
    → (b ≡ true → 0 < i) × HasNoEmptyLine true (drop (suc i) text ++ rest)
unfolding find
find-HasNoEmptyLine b [] rest i e h = cc
find-HasNoEmptyLine b (c ∷ cs) rest i e h = elim (Bool-cases (c == newline)) [
  | inl end ↦
      let z : i ≡ 0 = ground arith in
      rw z ((λ t. absurd (h.0 t ((==_iff _ _).0 end))), rw end at h.1)
  | inr inside ↦ elim (Option-cases (find cs)) [
    | inl missing ↦ ground arith
    | inr (j, here) ↦
        let z : i ≡ suc j = ground arith in
        rw z ((λ t. omega arith), (find-HasNoEmptyLine false cs rest j here (rw inside at h.1)).1)
  ]
]

cons-if :
    (b : Bool) (c : ℕ) (xs ys : Bytes) → c ∷ (if b then xs else ys) ≡ (if b then c ∷ xs else c ∷ ys)
cons-if true c xs ys = refl
cons-if false c xs ys = refl

strip_cr-take :
    (text : Bytes) (j : ℕ)
    → j < length text
    → (c : ℕ) × (get_elem? text j ≡ some c)
      × (strip_cr (take (suc j) text)
          ≡ (if c == carriage_return then take j text else take (suc j) text))
unfolding strip_cr
strip_cr-take [] j h = absurd (omega arith)
strip_cr-take (c ∷ cs) zero h = (c, refl, refl)
strip_cr-take (c ∷ []) (suc j) h = absurd (omega arith)
strip_cr-take (c ∷ d ∷ cs) (suc j) h =
    let (x, e, e') = strip_cr-take (d ∷ cs) j (omega arith) in
    (x, e, ap (◌∷◌ c) e' ∙ cons-if (x == carriage_return) c _ _)

-- At a newline that ends no empty line, the line is what the specification says.
pub take_line_lem :
    (text : Bytes) (i : ℕ)
    → find text ≡ some i
    → 0 < i
    → length text < u64_mod
    → take_line text i ≡ some (strip_cr (take i text))
unfolding take_line
take_line_lem text zero e pos fits = absurd (omega arith)
take_line_lem text (suc j) e pos fits =
    let within = find-lt-length text (suc j) e in
    let (c, here, stripped) = strip_cr-take text j (omega arith) in
    let index : (suc j + u64_mod - 1) % u64_mod ≡ j = omega arith in
    let less : suc j - 1 ≡ j = omega arith in
    rw (stripped, index, take_line) (rw (here, take_line) (rw less))
