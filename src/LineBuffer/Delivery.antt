-- ===== src/LineBuffer/Delivery.antt =====
-- `Receive` delivers the lines of the input, however the wrapped connection cuts it up.
use mathlib.Core.Bool.{true≢false}
use mathlib.Core.List.{map}
use libsiot.Base.{
  ℕ, suc, ◌<◌, ◌≡◌, ◌≢◌, ◌⊎◌, refl, sym, ap, ◌∙◌, true, false, none, Bytes, List, [], ◌∷◌, ◌++◌,
  Result, ok, throws, undefined, running, length, length-append, inl, inr, u64_mod, arith, is_none,
  ◌>>◌,
}
use libsiot.Connection.{Connection}
use libsiot.Connection.Contract.{IsSource, Returns}
use libsiot.LineBuffer.{
  LineBuffer, LineState, newline, find, rfind, split, fetch, receive, pop_line, on_lines,
}
use libsiot.LineBuffer.Lines.{lines, HasNoEmptyLine, find-rfind}
use libsiot.LineBuffer.Split.{unread_lines, Splits, split-Splits}
use libsiot.LineBuffer.Fetch.{unread, MayPause, Fetches, fetch-Fetches}

-- A line as `Receive` hands it over.
abbrev pub end_line : Bytes → Bytes
end_line line = line ++ newline ∷ []

-- What a client of the decorator is still to get.
abbrev pub deliverable : {S : Type 0} → (S → Bytes) → LineBuffer S → List Bytes
deliverable pending r = map end_line (unread_lines (pending r.wrapped) r.own)

-- The line that a call hands over; none for the empty string.
abbrev pub told : Result Bytes → List Bytes
told (ok []) = []
told (ok (c ∷ cs)) = (c ∷ cs) ∷ []
told (throws x) = []
told undefined = []
told running = []

-- The text to come has no empty line, fits a string, and is shorter than the fuel.
pub record Ready {S : Type 0} (Inv : S → Type 0) (pending : S → Bytes) (fuel : ℕ) (r : LineBuffer S)
    : Type 0 where
  pub inner : Inv r.wrapped
  pub full : HasNoEmptyLine true (unread pending r)
  pub fits : length (unread pending r) < u64_mod
  pub enough : length (unread pending r) < fuel

-- One call of `Receive`: it comes back, hands over the next line that is to come, or none, and
-- loses nothing. It hands over the empty string only if no complete line has been read and the end
-- is reported or the wrapped connection has paused.
pub record Delivers {S : Type 0} (conn : Connection S) (Inv : S → Type 0) (pending : S → Bytes)
    (Pause : Type 0) (fuel : ℕ) (r : LineBuffer S) (o : Result Bytes × LineBuffer S) : Type 0 where
  pub ready : Ready Inv pending fuel o.1
  pub returns : Returns o.0
  pub tells : deliverable pending r ≡ told o.0 ++ deliverable pending o.1
  pub nothing :
      o.0 ≡ ok []
      → (o.1.own.remaining_lines ≡ [])
        × (find o.1.own.remainder ≡ none)
        × ((conn.is_eof o.1.wrapped ≡ true) ⊎ Pause)

told-end_line : (line : Bytes) → told (ok (end_line line)) ≡ end_line line ∷ []
told-end_line [] = refl
told-end_line (c ∷ cs) = refl

end_line-ne-nil : (line : Bytes) → end_line line ≢ []
end_line-ne-nil [] e = cc
end_line-ne-nil (c ∷ cs) e = cc

abbrev lines_state : {S : Type 0} → LineBuffer S → S → Bytes → List Bytes → LineBuffer S
lines_state r w remainder ls = record r {
  wrapped = w;
  own = record { remainder = remainder; remaining_lines = ls };
}

module _ {S : Type 0} (pending : S → Bytes) where
  deliverable-same :
      (r q : LineBuffer S)
      → unread pending r ≡ unread pending q
      → q.own.remaining_lines ≡ r.own.remaining_lines
      → deliverable pending r ≡ deliverable pending q
  deliverable-same r q same ls =
      ap (λ t. map end_line (r.own.remaining_lines ++ lines t)) same
      ∙ ap (λ l. map end_line (l ++ lines (unread pending q))) (sym ls)

  Ready-same :
      {Inv : S → Type 0} (fuel : ℕ) (r q : LineBuffer S)
      → unread pending r ≡ unread pending q
      → Inv q.wrapped
      → Ready Inv pending fuel r
      → Ready Inv pending fuel q
  Ready-same fuel r q same inner v = record {
    inner = inner;
    full = rw same at v.full;
    fits = rw same at v.fits;
    enough = rw same at v.enough;
  }

module _ {S : Type 0} (conn : Connection S) {Inv : S → Type 0} {pending : S → Bytes}
    {Pause : Type 0} (fuel : ℕ) where
  -- Handing over the front line of a list that is not empty.
  pop-Delivers :
      (r : LineBuffer S) (w : S) (remainder line : Bytes) (rest : List Bytes)
      → Ready Inv pending fuel (lines_state r w remainder (line ∷ rest))
      → Delivers conn Inv pending Pause fuel
          (lines_state r w remainder (line ∷ rest))
          (ok (end_line line), lines_state r w remainder rest)
  pop-Delivers r w remainder line rest v = record {
    ready = record { inner = v.inner; full = v.full; fits = v.fits; enough = v.enough };
    returns = tt;
    tells = rw (told-end_line line) refl;
    nothing = λ h. absurd (end_line-ne-nil line (cc));
  }

  -- Behind the loops: the front line, or nothing.
  popped :
      (r : LineBuffer S) (w : S) (remainder : Bytes) (ls : List Bytes)
      → Ready Inv pending fuel (lines_state r w remainder ls)
      → find remainder ≡ none
      → (ls ≡ [] → (conn.is_eof w ≡ true) ⊎ Pause)
      → Delivers conn Inv pending Pause fuel
          (lines_state r w remainder ls)
          (on_lines pop_line (lines_state r w remainder ls))
  unfolding pop_line
  popped r w remainder [] v missing why = record {
    ready = v;
    returns = tt;
    tells = refl;
    nothing = λ _. (refl, missing, why refl);
  }
  popped r w remainder (line ∷ rest) v missing why = pop-Delivers r w remainder line rest v

  -- What a step that keeps the lines to come leaves to a later one.
  Delivers-trans :
      (r q : LineBuffer S) (o : Result Bytes × LineBuffer S)
      → deliverable pending r ≡ deliverable pending q
      → Delivers conn Inv pending Pause fuel q o
      → Delivers conn Inv pending Pause fuel r o
  Delivers-trans r q o e d = record {
    ready = d.ready;
    returns = d.returns;
    tells = e ∙ d.tells;
    nothing = d.nothing;
  }

  after_split :
      (r : LineBuffer S)
      → Ready Inv pending fuel r
      → ((is_none (rfind r.own.remainder) ≡ false) ⊎ (conn.is_eof r.wrapped ≡ true) ⊎ Pause)
      → (o : Result (Unit {0}) × LineState) → Splits (pending r.wrapped) r.own o
      → Delivers conn Inv pending Pause fuel r ((on_lines (λ _. o) >> on_lines pop_line) r)
  after_split r v why (ok _, l) (same, missing, full, shorter, kept, _) =
      Delivers-trans r (record r { own = l }) _ (ap (map end_line) same)
        (popped r r.wrapped l.remainder l.remaining_lines ready missing (reason why))
    where
      ready : Ready Inv pending fuel (record r { own = l })
      ready =
          let before = length-append r.own.remainder (pending r.wrapped) in
          let now = length-append l.remainder (pending r.wrapped) in
          let fits = v.fits in
          let enough = v.enough in
          record { inner = v.inner; full = full; fits = omega arith; enough = omega arith }

      reason :
          ((is_none (rfind r.own.remainder) ≡ false) ⊎ (conn.is_eof r.wrapped ≡ true) ⊎ Pause)
          → l.remaining_lines ≡ []
          → (conn.is_eof r.wrapped ≡ true) ⊎ Pause
      reason (inl found) e =
          let none_there : rfind r.own.remainder ≡ none =
            find-rfind r.own.remainder (ap find (sym (kept e)) ∙ missing) in
          let found' : is_none {A = ℕ} none ≡ false = rw none_there at found in
          absurd (true≢false found')
      reason (inr h) e = h
  after_split r v why (throws x, l) h = absurd h
  after_split r v why (undefined, l) h = absurd h
  after_split r v why (running, l) h = absurd h

  after_fetch :
      (r : LineBuffer S)
      → Ready Inv pending fuel r
      → (o : Result (Unit {0}) × LineBuffer S) → Fetches conn Inv pending Pause r o
      → Delivers conn Inv pending Pause fuel r (
          ((λ _. o) >> (on_lines (λ l. split (suc (length l.remainder)) l) >> on_lines pop_line)) r)
  after_fetch r v (ok _, q) (inner, same, ls, why) =
      let v' = Ready-same pending fuel r q same inner v in
      let fits = v'.fits in
      Delivers-trans r q _ (deliverable-same pending r q same ls) (
        after_split q v' why (split (suc (length q.own.remainder)) q.own) (
          split-Splits (suc (length q.own.remainder)) (pending q.wrapped) q.own (omega arith)
            (omega (arith, length-append q.own.remainder (pending q.wrapped))) v'.full))
  after_fetch r v (throws x, q) (inner, same, ls) = record {
    ready = Ready-same pending fuel r q same inner v;
    returns = tt;
    tells = deliverable-same pending r q same ls;
    nothing = λ e. absurd (cc);
  }
  after_fetch r v (undefined, q) h = absurd h
  after_fetch r v (running, q) h = absurd h

  module _ {Plain : ℕ → Type 0} (source : IsSource conn Plain Inv pending)
      (pause : MayPause conn Inv Pause) where
    receive_state :
        (n flags : ℕ) (r : LineBuffer S) (remainder : Bytes) (ls : List Bytes)
        → Ready Inv pending fuel (lines_state r r.wrapped remainder ls)
        → Delivers conn Inv pending Pause fuel
            (lines_state r r.wrapped remainder ls)
            (receive conn fuel n flags (lines_state r r.wrapped remainder ls))
    unfolding receive pop_line
    receive_state n flags r remainder [] v =
        let q : LineBuffer S = lines_state r r.wrapped remainder [] in
        let shorter = v.enough in
        after_fetch q v (fetch conn fuel q) (
          fetch-Fetches conn source pause fuel q v.inner
            (omega (arith, length-append remainder (pending r.wrapped))))
    receive_state n flags r remainder (line ∷ rest) v =
        pop-Delivers r r.wrapped remainder line rest v

    -- Over a source, where the text to come has no empty line and is shorter than 2 ^ 64 and than
    -- the fuel: every call of `Receive` comes back, by a value or an exception, and hands over the
    -- next line with `\n` for its end, or nothing; the lines to come after it are the rest of those
    -- before it, also when it throws. It hands over the empty string only if no complete line has
    -- been read, and the end is reported or the wrapped connection has paused.
    pub receive-Delivers :
        (n flags : ℕ) (r : LineBuffer S)
        → Ready Inv pending fuel r
        → Delivers conn Inv pending Pause fuel r (receive conn fuel n flags r)
    receive-Delivers n flags r v = receive_state n flags r r.own.remainder r.own.remaining_lines v
