-- ===== src/LineBuffer/Complete.antt =====
-- Over a connection that does not throw, as many calls of `Receive` as there are lines get them
-- all.
use mathlib.Core.List.{map}
use libsiot.Base.{
  lt→ltb, ℕ, zero, suc, ◌-◌, ◌≤◌, ◌<◌, ◌≡◌, ◌≢◌, refl, sym, ap, ◌∙◌, Bool, true, not, ◌&&◌, Bytes,
  List, [], ◌∷◌, ◌++◌, Result, ok, throws, undefined, running, ClientConnectionException, modify,
  skip, ◌>>◌, if◌then◌else◌, ltb, length, Bool-cases, Option-cases, inl, inr, is_none, u64_mod,
  arith,
}
use libsiot.Connection.{Connection}
use libsiot.Connection.Contract.{NeverThrows, IsSource, HasProgress, Returns}
use libsiot.Decorator.{forward-cases}
use libsiot.LineBuffer.{
  LineBuffer, LineState, line_buffer, find, rfind, take_line, split, pop_line, on_lines, append,
  fetch, receive,
}
use libsiot.LineBuffer.Lines.{lines, HasNoEmptyLine}
use libsiot.LineBuffer.Delivery.{Ready, end_line, deliverable, told, receive-Delivers}
use libsiot.LineBuffer.Client.{receive_lines, finished}

length-map : {A B : Type 0} (f : A → B) (xs : List A) → length (map f xs) ≡ length xs
length-map f [] = refl
length-map f (x ∷ xs) = ap suc (length-map f xs)

split_quiet :
    (fuel : ℕ) (l : LineState) (x : ClientConnectionException) → (split fuel l).0 ≢ throws x
unfolding split
split_quiet zero l x = λ e. cc
split_quiet (suc fuel) l x = elim (Option-cases (find l.remainder)) [
  | inl missing ↦ rw (missing, split) (λ e. cc)
  | inr (i, here) ↦ elim (Option-cases (take_line l.remainder i)) [
    | inl out ↦ rw (here, out, split) (λ e. cc)
    | inr (line, taken) ↦ rw (here, taken, split) (split_quiet fuel _ x)
  ]
]

pop_line_quiet :
    (remainder : Bytes) (ls : List Bytes) (x : ClientConnectionException)
    → (pop_line (record { remainder = remainder; remaining_lines = ls })).0 ≢ throws x
unfolding pop_line
pop_line_quiet remainder [] x e = cc
pop_line_quiet remainder (line ∷ rest) x e = cc

length-zero : (xs : List Bytes) → length xs ≤ 0 → xs ≡ []
length-zero [] h = refl
length-zero (x ∷ xs) h = absurd (omega arith)

-- Fewer lines are left after a call, unless none was.
fewer :
    (k : ℕ) (o : Result Bytes) (before after : List Bytes)
    → ((x : ClientConnectionException) → o ≢ throws x)
    → Returns o
    → (o ≡ ok [] → before ≡ [])
    → before ≡ told o ++ after
    → length before ≤ suc k
    → length after ≤ k
fewer k (ok []) before after quiet back all e h =
    let gone = all refl in omega (arith, ap length e, ap length gone)
fewer k (ok (c ∷ cs)) before after quiet back all e h = omega (arith, ap length e)
fewer k (throws x) before after quiet back all e h = absurd (quiet x refl)
fewer k undefined before after quiet back all e h = absurd back
fewer k running before after quiet back all e h = absurd back

module _ {S : Type 0} (conn : Connection S) {Plain : ℕ → Type 0} {Inv : S → Type 0}
    {pending : S → Bytes} (source : IsSource conn Plain Inv pending)
    (progress : HasProgress conn Inv) (quiet : NeverThrows conn Inv) (fuel : ℕ) where
  fetch_quiet :
      (n : ℕ) (r : LineBuffer S) (x : ClientConnectionException)
      → Inv r.wrapped
      → (fetch conn n r).0 ≢ throws x
  unfolding fetch
  fetch_quiet zero r x v = λ e. cc
  fetch_quiet (suc n) r x v =
      elim (Bool-cases (is_none (rfind r.own.remainder) && not (conn.is_eof r.wrapped))) [
        | inr stop ↦ rw stop (λ e. cc)
        | inl go_on ↦ rw go_on (
            forward-cases (λ o. o.0 ≢ throws x) (conn.receive (u64_mod - 1) 0)
              (λ d. if ltb 0 (length d) then modify (append d) >> fetch conn n else skip) r
              (λ d s' e.
                more (λ q. fetch_quiet n q x) d s'
                  (rw e at (
                    source.receives (u64_mod - 1) 0 r.wrapped (omega arith) source.plain_zero
                      v)).keeps)
              (λ y s' e. absurd (quiet (u64_mod - 1) r.wrapped y v (ap (λ o. o.0) e)))
              (λ s' e h. cc) (λ s' e h. cc))
      ]
    where
      more :
          ((q : LineBuffer S) → Inv q.wrapped → (fetch conn n q).0 ≢ throws x)
          → (d : Bytes) (s' : S) → Inv s'
          → ((if ltb 0 (length d) then modify (append d) >> fetch conn n else skip)
              (record r { wrapped = s' })).0
            ≢ throws x
      more ih [] s' v' = λ e. cc
      more ih (c ∷ cs) s' v' =
          rw (lt→ltb 0 (length (c ∷ cs)) (omega arith))
            (ih (append (c ∷ cs) (record r { wrapped = s' })) v')

  after_split_quiet :
      (r : LineBuffer S) (x : ClientConnectionException) (o : Result (Unit {0}) × LineState)
      → o.0 ≢ throws x
      → ((on_lines (λ _. o) >> on_lines pop_line) r).0 ≢ throws x
  after_split_quiet r x (ok _, l) h = pop_line_quiet l.remainder l.remaining_lines x
  after_split_quiet r x (throws y, l) h = λ e. h (cc)
  after_split_quiet r x (undefined, l) h = λ e. cc
  after_split_quiet r x (running, l) h = λ e. cc

  after_fetch_quiet :
      (r : LineBuffer S) (x : ClientConnectionException) (o : Result (Unit {0}) × LineBuffer S)
      → o.0 ≢ throws x
      → (((λ _. o) >> (on_lines (λ l. split (suc (length l.remainder)) l) >> on_lines pop_line))
          r).0
        ≢ throws x
  after_fetch_quiet r x (ok _, q) h =
      after_split_quiet q x (split (suc (length q.own.remainder)) q.own) (split_quiet _ q.own x)
  after_fetch_quiet r x (throws y, q) h = λ e. h (cc)
  after_fetch_quiet r x (undefined, q) h = λ e. cc
  after_fetch_quiet r x (running, q) h = λ e. cc

  receive_quiet :
      (r : LineBuffer S) (remainder : Bytes) (ls : List Bytes) (x : ClientConnectionException)
      → Inv r.wrapped
      → (receive conn fuel 0 0
          (record r { own = record { remainder = remainder; remaining_lines = ls } })).0
        ≢ throws x
  unfolding receive
  receive_quiet r remainder [] x v =
      let q : LineBuffer S = record r {
        own = record { remainder = remainder; remaining_lines = [] };
      } in
      after_fetch_quiet q x (fetch conn fuel q) (fetch_quiet fuel q x v)
  receive_quiet r remainder (line ∷ rest) x v = pop_line_quiet remainder (line ∷ rest) x

  complete :
      (k : ℕ) (r : LineBuffer S)
      → Ready Inv pending fuel r
      → length (deliverable pending r) ≤ k
      → (receive_lines conn fuel k r).0 ≡ deliverable pending r
  unfolding receive_lines
  complete zero r v h = sym (length-zero (deliverable pending r) h)
  complete (suc k) r v h =
      let one = receive-Delivers conn fuel source progress 0 0 r v in
      let o = (receive conn fuel 0 0 r).0 in
      let r' = (receive conn fuel 0 0 r).1 in
      let left =
        fewer k o (deliverable pending r) (deliverable pending r')
          (λ x. receive_quiet r r.own.remainder r.own.remaining_lines x v.inner) one.returns
          (finished conn source progress fuel r v) one.tells h in
      ap (λ ls. told o ++ ls) (complete k r' one.ready left) ∙ sym one.tells

  -- Over a source that never throws and, before its end, hands over at least one byte a call: a
  -- client of a new decorator that calls `Receive` at least as often as the input has complete
  -- lines gets exactly these lines, in order, each with `\n` for its `\n` or `\r\n`, however the
  -- input arrives, if the input has no empty line and is shorter than 2 ^ 64 and than the fuel.
  pub receive_lines_complete :
      (self k : ℕ) (s : S) (own : Bool)
      → Inv s
      → HasNoEmptyLine true (pending s)
      → length (pending s) < u64_mod
      → length (pending s) < fuel
      → length (lines (pending s)) ≤ k
      → (receive_lines conn fuel k (line_buffer self s own)).0 ≡ map end_line (lines (pending s))
  receive_lines_complete self k s own v full fits enough often =
      complete k (line_buffer self s own)
        (record { inner = v; full = full; fits = fits; enough = enough })
        (omega (arith, length-map end_line (lines (pending s))))
