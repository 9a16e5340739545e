-- ===== src/LineBuffer/Fetch.antt =====
-- The first loop of `Receive`, over a source.
use libsiot.Base.{
  ℕ, zero, suc, ◌-◌, ◌<◌, ◌≡◌, ◌⊎◌, refl, sym, ap, ◌∙◌, true, false, Bytes, [], ◌∷◌, ◌++◌, Result,
  ok, throws, undefined, running, length, length-append, append_assoc, Bool-cases, inl, inr,
  u64_mod, arith, modify, skip, ◌>>◌, ltb, lt→ltb, is_none, if◌then◌else◌,
}
use libsiot.Connection.{Connection}
use libsiot.Connection.Contract.{IsSource, Receives}
use libsiot.Decorator.{forward-cases}
use libsiot.LineBuffer.{LineBuffer, rfind, append, fetch}

-- The text that is still to be split: the remainder, then what the wrapped connection holds.
abbrev pub unread : {S : Type 0} → (S → Bytes) → LineBuffer S → Bytes
unread pending r = r.own.remainder ++ pending r.wrapped

-- What a connection that hands over nothing before its end would show.
abbrev pub MayPause : {S : Type 0} → Connection S → (S → Type 0) → Type 0 → Type 0
MayPause {S} conn Inv Pause =
    (n : ℕ) (s s' : S)
    → Inv s
    → conn.is_eof s ≡ false
    → 0 < n
    → conn.receive n 0 s ≡ (ok [], s')
    → Pause

-- The outcome of the loop: it has come back, no byte is lost, and unless it threw there is a
-- newline, or the end is reported, or the connection has paused.
abbrev pub Fetches :
    {S : Type 0}
    → Connection S
    → (S → Type 0)
    → (S → Bytes)
    → Type 0
    → LineBuffer S
    → Result (Unit {0}) × LineBuffer S
    → Type 0
Fetches conn Inv pending Pause r (ok _, r') =
    Inv r'.wrapped
    × (unread pending r ≡ unread pending r')
    × (r'.own.remaining_lines ≡ r.own.remaining_lines)
    × ((is_none (rfind r'.own.remainder) ≡ false) ⊎ (conn.is_eof r'.wrapped ≡ true) ⊎ Pause)
Fetches conn Inv pending Pause r (throws x, r') =
    Inv r'.wrapped
    × (unread pending r ≡ unread pending r')
    × (r'.own.remaining_lines ≡ r.own.remaining_lines)
Fetches conn Inv pending Pause r (undefined, r') = ⊥
Fetches conn Inv pending Pause r (running, r') = ⊥

module _ {S : Type 0} (conn : Connection S) {Plain : ℕ → Type 0} {Inv : S → Type 0}
    {pending : S → Bytes} (source : IsSource conn Plain Inv pending) {Pause : Type 0}
    (pause : MayPause conn Inv Pause) where
  shifted :
      (r : LineBuffer S) (d : Bytes) (s' : S)
      → pending r.wrapped ≡ d ++ pending s'
      → unread pending r ≡ unread pending (append d (record r { wrapped = s' }))
  shifted r d s' e = ap (◌++◌ r.own.remainder) e ∙ sym (append_assoc r.own.remainder d (pending s'))

  Fetches-append :
      (r : LineBuffer S) (d : Bytes) (s' : S) (o : Result (Unit {0}) × LineBuffer S)
      → pending r.wrapped ≡ d ++ pending s'
      → Fetches conn Inv pending Pause (append d (record r { wrapped = s' })) o
      → Fetches conn Inv pending Pause r o
  Fetches-append r d s' (ok _, r') e (v, moved, same, why) =
      (v, shifted r d s' e ∙ moved, same, why)
  Fetches-append r d s' (throws x, r') e (v, moved, same) = (v, shifted r d s' e ∙ moved, same)
  Fetches-append r d s' (undefined, r') e h = h
  Fetches-append r d s' (running, r') e h = h

  -- The first loop of `Receive` comes back within as many rounds as the wrapped connection has
  -- bytes to hand over, and one more.
  pub fetch-Fetches :
      (fuel : ℕ) (r : LineBuffer S)
      → Inv r.wrapped
      → length (pending r.wrapped) < fuel
      → Fetches conn Inv pending Pause r (fetch conn fuel r)
  unfolding fetch
  fetch-Fetches zero r v enough = absurd (omega arith)
  fetch-Fetches (suc fuel) r v enough = elim (Bool-cases (is_none (rfind r.own.remainder))) [
    | inr found ↦ rw found (v, refl, refl, inl found)
    | inl missing ↦ elim (Bool-cases (conn.is_eof r.wrapped)) [
      | inl done ↦ rw (missing, done) (v, refl, refl, inr (inl done))
      | inr going ↦
          rw (missing, going)
            (forward-cases (Fetches conn Inv pending Pause r) (conn.receive (u64_mod - 1) 0)
              (λ d. if ltb 0 (length d) then modify (append d) >> fetch conn fuel else skip) r
              (eaten (fetch-Fetches fuel) going)
              (λ x s' e.
                let got = rw e at got_one in
                (got.keeps, ap (◌++◌ r.own.remainder) got.consumes, refl))
              (λ s' e. (rw e at got_one).returns) (λ s' e. (rw e at got_one).returns))
    ]
  ]
    where
      got_one :
          Receives Inv pending (u64_mod - 1) r.wrapped (conn.receive (u64_mod - 1) 0 r.wrapped)
      got_one = source.receives (u64_mod - 1) 0 r.wrapped (omega arith) source.plain_zero v

      eaten :
          ((q : LineBuffer S)
            → Inv q.wrapped
            → length (pending q.wrapped) < fuel
            → Fetches conn Inv pending Pause q (fetch conn fuel q))
          → conn.is_eof r.wrapped ≡ false
          → (d : Bytes) (s' : S) → conn.receive (u64_mod - 1) 0 r.wrapped ≡ (ok d, s')
          → Fetches conn Inv pending Pause r (
              (if ltb 0 (length d) then modify (append d) >> fetch conn fuel else skip)
                (record r { wrapped = s' }))
      eaten ih going [] s' e =
          let got = rw e at got_one in
          (
            got.keeps,
            ap (◌++◌ r.own.remainder) got.consumes,
            refl,
            inr (inr (pause (u64_mod - 1) r.wrapped s' v going (omega arith) e)),
          )
      eaten ih going (b ∷ d) s' e =
          let got = rw e at got_one in
          let shorter = length-append (b ∷ d) (pending s') in
          let total = ap length got.consumes in
          rw (lt→ltb 0 (length (b ∷ d)) (omega arith)) (
            Fetches-append r (b ∷ d) s' _ got.consumes
              (ih (append (b ∷ d) (record r { wrapped = s' })) got.keeps (omega arith)))
