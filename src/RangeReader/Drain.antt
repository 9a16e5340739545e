-- ===== src/RangeReader/Drain.antt =====
-- The loop of `Shutdown`, over a source and over a connection that hands over nothing.
use libsiot.Base.{
  ℕ, zero, suc, ◌+◌, ◌-◌, ◌%◌, ◌≤◌, ◌<◌, ◌≡◌, refl, ◌∙◌, false, Bytes, [], ◌∷◌, ◌++◌, Result,
  modify, ◌>>◌, ◌>>=◌, ok, throws, undefined, running, length, drop, drop-append, drop-nil,
  Bool-cases, inl, inr, ltb, ltb→lt, lt→ltb, u64_mod, arith,
}
use libsiot.Connection.{Connection}
use libsiot.Connection.Contract.{HasProgress, IsSource, Receives}
use libsiot.Decorator.{forward-cases}
use libsiot.RangeReader.{RangeReader, drain, advance}
use libsiot.RangeReader.Source.{InRange, more-Receives}

-- The outcome of the loop that began at `r`: it has come back, and unless it threw, the wrapped
-- connection stands just behind the range.
abbrev pub Skips :
    {S : Type 0} → (S → Bytes) → RangeReader S → Result (Unit {0}) × RangeReader S → Type 0
Skips pending r (ok _, r') =
    pending r'.wrapped ≡ drop (r.own.max_size - r.own.offset) (pending r.wrapped)
Skips pending r (throws _, r') = Unit
Skips pending r (undefined, r') = ⊥
Skips pending r (running, r') = ⊥

module _ {S : Type 0} (conn : Connection S) {Plain : ℕ → Type 0} {Inv : S → Type 0}
    {pending : S → Bytes} (source : IsSource conn Plain Inv pending) where
  Skips-advance :
      (r : RangeReader S) (d : Bytes) (s' : S) (o : Result (Unit {0}) × RangeReader S)
      → pending r.wrapped ≡ d ++ pending s'
      → length d ≤ r.own.max_size - r.own.offset
      → (r.own.offset + length d) % u64_mod ≡ r.own.offset + length d
      → Skips pending (advance d (record r { wrapped = s' })) o
      → Skips pending r o
  Skips-advance r d s' (ok _, r') e le small h =
      let apart : r.own.max_size - r.own.offset - length d
          ≡ r.own.max_size - (r.own.offset + length d) =
        omega arith in
      h ∙ rw (small, e, drop-append _ d (pending s') le, apart)
  Skips-advance r d s' (throws x, r') e le small h = tt
  Skips-advance r d s' (undefined, r') e le small h = h
  Skips-advance r d s' (running, r') e le small h = h

  module _ (progress : HasProgress conn Inv) where
    some_bytes :
        (n : ℕ) (s : S)
        → Inv s
        → conn.is_eof s ≡ false
        → 0 < n
        → (d : Bytes) (s' : S) → conn.receive n 0 s ≡ (ok d, s')
        → 0 < length d
    some_bytes n s v going pos [] s' e = absurd (progress n s s' v going pos e)
    some_bytes n s v going pos (b ∷ d) s' e = omega arith

    -- Over a source that, before its end, hands over at least one byte a call, and with the offset
    -- within the range: more rounds of the loop of `Shutdown` than there are bytes left in the
    -- range always suffice. The loop comes back, and unless a call threw, the wrapped connection's
    -- input then begins behind the range.
    pub drain-Skips :
        (fuel : ℕ) (r : RangeReader S)
        → InRange Inv r
        → r.own.max_size - r.own.offset < fuel
        → Skips pending r (drain conn fuel r)
    unfolding drain
    drain-Skips zero r v enough = absurd (omega arith)
    drain-Skips (suc fuel) r v enough = elim (Bool-cases (ltb r.own.offset r.own.max_size)) [
      | inr over ↦
          let none_left : r.own.max_size - r.own.offset ≡ 0 = ground arith in rw (over, none_left)
      | inl more ↦ elim (Bool-cases (conn.is_eof r.wrapped)) [
        | inl done ↦ rw (more, done, source.eof_drained r.wrapped v.inner done, drop-nil)
        | inr going ↦
            rw (more, going)
              (forward-cases (Skips pending r) (conn.receive left 0)
                (λ d. modify (advance d) >> drain conn fuel) r
                (eaten (drain-Skips fuel) (ltb→lt _ _ more) going) (λ x s' e. tt)
                (λ s' e. (rw e at (got (ltb→lt _ _ more))).returns)
                (λ s' e. (rw e at (got (ltb→lt _ _ more))).returns))
      ]
    ]
      where
        left : ℕ
        left = r.own.max_size - r.own.offset

        got :
            r.own.offset < r.own.max_size
            → Receives Inv pending left r.wrapped (conn.receive left 0 r.wrapped)
        got h =
            source.receives left 0 r.wrapped (let bound = v.fits in omega arith) source.plain_zero
              v.inner

        eaten :
            ((q : RangeReader S)
              → InRange Inv q
              → q.own.max_size - q.own.offset < fuel
              → Skips pending q (drain conn fuel q))
            → r.own.offset < r.own.max_size
            → conn.is_eof r.wrapped ≡ false
            → (d : Bytes) (s' : S) → conn.receive left 0 r.wrapped ≡ (ok d, s')
            → Skips pending r (drain conn fuel (advance d (record r { wrapped = s' })))
        eaten ih under going d s' e =
            let got' : Receives Inv pending left r.wrapped (ok d, s') = rw e at (got under) in
            let pos = some_bytes left r.wrapped v.inner going (omega arith) d s' e in
            let le = got'.within (omega arith) in
            let bound = v.fits in
            let small : (r.own.offset + length d) % u64_mod ≡ r.own.offset + length d =
              omega arith in
            let next = more-Receives r v left (omega arith) (omega arith) d s' got' in
            Skips-advance r d s' _ got'.consumes le small
              (ih (advance d (record r { wrapped = s' })) next.keeps (rw small (omega arith)))

-- The loop of `Shutdown` never ends over a connection that goes on handing over nothing without
-- reporting its end, as long as the range has not been read: no number of rounds is enough.
pub drain_stalls :
    {S : Type 0} (conn : Connection S) (Silent : S → Type 0)
    → ((n : ℕ) (s : S)
        → Silent s
        → (conn.is_eof s ≡ false)
          × ((conn.receive n 0 s).0 ≡ ok [])
          × Silent (conn.receive n 0 s).1)
    → (fuel : ℕ) (r : RangeReader S) → Silent r.wrapped
    → r.own.offset < r.own.max_size
    → r.own.max_size < u64_mod
    → (drain conn fuel r).0 ≡ running
unfolding drain
drain_stalls conn Silent stays zero r h under fits = refl
drain_stalls {S} conn Silent stays (suc fuel) r h under fits =
    let (open_end, empty, h') = stays (r.own.max_size - r.own.offset) r.wrapped h in
    let small : (r.own.offset + 0) % u64_mod ≡ r.own.offset = omega arith in
    rw (lt→ltb _ _ under, open_end)
      (rw (empty, ◌>>=◌) (drain_stalls conn Silent stays fuel _ h' (rw small under) fits))
