-- ===== src/RangeReader/Source.antt =====
-- A range reader is itself a source: the first `max_size` bytes of what it wraps.
use libsiot.Base.{
  ℕ, ◌+◌, ◌-◌, ◌%◌, ◌≤◌, ◌<◌, ◌≡◌, refl, ap, ◌∙◌, true, Bytes, [], ◌++◌, Result,
  ClientConnectionException, ok, throws, undefined, running, length, take, length-take, List,
  length-append, take-append, take-nil, Bool-cases, inl, inr, leb, leb→le, u64_mod, arith,
}
use libsiot.Connection.{Connection, Runtime}
use libsiot.Connection.Contract.{
  IsSource, Receives, Receives-limit, AllPlain, read_all, read_all_lem,
}
use libsiot.RangeReader.{
  Range, RangeReader, clip, receive, receive_part, is_eof, connection, set_offset, advance,
}

-- What `clip` asks for is not 0, fits the range, and fits a limit that the caller gave.
pub clip_bounds :
    (len : ℕ) (r : Range)
    → r.offset < r.max_size
    → (0 < clip len r) × (clip len r ≤ r.max_size - r.offset) × (0 < len → clip len r ≤ len)
unfolding clip
clip_bounds len r h = ground arith

-- The offset has not passed the end, and the end is a `uint64_t`.
pub record InRange {S : Type 0} (Inv : S → Type 0) (r : RangeReader S) : Type 0 where
  pub inner : Inv r.wrapped
  pub before_end : r.own.offset ≤ r.own.max_size
  pub fits : r.own.max_size < u64_mod

abbrev pub range_pending : {S : Type 0} → (S → Bytes) → RangeReader S → Bytes
range_pending pending r = take (r.own.max_size - r.own.offset) (pending r.wrapped)

-- Cutting behind a part that fits.
take_past :
    (n : ℕ) (d rest : Bytes) {p : Bytes}
    → p ≡ d ++ rest
    → length d ≤ n
    → take n p ≡ d ++ take (n - length d) rest
take_past n d rest e h = rw e (take-append n d rest h)

module _ {S : Type 0} {Inv : S → Type 0} {pending : S → Bytes} (r : RangeReader S)
    (v : InRange Inv r) where
  -- What a call of the wrapped connection for `toread` bytes leaves, by how it ended.
  module _ (toread : ℕ) (le : toread ≤ r.own.max_size - r.own.offset) (pos : 0 < toread) where
    pub more-Receives :
        (d : Bytes) (s' : S)
        → Receives Inv pending toread r.wrapped (ok d, s')
        → Receives
            (InRange Inv)
            (range_pending pending)
            toread
            r
            (ok d, advance d (record r { wrapped = s' }))
    more-Receives d s' got = rw small record {
      keeps = record { inner = got.keeps; before_end = omega (arith, within); fits = v.fits };
      returns = tt;
      consumes = rw apart (take_past _ d (pending s') got.consumes (omega (arith, within)));
      within = got.within;
    }
      where
        within : length d ≤ toread
        within = got.within pos

        small : (r.own.offset + length d) % u64_mod ≡ r.own.offset + length d
        small = let bound = v.fits in let fit = v.before_end in omega (arith, within)

        apart :
            r.own.max_size - (r.own.offset + length d) ≡ r.own.max_size - r.own.offset - length d
        apart = omega arith

    last-Receives :
        (d : Bytes) (s' : S)
        → Receives Inv pending toread r.wrapped (ok d, s')
        → pending s' ≡ []
        → Receives
            (InRange Inv)
            (range_pending pending)
            toread
            r
            (ok d, set_offset r.own.max_size (record r { wrapped = s' }))
    last-Receives d s' got drained = record {
      keeps = record { inner = got.keeps; before_end = omega arith; fits = v.fits };
      returns = tt;
      consumes =
          take_past _ d (pending s') got.consumes (omega (arith, got.within pos))
          ∙ ap (◌++◌ d) (rw (drained, take-nil, take-nil));
      within = got.within;
    }

    thrown-Receives :
        (x : ClientConnectionException) (s' : S)
        → Receives Inv pending toread r.wrapped (throws x, s')
        → Receives
            (InRange Inv)
            (range_pending pending)
            toread
            r
            (throws x, record r { wrapped = s' })
    thrown-Receives x s' got = record {
      keeps = record { inner = got.keeps; before_end = v.before_end; fits = v.fits };
      returns = tt;
      consumes = ap (take _) got.consumes;
      within = got.within;
    }

module _ {S : Type 0} (conn : Connection S) {Plain : ℕ → Type 0} {Inv : S → Type 0}
    {pending : S → Bytes} (source : IsSource conn Plain Inv pending) where
  receive_part-Receives :
      (toread flags : ℕ) (r : RangeReader S)
      → Plain flags
      → InRange Inv r
      → 0 < toread
      → toread ≤ r.own.max_size - r.own.offset
      → Receives (InRange Inv) (range_pending pending) toread r (receive_part conn toread flags r)
  unfolding receive_part
  receive_part-Receives toread flags r plain v pos le =
      go (conn.receive toread flags r.wrapped)
        (source.receives toread flags r.wrapped (let bound = v.fits in omega arith) plain v.inner)
        (source.eof_drained (conn.receive toread flags r.wrapped).1)
    where
      go :
          (o : Result Bytes × S)
          → Receives Inv pending toread r.wrapped o
          → (Inv o.1 → conn.is_eof o.1 ≡ true → pending o.1 ≡ [])
          → Receives
              (InRange Inv)
              (range_pending pending)
              toread
              r
              (receive_part (record conn { receive = λ _ _ _. o }) toread flags r)
      go (ok d, s') got drained = elim (Bool-cases (conn.is_eof s')) [
        | inl done ↦ rw done (last-Receives r v toread le pos d s' got (drained got.keeps done))
        | inr more ↦ rw more (more-Receives r v toread le pos d s' got)
      ]
      go (throws x, s') got drained = thrown-Receives r v toread le pos x s' got
      go (undefined, s') got drained = absurd got.returns
      go (running, s') got drained = absurd got.returns

  -- `Receive` hands over the next part of the range.
  pub receive-Receives :
      (len flags : ℕ) (r : RangeReader S)
      → Plain flags
      → InRange Inv r
      → Receives (InRange Inv) (range_pending pending) len r (receive conn len flags r)
  unfolding receive
  receive-Receives len flags r plain v = elim (Bool-cases (leb r.own.max_size r.own.offset)) [
    | inl over ↦
        rw over record { keeps = v; returns = tt; consumes = refl; within = λ h. omega arith }
    | inr under ↦ rw under (weaken (clip_bounds len r.own (ground arith)))
  ]
    where
      weaken :
          (0 < clip len r.own)
            × (clip len r.own ≤ r.own.max_size - r.own.offset)
            × (0 < len → clip len r.own ≤ len)
          → Receives
              (InRange Inv)
              (range_pending pending)
              len
              r
              (receive_part conn (clip len r.own) flags r)
      weaken (pos, le, fit) =
          Receives-limit len pos fit (receive_part-Receives (clip len r.own) flags r plain v pos le)

  is_eof-drained :
      (r : RangeReader S) → InRange Inv r → is_eof conn r ≡ true → range_pending pending r ≡ []
  unfolding is_eof
  is_eof-drained r v e = elim (Bool-cases (leb r.own.max_size r.own.offset)) [
    | inl over ↦
        let none_left : r.own.max_size - r.own.offset ≡ 0 = omega (arith, leb→le _ _ over) in
        rw none_left
    | inr under ↦ rw (source.eof_drained r.wrapped v.inner (rw under at e), take-nil)
  ]

  -- A range reader over a source, with its offset within the range, is a source: its input is the
  -- first `max_size` bytes, less what it has handed over, of the wrapped connection's. Each
  -- `Receive` with a limit below 2 ^ 64 comes back and hands over the next part of that, within the
  -- caller's limit, whether it ends by a value or by an exception, and `IsEOF` is set only when
  -- nothing of it is left.
  pub range-IsSource :
      (rt : Runtime S) (fuel : ℕ)
      → IsSource (connection conn rt fuel) Plain (InRange Inv) (range_pending pending)
  unfolding connection
  range-IsSource rt fuel = record {
    plain_zero = source.plain_zero;
    receives = λ n flags r fits plain v. receive-Receives n flags r plain v;
    eof_drained = is_eof-drained;
  }

  -- However often and with whatever limits below 2 ^ 64 a client reads from a range reader over a
  -- source whose offset is within the range, for flags that take what they read: all that it gets
  -- together is the next part of the range, and at most as long as the part of the range that was
  -- left.
  pub read_all_bound :
      (rt : Runtime S) (fuel : ℕ) (calls : List (ℕ × ℕ)) (r : RangeReader S)
      → AllPlain Plain calls
      → InRange Inv r
      → let (got, r') = read_all (connection conn rt fuel) calls r in
        (range_pending pending r ≡ got ++ range_pending pending r')
        × (length got ≤ r.own.max_size - r.own.offset)
  read_all_bound rt fuel calls r plain v = (
    parts,
    omega (
      arith,
      ap length parts,
      length-append got rest,
      length-take (r.own.max_size - r.own.offset) (pending r.wrapped),
    ),
  )
    where
      got : Bytes
      got = (read_all (connection conn rt fuel) calls r).0

      rest : Bytes
      rest = range_pending pending (read_all (connection conn rt fuel) calls r).1

      parts : range_pending pending r ≡ got ++ rest
      parts = (read_all_lem (range-IsSource rt fuel) calls r plain v).1
