-- ===== src/RangeReader/Progress.antt =====
-- A range reader makes progress, and does not throw, where the wrapped connection does so.
use libsiot.Base.{
  ℕ, ◌<◌, ◌≡◌, ◌≢◌, ap, ◌∙◌, false, Bytes, [], Result, ClientConnectionException, ok, throws,
  modify, pure, ◌>>◌, if◌then◌else◌, Bool-cases, inl, inr, leb, arith,
}
use libsiot.Connection.{Connection, Runtime}
use libsiot.Connection.Contract.{HasProgress, NeverThrows}
use libsiot.Decorator.{forward-cases}
use libsiot.RangeReader.{
  RangeReader, clip, receive, receive_part, is_eof, connection, set_offset, advance,
}
use libsiot.RangeReader.Source.{InRange, clip_bounds}

ok_inj : (d : Bytes) → ◌≡◌ {A = Result Bytes} (ok d) (ok []) → d ≡ []
ok_inj d e = cc

module _ {S : Type 0} (conn : Connection S) where
  -- What `receive_part` makes of what was read.
  abbrev note : Bytes → RangeReader S → Result Bytes × RangeReader S
  note got =
      modify (λ r. if conn.is_eof r.wrapped then set_offset r.own.max_size r else advance got r)
      >> pure got

  open_end :
      (r : RangeReader S)
      → is_eof conn r ≡ false
      → (leb r.own.max_size r.own.offset ≡ false) × (conn.is_eof r.wrapped ≡ false)
  unfolding is_eof
  open_end r e = ground arith

module _ {S : Type 0} (conn : Connection S) {Inv : S → Type 0} where
  part-HasProgress :
      HasProgress conn Inv
      → (n : ℕ) (r q : RangeReader S) → InRange Inv r
      → conn.is_eof r.wrapped ≡ false
      → 0 < n
      → receive_part conn n 0 r ≢ (ok [], q)
  unfolding receive_part
  part-HasProgress progress n r q v going pos =
      forward-cases (λ o. o ≢ (ok [], q)) (conn.receive n 0) (note conn) r
        (λ d s' e h.
          progress n r.wrapped s' v.inner going pos
            (e ∙ ap (λ b. (ok b, s')) (ok_inj d (ap (λ o. o.0) h))))
        (λ x s' e h. cc) (λ s' e h. cc) (λ s' e h. cc)

  part-NeverThrows :
      NeverThrows conn Inv
      → (n : ℕ) (r : RangeReader S) (x : ClientConnectionException) → InRange Inv r
      → (receive_part conn n 0 r).0 ≢ throws x
  unfolding receive_part
  part-NeverThrows quiet n r x v =
      forward-cases (λ o. o.0 ≢ throws x) (conn.receive n 0) (note conn) r (λ d s' e h. cc)
        (λ y s' e h. quiet n r.wrapped y v.inner (ap (λ o. o.0) e)) (λ s' e h. cc) (λ s' e h. cc)

  pub range-HasProgress :
      (rt : Runtime S) (fuel : ℕ)
      → HasProgress conn Inv
      → HasProgress (connection conn rt fuel) (InRange Inv)
  unfolding connection receive
  range-HasProgress rt fuel progress n r q v going pos =
      let (before, inner) = open_end conn r going in
      rw before (
        part-HasProgress progress (clip n r.own) r q v inner (clip_bounds n r.own (ground arith)).0)

  pub range-NeverThrows :
      (rt : Runtime S) (fuel : ℕ)
      → NeverThrows conn Inv
      → NeverThrows (connection conn rt fuel) (InRange Inv)
  unfolding connection receive
  range-NeverThrows rt fuel quiet n r x v = elim (Bool-cases (leb r.own.max_size r.own.offset)) [
    | inl over ↦ rw over (λ h. cc)
    | inr under ↦ rw under (part-NeverThrows quiet (clip n r.own) r x v)
  ]
