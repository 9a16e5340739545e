-- ===== src/Acknowledgement/Buffer.antt =====
-- One call of `Receive`, over a source.
use libsiot.Base.{
  ℕ, ◌+◌, ◌-◌, ◌≤◌, ◌<◌, ◌≡◌, ◌⊎◌, refl, sym, ap, ◌∙◌, Bytes, [], ◌∷◌, ◌++◌, Result, ok, throws,
  undefined, running, length, length-append, append-nil, append_assoc, Bool-cases, inl, inr, ltb,
  lt→ltb, ltb→lt, u64_mod, arith, if◌then◌else◌,
}
use libsiot.Connection.{Connection}
use libsiot.Connection.Contract.{IsSource, Receives}
use libsiot.Acknowledgement.{
  Acknowledged, request, append, hand_over, receive, set_buffer, buffer_exceeded,
}

-- All that has not been acknowledged: the buffer, then what the wrapped connection still holds.
abbrev pub unread : {S : Type 0} → (S → Bytes) → Acknowledged S → Bytes
unread pending r = r.own.buffer ++ pending r.wrapped

-- How a call that began at `r` may end. `ok`: the bytes are all the unacknowledged data read so
-- far, no more than the maximum, and within the limit if that is above the old buffer's length;
-- they stay in the buffer, or leave it under `autoack`. Any exception leaves all data in place; the
-- decorator's own is thrown with a buffer above the maximum, any other comes from the wrapped
-- connection and leaves the buffer as it was.
abbrev pub Shows :
    {S : Type 0} → (S → Bytes) → ℕ → Acknowledged S → Result Bytes × Acknowledged S → Type 0
Shows pending maxlen r (ok d, r') =
    (unread pending r ≡ d ++ pending r'.wrapped)
    × (length r.own.buffer ≤ length d)
    × (length d ≤ r.own.max_buffer_size)
    × (length r.own.buffer < maxlen → length d ≤ maxlen)
    × (r'.own ≡ record {
      max_buffer_size = r.own.max_buffer_size;
      autoack = r.own.autoack;
      buffer = if r.own.autoack then [] else d;
    })
Shows pending maxlen r (throws x, r') =
    (unread pending r ≡ unread pending r')
    × ((r'.own ≡ r.own)
        ⊎ ((x ≡ buffer_exceeded)
            × (r.own.max_buffer_size < length r'.own.buffer)
            × (r'.own ≡ record {
              max_buffer_size = r.own.max_buffer_size;
              autoack = r.own.autoack;
              buffer = r'.own.buffer;
            })))
Shows pending maxlen r (undefined, r') = ⊥
Shows pending maxlen r (running, r') = ⊥

pub append_lem :
    {S : Type 0} (d : Bytes) (r : Acknowledged S) → append d r ≡ set_buffer (r.own.buffer ++ d) r
append_lem [] r = rw append-nil
append_lem (b ∷ d) r = rw (lt→ltb 0 (length (b ∷ d)) (omega arith))

-- With room below the limit, the wrapped connection is asked for exactly that room.
pub request_room :
    {S : Type 0} (maxlen : ℕ) (r : Acknowledged S)
    → maxlen < u64_mod
    → length r.own.buffer < maxlen
    → request maxlen r ≡ maxlen - length r.own.buffer
unfolding request
request_room maxlen r fits room = rw (lt→ltb _ _ room) (omega arith)

-- The limit that is passed on is a `size_t`.
pub request_fits : {S : Type 0} (maxlen : ℕ) (r : Acknowledged S) → request maxlen r < u64_mod
unfolding request
request_fits maxlen r = ground arith

-- What `hand_over` makes of the old buffer and what was read.
hand_over-Shows :
    {S : Type 0} (pending : S → Bytes) (maxlen : ℕ) (r : Acknowledged S) (d : Bytes) (s' : S)
    → pending r.wrapped ≡ d ++ pending s'
    → (length r.own.buffer < maxlen → length r.own.buffer + length d ≤ maxlen)
    → Shows pending maxlen r
        (hand_over (set_buffer (r.own.buffer ++ d) (record r { wrapped = s' })))
unfolding hand_over
hand_over-Shows pending maxlen r d s' e fit =
    let moved : unread pending r ≡ (r.own.buffer ++ d) ++ pending s' =
      ap (◌++◌ r.own.buffer) e ∙ sym (append_assoc r.own.buffer d (pending s')) in
    let size = length-append r.own.buffer d in
    elim (Bool-cases (ltb r.own.max_buffer_size (length (r.own.buffer ++ d)))) [
      | inl over ↦ rw over (moved, inr (refl, ltb→lt _ _ over, refl))
      | inr within ↦ elim (Bool-cases r.own.autoack) [
        | inl auto ↦
            rw (within, auto) (moved, omega arith, ground arith, λ h. omega (arith, fit h), refl)
        | inr manual ↦
            rw (within, manual) (moved, omega arith, ground arith, λ h. omega (arith, fit h), refl)
      ]
    ]

module _ {S : Type 0} (conn : Connection S) {Plain : ℕ → Type 0} {Inv : S → Type 0}
    {pending : S → Bytes} (source : IsSource conn Plain Inv pending) where
  -- Over a source, every call of `Receive` with a limit below 2 ^ 64 and flags that take what they
  -- read comes back. By a value: the bytes are the unacknowledged data, the new part included, at
  -- most the maximum and, with room for more below `maxlen`, at most `maxlen`; they stay in the
  -- buffer, or all leave it under automatic acknowledgement. By an exception: no byte is lost, and
  -- either the decorator's fields are as they were, or it is the exception for an exceeded buffer
  -- and the buffer is above the maximum.
  pub receive-Shows :
      (maxlen flags : ℕ) (r : Acknowledged S)
      → Plain flags
      → Inv r.wrapped
      → maxlen < u64_mod
      → Shows pending maxlen r (receive conn maxlen flags r)
  unfolding receive
  receive-Shows maxlen flags r plain v fits =
      go (conn.receive (request maxlen r) flags r.wrapped)
        (source.receives (request maxlen r) flags r.wrapped (request_fits maxlen r) plain v)
    where
      go :
          (o : Result Bytes × S)
          → Receives Inv pending (request maxlen r) r.wrapped o
          → Shows pending maxlen r (receive (record conn { receive = λ _ _ _. o }) maxlen flags r)
      go (ok d, s') got = rw append_lem (
          hand_over-Shows pending maxlen r d s' got.consumes (λ h.
            let e = request_room maxlen r fits h in
            omega (arith, e, got.within (rw e (omega arith)))))
      go (throws x, s') got = (ap (◌++◌ r.own.buffer) got.consumes, inl refl)
      go (undefined, s') got = got.returns
      go (running, s') got = got.returns
