-- ===== src/Acknowledgement/History.antt =====
-- Histories of calls: nothing is lost or handed over twice, and an exceeded buffer stays exceeded.
use libsiot.Base.{
  ℕ, ◌<◌, ◌≡◌, ◌≢◌, refl, sym, ap, ◌∙◌, Bool, true, false, Bytes, List, [], ◌∷◌, ◌++◌, Result, ok,
  throws, undefined, running, length, take, drop, take-append-drop, append_assoc, Bool-cases, inl,
  inr, ltb, u64_mod, arith, if◌then◌else◌,
}
use libsiot.Connection.{Connection}
use libsiot.Connection.Contract.{IsSource, bytes_of}
use libsiot.Acknowledgement.{
  Acknowledged, append, hand_over, receive, acknowledge, set_auto_ack, set_buffer, request,
}
use libsiot.Acknowledgement.Buffer.{request_fits, unread, Shows, receive-Shows}

pub data Call : Type 0 where
  receives : ℕ → ℕ → Call
  acknowledges : ℕ → Call
  sets_auto_ack : Bool → Call

-- The bytes that a `Receive` settles: all that it returns, under automatic acknowledgement.
abbrev pub settled : Bool → Result Bytes → Bytes
settled autoack r = if autoack then bytes_of r else []

-- An `Acknowledge` that succeeds settles the first bytes of the buffer.
abbrev acknowledged_part :
    {S : Type 0} → ℕ → Bytes → Result Bool × Acknowledged S → Bytes × Acknowledged S
acknowledged_part n b (ok true, r') = (take n b, r')
acknowledged_part n b (ok false, r') = ([], r')
acknowledged_part n b (throws x, r') = ([], r')
acknowledged_part n b (undefined, r') = ([], r')
acknowledged_part n b (running, r') = ([], r')

-- One call: the bytes that it settles, and the new state. Exceptions are caught by the client.
unfoldable pub step : {S : Type 0} → Connection S → Call → Acknowledged S → Bytes × Acknowledged S
step conn (receives n flags) r =
    let (o, r') = receive conn n flags r in (settled r.own.autoack o, r')
step conn (acknowledges n) r = acknowledged_part n r.own.buffer (acknowledge n r)
step conn (sets_auto_ack b) r = ([], set_auto_ack b r)

unfoldable pub run :
    {S : Type 0} → Connection S → List Call → Acknowledged S → Bytes × Acknowledged S
run conn [] r = ([], r)
run conn (c ∷ cs) r =
    let (now, r') = step conn c r in let (later, r'') = run conn cs r' in (now ++ later, r'')

-- The limits of a history are `size_t` values, and its flags are plain.
abbrev pub HasLimits : (ℕ → Type 0) → List Call → Type 0
HasLimits Plain [] = Unit
HasLimits Plain (receives n flags ∷ cs) = (n < u64_mod) × Plain flags × HasLimits Plain cs
HasLimits Plain (acknowledges n ∷ cs) = HasLimits Plain cs
HasLimits Plain (sets_auto_ack b ∷ cs) = HasLimits Plain cs

module _ {S : Type 0} (conn : Connection S) {Plain : ℕ → Type 0} {Inv : S → Type 0}
    {pending : S → Bytes} (source : IsSource conn Plain Inv pending) where
  pub receive-wrapped :
      (n flags : ℕ) (r : Acknowledged S)
      → Plain flags
      → Inv r.wrapped
      → Inv (receive conn n flags r).1.wrapped
  unfolding receive hand_over
  receive-wrapped n flags r plain v =
      go (conn.receive (request n r) flags r.wrapped)
        (source.receives (request n r) flags r.wrapped (request_fits n r) plain v).keeps
    where
      go :
          (o : Result Bytes × S)
          → Inv o.1
          → Inv (receive (record conn { receive = λ _ _ _. o }) n flags r).1.wrapped
      go (ok d, s') v' =
          let e : (hand_over (append d (record r { wrapped = s' }))).1.wrapped ≡ s' =
            ground arith in
          rw e v'
      go (throws x, s') v' = v'
      go (undefined, s') v' = v'
      go (running, s') v' = v'

  Shows-settled :
      (n : ℕ) (r : Acknowledged S) (o : Result Bytes × Acknowledged S)
      → Shows pending n r o
      → unread pending r ≡ settled r.own.autoack o.0 ++ unread pending o.1
  Shows-settled n r (ok d, r') (moved, _, _, _, own) = elim (Bool-cases r.own.autoack) [
    | inl auto ↦
        let e : r'.own.buffer ≡ [] = ap (λ b. b.buffer) (rw auto at own) in rw (auto, e) moved
    | inr manual ↦
        let e : r'.own.buffer ≡ d = ap (λ b. b.buffer) (rw manual at own) in rw (manual, e) moved
  ]
  Shows-settled n r (throws x, r') (kept, _) = elim (Bool-cases r.own.autoack) [
    | inl auto ↦ rw auto kept
    | inr manual ↦ rw manual kept
  ]
  Shows-settled n r (undefined, r') h = absurd h
  Shows-settled n r (running, r') h = absurd h

  step_conserves :
      (c : Call) (r : Acknowledged S)
      → Inv r.wrapped
      → HasLimits Plain (c ∷ [])
      → Inv (step conn c r).1.wrapped
        × (unread pending r ≡ (step conn c r).0 ++ unread pending (step conn c r).1)
  unfolding step acknowledge set_auto_ack
  step_conserves (receives n flags) r v h = (
    receive-wrapped n flags r h.1 v,
    Shows-settled n r (receive conn n flags r) (receive-Shows conn source n flags r h.1 v h.0),
  )
  step_conserves (acknowledges n) r v h = elim (Bool-cases (ltb (length r.own.buffer) n)) [
    | inl over ↦ let e : acknowledge n r ≡ (ok false, r) = rw over in rw e (v, refl)
    | inr within ↦
        let e : acknowledge n r ≡ (ok true, set_buffer (drop n r.own.buffer) r) = rw within in
        rw e (
          v,
          sym (ap (λ b. b ++ pending r.wrapped) (take-append-drop n r.own.buffer))
              ∙ append_assoc (take n r.own.buffer) _ _,
        )
  ]
  step_conserves (sets_auto_ack b) r v h = (v, refl)

  HasLimits-split :
      (c : Call) (cs : List Call)
      → HasLimits Plain (c ∷ cs)
      → HasLimits Plain (c ∷ []) × HasLimits Plain cs
  HasLimits-split (receives n flags) cs h = ((h.0, h.1, tt), h.2)
  HasLimits-split (acknowledges n) cs h = (tt, h)
  HasLimits-split (sets_auto_ack b) cs h = (tt, h)

  -- Over a source and any history of calls of `Receive` (limits below 2 ^ 64, flags that take what
  -- they read), `Acknowledge` and `SetAutoAck`, exceptions included: the bytes that were
  -- acknowledged, those that are still in the buffer, and those that the wrapped connection still
  -- holds make up the input, in order. None is lost, repeated or moved.
  pub run_conserves :
      (cs : List Call) (r : Acknowledged S)
      → Inv r.wrapped
      → HasLimits Plain cs
      → Inv (run conn cs r).1.wrapped
        × (unread pending r ≡ (run conn cs r).0 ++ unread pending (run conn cs r).1)
  unfolding run
  run_conserves [] r v h = (v, refl)
  run_conserves (c ∷ cs) r v h =
      let (first, rest) = HasLimits-split c cs h in
      let (v', e) = step_conserves c r v first in
      let (v'', e') = run_conserves cs (step conn c r).1 v' rest in
      (v'', e ∙ ap (◌++◌ (step conn c r).0) e' ∙ sym (append_assoc (step conn c r).0 _ _))

  -- Over a source, once the buffer exceeds the maximum, no `Receive` (limit below 2 ^ 64, flags
  -- that take what they read) returns a value, and the buffer still exceeds the maximum after it.
  pub overflow_sticks :
      (n flags : ℕ) (r : Acknowledged S)
      → Plain flags
      → Inv r.wrapped
      → n < u64_mod
      → r.own.max_buffer_size < length r.own.buffer
      → ((d : Bytes) → (receive conn n flags r).0 ≢ ok d)
        × (r.own.max_buffer_size < length (receive conn n flags r).1.own.buffer)
  overflow_sticks n flags r plain v fits over =
      go (receive conn n flags r) (receive-Shows conn source n flags r plain v fits)
    where
      go :
          (o : Result Bytes × Acknowledged S)
          → Shows pending n r o
          → ((d : Bytes) → o.0 ≢ ok d) × (r.own.max_buffer_size < length o.1.own.buffer)
      go (ok d, r') shows = absurd (omega arith)
      go (throws x, r') (_, inl same) = (λ d e. cc, rw same over)
      go (throws x, r') (_, inr (_, above, _)) = (λ d e. cc, above)
      go (undefined, r') h = absurd h
      go (running, r') h = absurd h
