-- ===== src/Acknowledgement/Auto.antt =====
-- Automatic acknowledgement: the decorator is then a source like any other connection.
use libsiot.Base.{
  ℕ, ◌<◌, ◌≡◌, ◌⊎◌, refl, ap, ◌∙◌, true, Bytes, [], ◌∷◌, Result, ok, throws, undefined, running,
  length, inl, inr, arith,
}
use libsiot.Connection.{Connection, Runtime}
use libsiot.Connection.Contract.{IsSource, Receives}
use libsiot.Acknowledgement.{Acknowledged, receive, is_eof, connection}
use libsiot.Acknowledgement.Buffer.{unread, Shows, receive-Shows}
use libsiot.Acknowledgement.History.{receive-wrapped}

-- Acknowledgement is automatic, and the buffer is empty, or above the maximum after a call that
-- threw.
pub record IsAutomatic {S : Type 0} (Inv : S → Type 0) (r : Acknowledged S) : Type 0 where
  pub inner : Inv r.wrapped
  pub auto : r.own.autoack ≡ true
  pub clean : (r.own.buffer ≡ []) ⊎ (r.own.max_buffer_size < length r.own.buffer)

module _ {S : Type 0} {Inv : S → Type 0} (pending : S → Bytes) (n : ℕ) (r : Acknowledged S)
    (v : IsAutomatic Inv r) where
  shown :
      (o : Result Bytes × Acknowledged S)
      → Shows pending n r o
      → Inv o.1.wrapped
      → Receives (IsAutomatic Inv) (unread pending) n r o
  shown (ok d, r') (moved, more, bounded, fit, own) inner =
      let empty : r'.own.buffer ≡ [] = ap (λ b. b.buffer) own ∙ rw (v.auto) refl in
      record {
        keeps = record {
          inner = inner;
          auto = ap (λ b. b.autoack) own ∙ v.auto;
          clean = inl empty;
        };
        returns = tt;
        consumes = rw empty moved;
        within = λ h. elim (v.clean) [
          | inl was ↦ let none_there = ap length was in fit (omega arith)
          | inr over ↦ absurd (omega arith)
        ];
      }
  shown (throws x, r') (same, inl own) inner = record {
    keeps = record {
      inner = inner;
      auto = ap (λ b. b.autoack) own ∙ v.auto;
      clean = rw own (v.clean);
    };
    returns = tt;
    consumes = same;
    within = λ h. omega arith;
  }
  shown (throws x, r') (same, inr (e, over, own)) inner = record {
    keeps = record {
      inner = inner;
      auto = ap (λ b. b.autoack) own ∙ v.auto;
      clean = inr (let largest = ap (λ b. b.max_buffer_size) own in omega arith);
    };
    returns = tt;
    consumes = same;
    within = λ h. omega arith;
  }
  shown (undefined, r') h inner = absurd h
  shown (running, r') h inner = absurd h

module _ {S : Type 0} (conn : Connection S) {Plain : ℕ → Type 0} {Inv : S → Type 0}
    {pending : S → Bytes} (source : IsSource conn Plain Inv pending) where
  is_eof-drained :
      (r : Acknowledged S) → IsAutomatic Inv r → is_eof conn r ≡ true → unread pending r ≡ []
  unfolding is_eof
  is_eof-drained r v e =
      let done : conn.is_eof r.wrapped ≡ true = ground arith in
      let empty : r.own.buffer ≡ [] = no_bytes r.own.buffer (ground arith) in
      rw empty (source.eof_drained r.wrapped v.inner done)
    where
      no_bytes : (b : Bytes) → length b ≡ 0 → b ≡ []
      no_bytes [] h = refl
      no_bytes (c ∷ cs) h = absurd (omega arith)

  -- Under automatic acknowledgement, a decorator over a source, with an empty buffer or one above
  -- the maximum, is itself a source, and its input is the buffer and then the wrapped connection's:
  -- every `Receive` with a limit below 2 ^ 64 comes back, hands over the next part of it, within
  -- the caller's limit, loses nothing when it throws, and keeps the state such; and `IsEOF` is set
  -- only when nothing is left.
  pub auto-IsSource :
      (rt : Runtime S) → IsSource (connection conn rt) Plain (IsAutomatic Inv) (unread pending)
  unfolding connection
  auto-IsSource rt = record {
    plain_zero = source.plain_zero;
    receives = λ n flags r fits plain v.
        shown pending n r v (receive conn n flags r)
          (receive-Shows conn source n flags r plain v.inner fits)
          (receive-wrapped conn source n flags r plain v.inner);
    eof_drained = is_eof-drained;
  }
