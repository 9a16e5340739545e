-- ===== src/Connection/Sink.antt =====
-- What a writer may rely on from any connection: siot/connection.h, `Send`.
use libsiot.Base.{
  ℕ, zero, suc, ◌≤◌, ◌≡◌, refl, ap, ◌∙◌, Bytes, ◌++◌, append_assoc, take-append-drop, Result, ok,
  throws, undefined, running, length, take, drop,
}
use libsiot.Base.Int.{ℤ, pos, negsuc}
use libsiot.Connection.{Connection}

-- What a call of `Send` has done: it has handed the first bytes to the other end and says how many,
-- or it reports a failure, by a negative number or an exception, and has handed over nothing.
abbrev pub Hands : {S : Type 0} → (S → Bytes) → Bytes → S → Result ℤ × S → Type 0
Hands sent bytes s (ok (pos n), s') = (n ≤ length bytes) × (sent s' ≡ sent s ++ take n bytes)
Hands sent bytes s (ok (negsuc n), s') = sent s' ≡ sent s
Hands sent bytes s (throws x, s') = sent s' ≡ sent s
Hands sent bytes s (undefined, s') = ⊥
Hands sent bytes s (running, s') = ⊥

-- A connection that has handed the bytes `sent` to its other end, in the states that satisfy `Inv`.
pub record IsSink {S : Type 0} (conn : Connection S) (Inv : S → Type 0) (sent : S → Bytes)
    : Type 0 where
  pub keeps : (bytes : Bytes) (flags : ℕ) (s : S) → Inv s → Inv (conn.send bytes flags s).1
  pub hands :
      (bytes : Bytes) (flags : ℕ) (s : S) → Inv s → Hands sent bytes s (conn.send bytes flags s)

-- What is left of the bytes after a call.
abbrev pub unsent : Bytes → Result ℤ → Bytes
unsent bytes (ok (pos n)) = drop n bytes
unsent bytes (ok (negsuc n)) = bytes
unsent bytes (throws x) = bytes
unsent bytes undefined = bytes
unsent bytes running = bytes

-- A client that calls `Send` a number of times, each time with what is left of its text, and goes
-- on after a failure. The outcome is what is left at last.
unfoldable pub send_all : {S : Type 0} → Connection S → ℕ → Bytes → S → Bytes × S
send_all conn zero text s = (text, s)
send_all conn (suc k) text s =
    let (r, s') = conn.send text 0 s in send_all conn k (unsent text r) s'

Hands-unsent :
    {S : Type 0} (sent : S → Bytes) (text : Bytes) (s : S) (o : Result ℤ × S)
    → Hands sent text s o
    → sent o.1 ++ unsent text o.0 ≡ sent s ++ text
Hands-unsent sent text s (ok (pos n), s') (le, e) =
    ap (λ t. t ++ drop n text) e
    ∙ append_assoc (sent s) (take n text) (drop n text)
    ∙ ap (◌++◌ (sent s)) (take-append-drop n text)
Hands-unsent sent text s (ok (negsuc n), s') e = ap (λ t. t ++ text) e
Hands-unsent sent text s (throws x, s') e = ap (λ t. t ++ text) e
Hands-unsent sent text s (undefined, s') h = absurd h
Hands-unsent sent text s (running, s') h = absurd h

-- Over a sink, a client hands over a first part of its text and keeps the rest.
pub send_all_lem :
    {S : Type 0} (conn : Connection S) {Inv : S → Type 0} {sent : S → Bytes}
    → IsSink conn Inv sent
    → (k : ℕ) (text : Bytes) (s : S) → Inv s
    → let (left, s') = send_all conn k text s in sent s' ++ left ≡ sent s ++ text
unfolding send_all
send_all_lem conn sink zero text s v = refl
send_all_lem conn {sent = sent} sink (suc k) text s v =
    let (r, s') = conn.send text 0 s in
    send_all_lem conn sink k (unsent text r) s' (sink.keeps text 0 s v)
    ∙ Hands-unsent sent text s (conn.send text 0 s) (sink.hands text 0 s v)
