-- ===== src/Connection/Contract.antt =====
-- What a reader may rely on from any connection: siot/connection.h, `Receive` and `IsEOF`.
use libsiot.Base.{
  ℕ, ◌≤◌, ◌<◌, ◌≡◌, ◌≢◌, true, false, List, [], ◌∷◌, ◌++◌, refl, sym, ap, ◌∙◌, append_assoc, arith,
  Bytes, length, Result, ok, throws, undefined, running, u64_mod, ClientConnectionException,
}
use libsiot.Connection.{Connection}

-- The bytes that a call hands over; none when it throws.
abbrev pub bytes_of : Result Bytes → Bytes
bytes_of (ok d) = d
bytes_of (throws e) = []
bytes_of undefined = []
bytes_of running = []

-- The call comes back, by a value or by an exception.
abbrev pub Returns : {A : Type 0} → Result A → Type 0
Returns (ok a) = Unit
Returns (throws e) = Unit
Returns undefined = ⊥
Returns running = ⊥

-- One `Receive(n)` from `s` with outcome `o`: what it hands over is the next part of the input that
-- is still to come, no longer than `n` where a limit is given, and nothing is lost, also when it
-- throws.
pub record Receives {S : Type 0} (Inv : S → Type 0) (pending : S → Bytes) (n : ℕ) (s : S)
    (o : Result Bytes × S) : Type 0 where
  pub keeps : Inv o.1
  pub returns : Returns o.0
  pub consumes : pending s ≡ bytes_of o.0 ++ pending o.1
  pub within : 0 < n → length (bytes_of o.0) ≤ n

-- A connection whose unread input is `pending`, in the states that satisfy `Inv`, for the flags
-- that satisfy `Plain`: those that do not ask to leave what is read in place, as `MSG_PEEK` does. A
-- limit is a `size_t`, below 2 ^ 64.
pub record IsSource {S : Type 0} (conn : Connection S) (Plain : ℕ → Type 0) (Inv : S → Type 0)
    (pending : S → Bytes) : Type 0 where
  pub plain_zero : Plain 0
  pub receives :
      (n flags : ℕ) (s : S)
      → n < u64_mod
      → Plain flags
      → Inv s
      → Receives Inv pending n s (conn.receive n flags s)
  pub eof_drained : (s : S) → Inv s → conn.is_eof s ≡ true → pending s ≡ []

-- Before its end, a source hands over at least one byte when it is asked for some.
abbrev pub HasProgress : {S : Type 0} → Connection S → (S → Type 0) → Type 0
HasProgress {S} conn Inv =
    (n : ℕ) (s s' : S) → Inv s → conn.is_eof s ≡ false → 0 < n → conn.receive n 0 s ≢ (ok [], s')

-- No call throws, from the states of the invariant.
abbrev pub NeverThrows : {S : Type 0} → Connection S → (S → Type 0) → Type 0
NeverThrows {S} conn Inv =
    (n : ℕ) (s : S) (x : ClientConnectionException) → Inv s → (conn.receive n 0 s).0 ≢ throws x

module _ {S : Type 0} {Inv : S → Type 0} {pending : S → Bytes} where
  -- A call within a tighter limit is one within a wider limit.
  pub Receives-limit :
      {n : ℕ} (m : ℕ) {s : S} {o : Result Bytes × S}
      → 0 < n
      → (0 < m → n ≤ m)
      → Receives Inv pending n s o
      → Receives Inv pending m s o
  Receives-limit m pos fit got = record {
    keeps = got.keeps;
    returns = got.returns;
    consumes = got.consumes;
    within = λ h. omega (arith, fit h, got.within pos);
  }

-- A client that makes the listed calls `Receive(maxlen, flags)`, goes on after an exception, and
-- collects what it gets.
unfoldable pub read_all : {S : Type 0} → Connection S → List (ℕ × ℕ) → S → Bytes × S
read_all conn [] s = ([], s)
read_all conn ((n, flags) ∷ calls) s =
    let (r, s') = conn.receive n flags s in
    let (got, s'') = read_all conn calls s' in (bytes_of r ++ got, s'')

-- The limits of the listed calls are `size_t` values, and their flags are plain.
abbrev pub AllPlain : (ℕ → Type 0) → List (ℕ × ℕ) → Type 0
AllPlain Plain [] = Unit
AllPlain Plain ((n, flags) ∷ calls) = (n < u64_mod) × Plain flags × AllPlain Plain calls

-- The calls together hand over the next part of the input.
pub read_all_lem :
    {S : Type 0} {conn : Connection S} {Plain : ℕ → Type 0} {Inv : S → Type 0} {pending : S → Bytes}
    → IsSource conn Plain Inv pending
    → (calls : List (ℕ × ℕ)) (s : S) → AllPlain Plain calls
    → Inv s
    → Inv (read_all conn calls s).1
      × (pending s ≡ (read_all conn calls s).0 ++ pending (read_all conn calls s).1)
unfolding read_all
read_all_lem source [] s p v = (v, refl)
read_all_lem {conn} source ((n, flags) ∷ calls) s p v =
    let step = source.receives n flags s p.0 p.1 v in
    let (v', e) = read_all_lem source calls (conn.receive n flags s).1 p.2 step.keeps in
    (
      v',
      step.consumes
          ∙ ap (◌++◌ (bytes_of (conn.receive n flags s).0)) e
          ∙ sym (append_assoc (bytes_of (conn.receive n flags s).0) _ _),
    )
