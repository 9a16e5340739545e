-- ===== src/Tests/Tape.antt =====
-- A connection over a list of bytes, which hands over at most three at a time.
use libsiot.Base.{
  ℕ, zero, suc, ◌<◌, ◌≡◌, ◌≢◌, refl, sym, Bool, true, false, ◌||◌, none, Bytes, [], ◌∷◌, take, drop,
  length, take-append-drop, length-take, Result, ok, skip, if◌then◌else◌, ltb, ◌==◌, arith,
}
use libsiot.Base.Int.{pos}
use libsiot.Connection.{Connection, Runtime}
use libsiot.Connection.Contract.{IsSource, HasProgress}

-- How much a call hands over.
abbrev pub portion : ℕ → ℕ
portion n = if n == 0 || ltb 3 n then 3 else n

abbrev pub cut : ℕ → Bytes → Result Bytes × Bytes
cut k s = (ok (take k s), drop k s)

abbrev pub is_empty : Bytes → Bool
is_empty [] = true
is_empty (b ∷ bs) = false

abbrev pub tape : Connection Bytes
tape = record {
  receive = λ n flags. cut (portion n);
  send = λ bytes flags s. (ok (pos (length bytes)), s);
  peer_as_text = λ s. "tape";
  get_server = λ s. none;
  is_eof = is_empty;
  get_last_use = λ s. 0;
  set_blocking = λ b. skip;
  shutdown = skip;
  is_shutdown = λ s. false;
}

abbrev pub idle_runtime : {S : Type 0} → Runtime S
idle_runtime = record {
  dequeue_connection = λ srv c. skip;
  defer_shutdown = λ srv c. skip;
  lock = λ c. skip;
  destroy = λ c. skip;
}

abbrev pub Any : {A : Type 0} → A → Type 0
Any a = Unit

abbrev pub whole : Bytes → Bytes
whole s = s

is_empty-nil : (s : Bytes) → is_empty s ≡ true → s ≡ []
is_empty-nil [] e = refl
is_empty-nil (b ∷ bs) e = absurd (cc)

pub tape-IsSource : IsSource tape Any Any whole
tape-IsSource = record {
  plain_zero = tt;
  receives = λ n flags s fits plain v. record {
    keeps = tt;
    returns = tt;
    consumes = sym (take-append-drop (portion n) s);
    within = λ h. ground (arith, length-take (portion n) s);
  };
  eof_drained = λ s v e. is_empty-nil s e;
}

pub tape-HasProgress : HasProgress tape Any
tape-HasProgress n [] t v going h e = absurd (cc)
tape-HasProgress n (b ∷ bs) t v going h e = some_portion (portion n) (ground arith) e
  where
    some_portion : (k : ℕ) → 0 < k → cut k (b ∷ bs) ≢ (ok [], t)
    some_portion (suc k) h e = cc
    some_portion zero h e = absurd (omega arith)
