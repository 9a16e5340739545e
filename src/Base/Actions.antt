-- ===== src/Base/Actions.antt =====
-- How a method of the source ends, and methods as state passing. The state comes back on every
-- outcome, since what a method wrote before it threw stays written.
use Prim.Native.String.{String}

-- `ClientConnectionException` of siot/server.h.
pub record ClientConnectionException : Type 0 where
  pub identifier : String
  pub errmsg : String

-- `undefined` is a step whose behaviour C++ leaves undefined; `running` is a loop that has used up
-- its fuel.
pub data Result {ℓ} (A : Type ℓ) : Type ℓ where
  ok : A → Result A
  throws : ClientConnectionException → Result A
  undefined : Result A
  running : Result A

abbrev pub Action {ℓ} : Type ℓ → Type ℓ → Type ℓ
Action S A = S → Result A × S

module _ {ℓ} {S A : Type ℓ} where
  abbrev pub pure : A → Action S A
  pure a s = (ok a, s)

  abbrev pub throw : ClientConnectionException → Action S A
  throw e s = (throws e, s)

  abbrev pub fault : Action S A
  fault s = (undefined, s)

  abbrev pub gets : (S → A) → Action S A
  gets f s = (ok (f s), s)

abbrev pub modify {ℓ} : {S : Type ℓ} → (S → S) → Action S (Unit {ℓ})
modify f s = (ok tt, f s)

infixl 5 ◌>>=◌ ◌>>◌
abbrev pub ◌>>=◌ {ℓ} : {S A B : Type ℓ} → Action S A → (A → Action S B) → Action S B
◌>>=◌ m f s =
    let (r, s') = m s in
    elim r [
      | ok a ↦ f a s'
      | throws e ↦ (throws e, s')
      | undefined ↦ (undefined, s')
      | running ↦ (running, s')
    ]

abbrev pub ◌>>◌ {ℓ} : {S A B : Type ℓ} → Action S A → Action S B → Action S B
m >> k = m >>= λ _. k

abbrev pub skip {ℓ} : {S : Type ℓ} → Action S (Unit {ℓ})
skip s = (ok tt, s)
