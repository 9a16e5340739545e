-- ===== src/UnixSocket/Blocking.antt =====
-- `SetBlocking`: the status flags of the descriptor, digit by digit.
use libsiot.Base.{
  ap, ℕ, ◌-◌, ◌≤◌, ◌<◌, ◌≡◌, ◌↔◌, ◌⊎◌, ◌∙◌, Bool, true, false, if◌then◌else◌, ◌==◌, Bool-cases, inl,
  inr, arith,
}
use libsiot.Base.Bits.{bit, bit-lt, bit-bit_and, bit-complement}
use libsiot.UnixSocket.{Sockets, UnixSocket, set_blocking}
use Prim.Native.Nat.{bit_and}

-- The documented behaviour of `fcntl`: `F_SETFL` sets the digits of the word that it can set, which
-- `O_NONBLOCK` is one of, and leaves the others, such as those of the access mode; and `F_GETFL`
-- reads the word.
pub record IsFcntl {W : Type 0} (net : Sockets W) (settable : ℕ → Bool) (k : ℕ) : Type 0 where
  pub sets :
      (i fd val : ℕ) (w : W)
      → bit i (net.get_flags fd (net.set_flags fd val w))
        ≡ (if settable i then bit i val else bit i (net.get_flags fd w))
  pub nonblock_digit : (i : ℕ) → bit i net.nonblock ≡ (if i == k then 1 else 0)
  pub nonblock_settable : settable k ≡ true
  pub nonblock_fits : net.nonblock ≤ 0xffffffff

-- The descriptor's word of flags.
abbrev pub flags_of : {W : Type 0} → Sockets W → UnixSocket W → ℕ
flags_of net u = net.get_flags u.socket u.system

module _ {W : Type 0} (net : Sockets W) {settable : ℕ → Bool} {k : ℕ}
    (fcntl : IsFcntl net settable k) where
  cleared :
      (i : ℕ)
      → i < 32
      → (val : ℕ)
      → bit i (bit_and val (0xffffffff - net.nonblock)) ≡ (if i == k then 0 else bit i val)
  cleared i h val =
      let digit = fcntl.nonblock_digit i in
      let other = bit-complement i 32 net.nonblock h fcntl.nonblock_fits in
      let both = bit-bit_and i val (0xffffffff - net.nonblock) in
      let small = bit-lt i val in ground arith

  -- A flag that cannot be set is not `O_NONBLOCK`.
  not_nonblock : (i : ℕ) → settable i ≡ false → (i == k) ≡ false
  not_nonblock i fixed = elim (Bool-cases (i == k)) [
    | inr other ↦ other
    | inl same ↦
        let here : i ≡ k = ground arith in
        let can = fcntl.nonblock_settable in let both = ap settable here in absurd (cc)
  ]

  after_true :
      (i : ℕ) (u : UnixSocket W)
      → i < 32
      → bit i (flags_of net (set_blocking net true u))
        ≡ (if i == k then 0 else bit i (flags_of net u))
  unfolding set_blocking
  after_true i u h =
      let val = bit_and (flags_of net u) (0xffffffff - net.nonblock) in
      fcntl.sets i u.socket val u.system ∙ elim (Bool-cases (settable i)) [
        | inl can ↦ rw can (cleared i h (flags_of net u))
        | inr fixed ↦ rw (fixed, not_nonblock i fixed)
      ]

  after_false :
      (i : ℕ) (u : UnixSocket W)
      → bit i (flags_of net (set_blocking net false u))
        ≡ (if settable i then (if i == k then 1 else 0) else bit i (flags_of net u))
  unfolding set_blocking
  after_false i u =
      fcntl.sets i u.socket net.nonblock u.system
      ∙ ap (λ b. if settable i then b else bit i (flags_of net u)) (fcntl.nonblock_digit i)

  -- With the documented behaviour of `fcntl`, for the 32 flags of the descriptor's word:
  -- `SetBlocking(true)` clears `O_NONBLOCK` and leaves every other flag. `SetBlocking(false)`
  -- followed by `SetBlocking(true)` brings a flag back as it was exactly if `fcntl` cannot set it
  -- or it was not set: every flag that was set and can be is lost.
  pub set_blocking_roundtrip :
      (i : ℕ) (u : UnixSocket W)
      → i < 32
      → (bit i (flags_of net (set_blocking net true u))
          ≡ (if i == k then 0 else bit i (flags_of net u)))
        × ((bit i (flags_of net (set_blocking net true (set_blocking net false u)))
              ≡ bit i (flags_of net u))
            ↔ ((settable i ≡ false) ⊎ (bit i (flags_of net u) ≡ 0)))
  set_blocking_roundtrip i u h =
      let back = after_true i (set_blocking net false u) h in
      let there = after_false i u in
      elim (Bool-cases (settable i)) [
        | inl can ↦ (after_true i u h, ground arith)
        | inr fixed ↦ let other = not_nonblock i fixed in (after_true i u h, ground arith)
      ]
