-- ===== src/Base/Bits.antt =====
-- The binary digits of a number, and what `bit_and` and a complement do to them.
use Prim.Native.Nat.{
  ℕ, zero, suc, ◌+◌, ◌-◌, ◌*◌, ◌/◌, ◌%◌, ◌≤◌, ◌<◌, min, bit_and, digits, bit_and-bitwise,
}
use mathlib.Core.Path.{◌≡◌, refl, ap, ◌∙◌}
use native.Mathlib.Omega.{arith}

abbrev pub bit : ℕ → ℕ → ℕ
bit zero n = n % 2
bit (suc i) n = bit i (n / 2)

pub bit-lt : (i n : ℕ) → bit i n < 2
bit-lt zero n = omega arith
bit-lt (suc i) n = bit-lt i (n / 2)

pub bit-zero : (i : ℕ) → bit i 0 ≡ 0
bit-zero zero = refl
bit-zero (suc i) = bit-zero i

bit-digits : (i n a b : ℕ) → a ≤ n → bit i (digits (λ _. 0) min n a b) ≡ min (bit i a) (bit i b)
bit-digits i zero zero b h = omega (arith, bit-zero i)
bit-digits i zero (suc a) b h = absurd (omega arith)
bit-digits i (suc n) zero b h = omega (arith, bit-zero i)
bit-digits zero (suc n) (suc a) b h = omega arith
bit-digits (suc i) (suc n) (suc a) b h =
    ap (bit i) halved ∙ bit-digits i n (suc a / 2) (b / 2) (omega arith)
  where
    halved :
        (digits (λ _. 0) min n (suc a / 2) (b / 2) * 2 + min (suc a % 2) (b % 2)) / 2
        ≡ digits (λ _. 0) min n (suc a / 2) (b / 2)
    halved = omega arith

pub bit-bit_and : (i a b : ℕ) → bit i (bit_and a b) ≡ min (bit i a) (bit i b)
bit-bit_and i a b = ap (bit i) (bit_and-bitwise a b) ∙ bit-digits i a a b (omega arith)

-- The number with `k` digits, all of them 1.
abbrev pub ones : ℕ → ℕ
ones zero = 0
ones (suc k) = ones k * 2 + 1

pub bit-complement : (i k n : ℕ) → i < k → n ≤ ones k → bit i (ones k - n) ≡ 1 - bit i n
bit-complement i zero n h le = absurd (omega arith)
bit-complement zero (suc k) n h le = omega arith
bit-complement (suc i) (suc k) n h le =
    ap (bit i) halved ∙ bit-complement i k (n / 2) (omega arith) (omega arith)
  where
    halved : (ones k * 2 + 1 - n) / 2 ≡ ones k - n / 2
    halved = omega arith
