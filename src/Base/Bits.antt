-- ===== src/Base/Bits.antt =====
-- `|` of disjoint bit fields is a sum.
use Prim.Native.Nat.{
  ℕ, zero, suc, ◌+◌, ◌*◌, ◌/◌, ◌%◌, ◌^◌, ◌≤◌, ◌<◌, max, bit_or, digits, bit_or-bitwise,
}
use mathlib.Core.Path.{◌≡◌, refl, ap}
use native.Mathlib.Nat.{pow-suc}
use native.Mathlib.Omega.{arith}

-- The recursion that `bit_or` stands for, on binary digits with fuel.
abbrev or_digits : ℕ → ℕ → ℕ → ℕ
or_digits fuel a b = digits (λ b. b) max fuel a b

-- Any fuel that is at least the first number gives the same result.
or_digits_fuel : (m n a b : ℕ) → a ≤ m → a ≤ n → or_digits m a b ≡ or_digits n a b
or_digits_fuel zero zero a b p q = refl
or_digits_fuel zero (suc n) zero b p q = refl
or_digits_fuel zero (suc n) (suc a) b p q = absurd (omega arith)
or_digits_fuel (suc m) zero zero b p q = refl
or_digits_fuel (suc m) zero (suc a) b p q = absurd (omega arith)
or_digits_fuel (suc m) (suc n) zero b p q = refl
or_digits_fuel (suc m) (suc n) (suc a) b p q =
    omega (arith, or_digits_fuel m n (suc a / 2) (b / 2) (omega arith) (omega arith))

zero-bit_or : (b : ℕ) → bit_or 0 b ≡ b
zero-bit_or b = bit_or-bitwise 0 b

-- The lowest binary digit of `a | b`, and the rest.
bit_or_low : (a b : ℕ) → bit_or a b ≡ bit_or (a / 2) (b / 2) * 2 + max (a % 2) (b % 2)
bit_or_low zero b = omega (arith, zero-bit_or b, zero-bit_or (b / 2))
bit_or_low (suc a) b = omega (
  arith,
  bit_or-bitwise (suc a) b,
  bit_or-bitwise (suc a / 2) (b / 2),
  or_digits_fuel a (suc a / 2) (suc a / 2) (b / 2) (omega arith) (omega arith),
)

bit_or-zero_below : (bound a : ℕ) → a ≤ bound → bit_or a 0 ≡ a
bit_or-zero_below bound zero h = refl
bit_or-zero_below zero (suc a) h = absurd (omega arith)
bit_or-zero_below (suc bound) (suc a) h =
    omega (arith, bit_or_low (suc a) 0, bit_or-zero_below bound (suc a / 2) (omega arith))

-- `(hi << k) | lo` is a sum where `lo` fits in `k` bits.
pub bit_or_disjoint : (k hi lo : ℕ) → lo < 2 ^ k → bit_or (hi * 2 ^ k) lo ≡ hi * 2 ^ k + lo
bit_or_disjoint zero hi lo fits = ground (arith, bit_or-zero_below hi hi)
bit_or_disjoint (suc k) hi lo fits = ground (
  arith,
  bit_or_low (hi * 2 ^ suc k) lo,
  pow-suc 2 k,
  ap (λ (t : ℕ). hi * t) (pow-suc 2 k),
  bit_or_disjoint k hi (lo / 2),
)
