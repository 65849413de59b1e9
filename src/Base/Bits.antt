-- ===== src/Base/Bits.antt =====
-- `|` where the second operand fits below the first one's lowest bit: it is a sum.
use Prim.Native.Nat.{
  ℕ, zero, suc, ◌+◌, ◌*◌, ◌/◌, ◌^◌, ◌≤◌, ◌<◌, max, bit_or, digits, bit_or-bitwise,
}
use mathlib.Core.Path.{◌≡◌, refl, ◌∙◌}
use native.Mathlib.Omega.{arith}
use native.Mathlib.Nat.{pow-suc}

abbrev or_digits : ℕ → ℕ → ℕ → ℕ
or_digits n a b = digits (λ c. c) max n a b

double_shift : (q k : ℕ) → q * 2 ^ suc k ≡ 2 * (q * 2 ^ k)
double_shift q k = rw (pow-suc 2 k) (omega arith)

or_digits-zero : (n a : ℕ) → a ≤ n → or_digits n a 0 ≡ a
or_digits-zero zero a h = omega arith
or_digits-zero (suc n) zero h = refl
or_digits-zero (suc n) (suc a) h = omega (arith, or_digits-zero n (suc a / 2) (omega arith))

or_digits_shifted : (k n a q b : ℕ) → a ≤ n → a ≡ q * 2 ^ k → b < 2 ^ k → or_digits n a b ≡ a + b
or_digits_shifted k zero a q b h e lt = omega arith
or_digits_shifted k (suc n) zero q b h e lt = omega arith
or_digits_shifted zero (suc n) (suc a) q zero h e lt =
    omega (arith, or_digits-zero (suc n) (suc a) h)
or_digits_shifted zero (suc n) (suc a) q (suc b) h e lt = absurd (omega arith)
or_digits_shifted (suc k) (suc n) (suc a) q b h e lt = omega (
  arith,
  double_shift q k,
  double_shift 1 k,
  or_digits_shifted k n (suc a / 2) q (b / 2) (omega arith) (omega (arith, double_shift q k))
      (omega (arith, double_shift 1 k)),
)

pub bit_or-shifted : (hi lo : ℕ) → lo < 2 ^ 8 → bit_or (hi * 2 ^ 8) lo ≡ hi * 2 ^ 8 + lo
bit_or-shifted hi lo h =
    bit_or-bitwise (hi * 2 ^ 8) lo ∙ or_digits_shifted 8 _ _ hi lo (omega arith) refl h
