-- ===== src/Base/Bits.antt =====
-- Bitwise operations on native numbers as arithmetic, for operands of every size.
use Prim.Native.Nat.{
  ℕ, zero, suc, ◌+◌, ◌-◌, ◌*◌, ◌/◌, ◌%◌, ◌^◌, ◌≤◌, ◌<◌, min, max, bit_and, bit_or, bit_xor, digits,
  bit_and-bitwise, bit_or-bitwise, bit_xor-bitwise, differ,
}
use mathlib.Core.Path.{◌≡◌, refl, ap, ◌∙◌}
use native.Mathlib.Omega.{arith}
use native.Mathlib.Nat.{le_refl, pow-suc}

-- One digit of `digits`, whose fuel does not matter above its operand.
module _ (z : ℕ → ℕ) (f : ℕ → ℕ → ℕ) where
  more_fuel : (n m a b : ℕ) → a ≤ n → a ≤ m → digits z f n a b ≡ digits z f m a b
  more_fuel zero zero a b p q = refl
  more_fuel zero (suc m) zero b p q = refl
  more_fuel zero (suc m) (suc a) b p q = absurd (omega arith)
  more_fuel (suc n) zero zero b p q = refl
  more_fuel (suc n) zero (suc a) b p q = absurd (omega arith)
  more_fuel (suc n) (suc m) zero b p q = refl
  more_fuel (suc n) (suc m) (suc a) b p q =
      rw (more_fuel n m (suc a / 2) (b / 2) (omega arith) (omega arith))

  first_digit :
      (a b : ℕ)
      → digits z f (suc a) (suc a) b
        ≡ digits z f (suc a / 2) (suc a / 2) (b / 2) * 2 + f (suc a % 2) (b % 2)
  first_digit a b =
      omega (arith, more_fuel a (suc a / 2) (suc a / 2) (b / 2) (omega arith) (le_refl _))

pub bit_or_digit : (a b : ℕ) → bit_or a b ≡ bit_or (a / 2) (b / 2) * 2 + max (a % 2) (b % 2)
bit_or_digit zero b = simp bit_or-bitwise (omega arith)
bit_or_digit (suc a) b = simp bit_or-bitwise (first_digit (λ y. y) max a b)

pub bit_and_digit : (a b : ℕ) → bit_and a b ≡ bit_and (a / 2) (b / 2) * 2 + min (a % 2) (b % 2)
bit_and_digit zero b = simp bit_and-bitwise (omega arith)
bit_and_digit (suc a) b = simp bit_and-bitwise (first_digit (λ y. 0) min a b)

pub bit_xor_digit : (a b : ℕ) → bit_xor a b ≡ bit_xor (a / 2) (b / 2) * 2 + differ (a % 2) (b % 2)
bit_xor_digit zero b = simp bit_xor-bitwise (omega arith)
bit_xor_digit (suc a) b = simp bit_xor-bitwise (first_digit (λ y. y) differ a b)

pub bit_or-zero_left : (b : ℕ) → bit_or 0 b ≡ b
bit_or-zero_left b = simp bit_or-bitwise refl

bit_or-even : (a m : ℕ) → bit_or a (2 * m) ≡ bit_or (a / 2) m * 2 + a % 2
bit_or-even a m =
    let half : 2 * m / 2 ≡ m = omega arith in
    let last : 2 * m % 2 ≡ 0 = omega arith in bit_or_digit a (2 * m) ∙ rw (half, last) (omega arith)

pub double : (b k : ℕ) → b * 2 ^ suc k ≡ 2 * (b * 2 ^ k)
double b k = omega (arith, ap (λ (t : ℕ). b * t) (pow-suc 2 k))

-- Numbers with no digit in common: the second is a multiple of a power above the first.
pub bit_or-disjoint : (k a b : ℕ) → a < 2 ^ k → bit_or a (b * 2 ^ k) ≡ a + b * 2 ^ k
bit_or-disjoint zero zero b h = omega (arith, bit_or-zero_left (b * 2 ^ 0))
bit_or-disjoint zero (suc a) b h = absurd (omega arith)
bit_or-disjoint (suc k) a b h = rw (double b k) (
    omega
      (arith, bit_or-even a (b * 2 ^ k), bit_or-disjoint k (a / 2) b (omega (arith, double 1 k))))

bit_and-zero : (fuel a : ℕ) → a ≤ fuel → bit_and a 0 ≡ 0
bit_and-zero zero zero h = simp bit_and-bitwise refl
bit_and-zero zero (suc a) h = absurd (omega arith)
bit_and-zero (suc fuel) zero h = simp bit_and-bitwise refl
bit_and-zero (suc fuel) (suc a) h =
    omega (arith, bit_and_digit (suc a) 0, bit_and-zero fuel (suc a / 2) (omega arith))

pub bit_and-zero_right : (a : ℕ) → bit_and a 0 ≡ 0
bit_and-zero_right a = bit_and-zero a a (le_refl a)

pub bit_and-1 : (a : ℕ) → bit_and a 1 ≡ a % 2
bit_and-1 a = omega (arith, bit_and_digit a 1, bit_and-zero_right (a / 2))

-- The seven digits below 128.
pub bit_and-0x7f : (a : ℕ) → bit_and a 0x7f ≡ a % 128
bit_and-0x7f a = omega (
  arith,
  bit_and_digit a 127,
  bit_and_digit (a / 2) 63,
  bit_and_digit (a / 2 / 2) 31,
  bit_and_digit (a / 2 / 2 / 2) 15,
  bit_and_digit (a / 2 / 2 / 2 / 2) 7,
  bit_and_digit (a / 2 / 2 / 2 / 2 / 2) 3,
  bit_and-1 (a / 2 / 2 / 2 / 2 / 2 / 2),
)

pub bit_or-0x80 : (a : ℕ) → a < 128 → bit_or a 0x80 ≡ a + 128
bit_or-0x80 a h = bit_or-disjoint 7 a 1 h

differ-zero : (r : ℕ) → differ r 0 ≡ r
differ-zero zero = refl
differ-zero (suc r) = refl

differ-one : (r : ℕ) → r < 2 → differ r 1 ≡ 1 - r
differ-one zero h = refl
differ-one (suc zero) h = refl
differ-one (suc (suc r)) h = absurd (omega arith)

bit_xor-zero : (fuel a : ℕ) → a ≤ fuel → bit_xor a 0 ≡ a
bit_xor-zero zero zero h = simp bit_xor-bitwise refl
bit_xor-zero zero (suc a) h = absurd (omega arith)
bit_xor-zero (suc fuel) zero h = simp bit_xor-bitwise refl
bit_xor-zero (suc fuel) (suc a) h = omega (
  arith,
  bit_xor_digit (suc a) 0,
  bit_xor-zero fuel (suc a / 2) (omega arith),
  differ-zero (suc a % 2),
)

-- `x ^ ~0` in `w` bits is the complement of `x`.
pub bit_xor-zero_right : (a : ℕ) → bit_xor a 0 ≡ a
bit_xor-zero_right a = bit_xor-zero a a (le_refl a)

bit_xor-odd : (a m : ℕ) → bit_xor a (2 * m + 1) ≡ bit_xor (a / 2) m * 2 + (1 - a % 2)
bit_xor-odd a m =
    let half : (2 * m + 1) / 2 ≡ m = omega arith in
    let last : (2 * m + 1) % 2 ≡ 1 = omega arith in
    bit_xor_digit a (2 * m + 1) ∙ rw (half, last, differ-one (a % 2) (omega arith))

pub pow_pos : (w : ℕ) → 1 ≤ 2 ^ w
pow_pos zero = omega arith
pow_pos (suc w) = omega (arith, pow-suc 2 w, pow_pos w)

-- `x ^ ~0` in `w` bits is the complement of `x`.
pub bit_xor-ones : (w a : ℕ) → a < 2 ^ w → bit_xor a (2 ^ w - 1) ≡ 2 ^ w - 1 - a
bit_xor-ones zero zero h = simp bit_xor-bitwise refl
bit_xor-ones zero (suc a) h = absurd (omega arith)
bit_xor-ones (suc w) a h =
    let e : 2 ^ suc w - 1 ≡ 2 * (2 ^ w - 1) + 1 = omega (arith, pow-suc 2 w, pow_pos w) in
    rw e (
      omega (
        arith,
        bit_xor-odd a (2 ^ w - 1),
        bit_xor-ones w (a / 2) (omega (arith, pow-suc 2 w)),
        pow_pos w,
        pow-suc 2 w,
      ))
