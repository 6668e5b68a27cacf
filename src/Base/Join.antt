-- ===== src/Base/Join.antt =====
-- Bitwise operations on numbers that are put together of two parts, by an operation's last digits.
use Prim.Native.Nat.{
  ℕ, zero, suc, ◌+◌, ◌-◌, ◌*◌, ◌/◌, ◌%◌, ◌^◌, ◌≤◌, ◌<◌, min, max, bit_and, bit_or, bit_xor, differ,
}
use mathlib.Core.Path.{◌≡◌, refl, sym, ap, ap₂, ◌∙◌}
use native.Mathlib.Omega.{arith}
use native.Mathlib.Nat.{pow-suc}
use sylar_from_scratch.Base.Bits.{bit_or_digit, bit_and_digit, bit_xor_digit, double, pow_pos}

-- An operation on digits.
pub record Bitwise : Type 0 where
  pub op : ℕ → ℕ → ℕ
  pub digit : ℕ → ℕ → ℕ
  pub op_digit : (a b : ℕ) → op a b ≡ op (a / 2) (b / 2) * 2 + digit (a % 2) (b % 2)
  pub digit_below : (a b : ℕ) → a < 2 → b < 2 → digit a b < 2
  pub op_zero : op 0 0 ≡ 0

module _ (F : Bitwise) where
  open F use {op, digit, op_digit, digit_below, op_zero}

  -- The lower parts and the upper parts are operated on alone.
  pub op_join :
      (k p q p' q' : ℕ)
      → q < 2 ^ k
      → q' < 2 ^ k
      → op (q + p * 2 ^ k) (q' + p' * 2 ^ k) ≡ op q q' + op p p' * 2 ^ k
  op_join zero p q p' q' h h' =
      let e : q + p * 2 ^ 0 ≡ p = omega arith in
      let e' : q' + p' * 2 ^ 0 ≡ p' = omega arith in
      let z : q ≡ 0 = omega arith in
      let z' : q' ≡ 0 = omega arith in omega (arith, ap₂ op e e', ap₂ op z z', op_zero)
  op_join (suc k) p q p' q' h h' =
      let x = q + p * 2 ^ suc k in
      let y = q' + p' * 2 ^ suc k in
      let half : x / 2 ≡ q / 2 + p * 2 ^ k = omega (arith, double p k) in
      let half' : y / 2 ≡ q' / 2 + p' * 2 ^ k = omega (arith, double p' k) in
      let last : x % 2 ≡ q % 2 = omega (arith, double p k) in
      let last' : y % 2 ≡ q' % 2 = omega (arith, double p' k) in
      let below : q / 2 < 2 ^ k = omega (arith, pow-suc 2 k) in
      let below' : q' / 2 < 2 ^ k = omega (arith, pow-suc 2 k) in
      omega (
        arith,
        op_digit x y,
        ap₂ op half half',
        ap₂ digit last last',
        op_join k p (q / 2) p' (q' / 2) below below',
        op_digit q q',
        double (op p p') k,
      )

  pub op_below : (k q q' : ℕ) → q < 2 ^ k → q' < 2 ^ k → op q q' < 2 ^ k
  op_below zero q q' h h' =
      let z : q ≡ 0 = omega arith in
      let z' : q' ≡ 0 = omega arith in omega (arith, ap₂ op z z', op_zero)
  op_below (suc k) q q' h h' = omega (
    arith,
    op_digit q q',
    digit_below (q % 2) (q' % 2) (omega arith) (omega arith),
    op_below k (q / 2) (q' / 2) (omega (arith, pow-suc 2 k)) (omega (arith, pow-suc 2 k)),
    pow-suc 2 k,
  )

pub differ-below : (a b : ℕ) → a < 2 → b < 2 → differ a b < 2
differ-below zero zero h k = omega arith
differ-below zero (suc zero) h k = omega arith
differ-below zero (suc (suc b)) h k = absurd (omega arith)
differ-below (suc zero) zero h k = omega arith
differ-below (suc zero) (suc zero) h k = omega arith
differ-below (suc zero) (suc (suc b)) h k = absurd (omega arith)
differ-below (suc (suc a)) b h k = absurd (omega arith)

abbrev pub or_bitwise : Bitwise
or_bitwise = record {
  op = bit_or;
  digit = max;
  op_digit = bit_or_digit;
  digit_below = λ a b h k. omega arith;
  op_zero = refl;
}

abbrev pub and_bitwise : Bitwise
and_bitwise = record {
  op = bit_and;
  digit = min;
  op_digit = bit_and_digit;
  digit_below = λ a b h k. omega arith;
  op_zero = refl;
}

abbrev pub xor_bitwise : Bitwise
xor_bitwise = record {
  op = bit_xor;
  digit = differ;
  op_digit = bit_xor_digit;
  digit_below = differ-below;
  op_zero = refl;
}

pub bit_or-ones : (k q : ℕ) → q < 2 ^ k → bit_or q (2 ^ k - 1) ≡ 2 ^ k - 1
bit_or-ones zero q h = let z : q ≡ 0 = omega arith in ap (λ t. bit_or t (2 ^ 0 - 1)) z
bit_or-ones (suc k) q h =
    let half : (2 ^ suc k - 1) / 2 ≡ 2 ^ k - 1 = omega (arith, pow-suc 2 k, pow_pos k) in
    let last : (2 ^ suc k - 1) % 2 ≡ 1 = omega (arith, pow-suc 2 k, pow_pos k) in
    omega (
      arith,
      bit_or_digit q (2 ^ suc k - 1),
      ap (bit_or (q / 2)) half,
      ap (max (q % 2)) last,
      bit_or-ones k (q / 2) (omega (arith, pow-suc 2 k)),
      pow-suc 2 k,
      pow_pos k,
    )

pub bit_and-ones : (k q : ℕ) → q < 2 ^ k → bit_and q (2 ^ k - 1) ≡ q
bit_and-ones zero q h = let z : q ≡ 0 = omega arith in ap (λ t. bit_and t (2 ^ 0 - 1)) z ∙ sym z
bit_and-ones (suc k) q h =
    let half : (2 ^ suc k - 1) / 2 ≡ 2 ^ k - 1 = omega (arith, pow-suc 2 k, pow_pos k) in
    let last : (2 ^ suc k - 1) % 2 ≡ 1 = omega (arith, pow-suc 2 k, pow_pos k) in
    omega (
      arith,
      bit_and_digit q (2 ^ suc k - 1),
      ap (bit_and (q / 2)) half,
      ap (min (q % 2)) last,
      bit_and-ones k (q / 2) (omega (arith, pow-suc 2 k)),
    )

pub bit_or-zero_right : (fuel p : ℕ) → p ≤ fuel → bit_or p 0 ≡ p
bit_or-zero_right zero p h = let z : p ≡ 0 = omega arith in ap (λ t. bit_or t 0) z ∙ sym z
bit_or-zero_right (suc fuel) zero h = refl
bit_or-zero_right (suc fuel) (suc p) h =
    omega (arith, bit_or_digit (suc p) 0, bit_or-zero_right fuel (suc p / 2) (omega arith))
