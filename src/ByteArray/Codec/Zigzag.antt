-- ===== src/ByteArray/Codec/Zigzag.antt =====
-- The zigzag coding of signed integers.
use Prim.Native.Nat.{bit_xor, bit_and}
use native.Mathlib.Nat.{pow-suc, mod-eq_of_lt, mod_self, add-mod_right}
use sylar_from_scratch.Base.{
  ℕ, suc, ◌+◌, ◌-◌, ◌*◌, ◌/◌, ◌%◌, ◌^◌, ◌≤◌, ◌<◌, ◌≡◌, ◌∙◌, ◌⊎◌, inl, inr, arith, leb, leb→le,
  leb→lt, Bool-cases,
}
use sylar_from_scratch.Base.Bits.{bit_xor-ones, bit_xor-zero_right, bit_and-1, pow_pos}
use sylar_from_scratch.ByteArray.Codec.{encode_zigzag, decode_zigzag, negate}

-- The branch for negative numbers, with `m` for the number of bit patterns.
encode_negative :
    (half m v : ℕ)
    → m ≡ half * 2
    → 1 ≤ half
    → half ≤ v
    → v < m
    → ((m - v) % m * 2 + m - 1) % m ≡ 2 * (m - v) - 1
encode_negative half m v double one le h =
    let small : (m - v) % m ≡ m - v = mod-eq_of_lt (omega arith) in
    let wrap : (m - v) * 2 + m - 1 ≡ (m - v) * 2 - 1 + m = omega arith in
    rw (small, wrap, add-mod_right ((m - v) * 2 - 1) m)
      (mod-eq_of_lt {n = (m - v) * 2 - 1} (omega arith) ∙ omega arith)

decode_even : (w v : ℕ) → bit_xor (2 * v / 2) (negate w (bit_and (2 * v) 1)) ≡ v
unfolding negate
decode_even w v =
    let half : 2 * v / 2 ≡ v = omega arith in
    let last : bit_and (2 * v) 1 ≡ 0 = omega (arith, bit_and-1 (2 * v)) in
    let none : 2 ^ w - 0 ≡ 2 ^ w = omega arith in
    rw (half, last, none, mod_self (2 ^ w)) (bit_xor-zero_right v)

decode_odd :
    (w n : ℕ)
    → 1 ≤ n
    → n ≤ 2 ^ w
    → bit_xor ((2 * n - 1) / 2) (negate w (bit_and (2 * n - 1) 1)) ≡ 2 ^ w - n
unfolding negate
decode_odd w n one le =
    let half : (2 * n - 1) / 2 ≡ n - 1 = omega arith in
    let last : bit_and (2 * n - 1) 1 ≡ 1 = omega (arith, bit_and-1 (2 * n - 1)) in
    let ones : (2 ^ w - 1) % 2 ^ w ≡ 2 ^ w - 1 = mod-eq_of_lt (omega (arith, pow_pos w)) in
    rw (half, last, ones, bit_xor-ones w (n - 1) (omega arith)) (omega arith)

-- The code of a number that is not negative is its double; that of `-n` is `2 * n - 1`.
-- `v` stands for the bits of a signed integer of `k + 1` bits.
pub encode_zigzag-cases :
    (k v : ℕ)
    → v < 2 ^ suc k
    → ((v < 2 ^ k) × (encode_zigzag (suc k) v ≡ 2 * v))
      ⊎ ((2 ^ k ≤ v) × (encode_zigzag (suc k) v ≡ 2 * (2 ^ suc k - v) - 1))
unfolding encode_zigzag
encode_zigzag-cases k v h =
    let half : suc k - 1 ≡ k = omega arith in
    let double : 2 ^ suc k ≡ 2 ^ k * 2 = pow-suc 2 k in
    elim (Bool-cases (leb (2 ^ k) v)) [
      | inl neg ↦
          let le : 2 ^ k ≤ v = leb→le _ _ neg in
          inr (le, rw (half, neg) (encode_negative (2 ^ k) (2 ^ suc k) v double (pow_pos k) le h))
      | inr pos ↦
          let lt : v < 2 ^ k = leb→lt _ _ pos in
          inl (lt, rw (half, pos) (mod-eq_of_lt {n = v * 2} (omega (arith, double)) ∙ omega arith))
    ]

-- Decoding gives back the bits of every integer of `k + 1` bits.
pub decode_zigzag-encode_zigzag :
    (k v : ℕ) → v < 2 ^ suc k → decode_zigzag (suc k) (encode_zigzag (suc k) v) ≡ v
unfolding decode_zigzag
decode_zigzag-encode_zigzag k v h =
    let double : 2 ^ suc k ≡ 2 ^ k * 2 = pow-suc 2 k in
    elim (encode_zigzag-cases k v h) [
      | inl (lt, e) ↦ rw e (decode_even (suc k) v)
      | inr (le, e) ↦
          rw e
            (decode_odd (suc k) (2 ^ suc k - v) (omega arith) (omega (arith, double)) ∙ omega arith)
    ]
