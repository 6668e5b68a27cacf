-- ===== src/Address/Ones.antt =====
-- sylar/address.cc, CountBytes and its use on netmasks.
use Prim.Native.Nat.{bit_and, bit_and-bitwise}
use native.Mathlib.Nat.{pow-suc, le_refl}
use mathlib.Core.Bool.{false≢true}
use sylar_from_scratch.Base.{
  leb, lt→leb, ℕ, zero, suc, ◌+◌, ◌-◌, ◌*◌, ◌/◌, ◌%◌, ◌^◌, ◌≤◌, ◌<◌, Bool, true, false, ◌||◌,
  Option, some, none, ◌==◌, maybe, ◌≡◌, refl, sym, ap, ◌∙◌, inl, inr, Bool-cases, ==→eq, ==→ne,
  arith,
}
use sylar_from_scratch.Base.Bits.{bit_and_digit}
use sylar_from_scratch.Base.Bytes.{all_below, all_below_lem}
use sylar_from_scratch.ByteArray.Codec.{byteswap}
use sylar_from_scratch.Address.{
  create_mask, Ipv4Address, Ipv6Address, Made, undefined, null, made, count_bytes, prefix_length,
  prefix_length6, subnet_mask, subnet_mask6,
}

-- The number of ones among the lowest `w` binary digits.
unfoldable pub ones : ℕ → ℕ → ℕ
ones zero v = 0
ones (suc w) v = v % 2 + ones w (v / 2)

ones-zero : (w : ℕ) → ones w 0 ≡ 0
unfolding ones
ones-zero zero = refl
ones-zero (suc w) = omega (arith, ones-zero w)

ones-le : (w v : ℕ) → ones w v ≤ w
unfolding ones
ones-le zero v = omega arith
ones-le (suc w) v = omega (arith, ones-le w (v / 2))

bit_and-fuel : (fuel a : ℕ) → a ≤ fuel → bit_and a a ≡ a
bit_and-fuel zero zero h = simp bit_and-bitwise refl
bit_and-fuel zero (suc a) h = absurd (omega arith)
bit_and-fuel (suc fuel) zero h = simp bit_and-bitwise refl
bit_and-fuel (suc fuel) (suc a) h =
    omega (arith, bit_and_digit (suc a) (suc a), bit_and-fuel fuel (suc a / 2) (omega arith))

bit_and_le : (fuel a b : ℕ) → a ≤ fuel → bit_and a b ≤ a
bit_and_le zero zero b h = simp bit_and-bitwise (omega arith)
bit_and_le zero (suc a) b h = absurd (omega arith)
bit_and_le (suc fuel) zero b h = simp bit_and-bitwise (omega arith)
bit_and_le (suc fuel) (suc a) b h =
    omega (arith, bit_and_digit (suc a) b, bit_and_le fuel (suc a / 2) (b / 2) (omega arith))

ones-double : (w v d r : ℕ) → v ≡ d * 2 + r → r < 2 → ones (suc w) v ≡ r + ones w d
unfolding ones
ones-double w v d r e h =
    let half : v / 2 ≡ d = omega arith in let last : v % 2 ≡ r = omega arith in rw (half, last) refl

-- One round removes the lowest one.
ones-bit_and : (w v : ℕ) → v < 2 ^ w → 0 < v → suc (ones w (bit_and v (v - 1))) ≡ ones w v
ones-bit_and zero v h p = absurd (omega arith)
ones-bit_and (suc w) v h p = elim (Bool-cases (v % 2 == 1)) [
  | inl t ↦
      let odd : v % 2 ≡ 1 = ==→eq (v % 2) 1 t in
      let half : (v - 1) / 2 ≡ v / 2 = omega arith in
      let digits : bit_and v (v - 1) ≡ v / 2 * 2 + 0 = omega (
        arith,
        bit_and_digit v (v - 1),
        ap (bit_and (v / 2)) half,
        bit_and-fuel (v / 2) (v / 2) (le_refl (v / 2)),
      ) in
      omega (
        arith,
        ones-double w (bit_and v (v - 1)) (v / 2) 0 digits (omega arith),
        ones-double w v (v / 2) 1 (omega arith) (omega arith),
      )
  | inr f ↦
      let even : v % 2 ≡ 0 = omega (arith, ==→ne (v % 2) 1 f) in
      let half : (v - 1) / 2 ≡ v / 2 - 1 = omega arith in
      let digits : bit_and v (v - 1) ≡ bit_and (v / 2) (v / 2 - 1) * 2 + 0 =
        omega (arith, bit_and_digit v (v - 1), ap (bit_and (v / 2)) half) in
      omega (
        arith,
        ones-double w (bit_and v (v - 1)) (bit_and (v / 2) (v / 2 - 1)) 0 digits (omega arith),
        ones-double w v (v / 2) 0 (omega arith) (omega arith),
        ones-bit_and w (v / 2) (omega (arith, pow-suc 2 w)) (omega arith),
      )
]

-- The loop of CountBytes ends on a value of `w` bits within one round more than it has ones, and
-- counts the ones.
pub count_bytes_lem :
    (w rounds value : ℕ)
    → value < 2 ^ w
    → ones w value < rounds
    → count_bytes rounds value ≡ some (ones w value)
unfolding count_bytes
count_bytes_lem w zero value h k = absurd (omega arith)
count_bytes_lem w (suc rounds) value h k = elim (Bool-cases (value == 0)) [
  | inl t ↦
      let e : value ≡ 0 = ==→eq value 0 t in rw (t) (ap some (sym (ap (ones w) e ∙ ones-zero w)))
  | inr f ↦
      let p : 0 < value = omega (arith, ==→ne value 0 f) in
      let less = ones-bit_and w value h p in
      rw
        (
          f,
          count_bytes_lem w rounds (bit_and value (value - 1))
              (omega (arith, bit_and_le value value (value - 1) (le_refl value)))
              (omega (arith, less)),
        )
        (ap some less)
]

-- CountBytes ends on the netmask of an interface, and answers the number of its ones.
pub prefix_length_lem :
    (netmask : Ipv4Address)
    → netmask.s_addr < 2 ^ 32
    → prefix_length netmask ≡ some (ones 32 netmask.s_addr)
unfolding prefix_length
prefix_length_lem netmask h =
    count_bytes_lem 32 33 netmask.s_addr h (omega (arith, ones-le 32 netmask.s_addr))

-- The prefix length of a netmask that was made.
unfoldable pub of_mask : Made Ipv4Address → Option ℕ
of_mask undefined = none
of_mask null = none
of_mask (made a) = prefix_length a

unfoldable pub of_mask6 : Made Ipv6Address → Option ℕ
of_mask6 undefined = none
of_mask6 null = none
of_mask6 (made a) = prefix_length6 a

abbrev is_some_of : ℕ → Option ℕ → Bool
is_some_of n o = maybe false (λ m. m == n) o

is_some_of-eq : (n : ℕ) (o : Option ℕ) → is_some_of n o ≡ true → o ≡ some n
is_some_of-eq n none h = absurd (false≢true h)
is_some_of-eq n (some m) h = ap some (==→eq m n h)

masks_table : all_below 33 (λ n. leb n 1 || is_some_of n (of_mask (subnet_mask n))) ≡ true
unfolding all_below of_mask subnet_mask prefix_length create_mask byteswap
masks_table = refl

masks6_table : all_below 128 (λ n. is_some_of n (of_mask6 (subnet_mask6 n))) ≡ true
unfolding all_below of_mask6 subnet_mask6 prefix_length6 create_mask
masks6_table = refl

-- The number of ones of the subnet mask of a prefix length is that length, of IPv4 from 2 to 32.
pub of_mask-subnet_mask : (n : ℕ) → 2 ≤ n → n ≤ 32 → of_mask (subnet_mask n) ≡ some n
of_mask-subnet_mask n h k =
    let row =
      all_below_lem 33 (λ n. leb n 1 || is_some_of n (of_mask (subnet_mask n))) n masks_table
        (omega arith) in
    let e : leb n 1 ≡ false = lt→leb n 1 (omega arith) in
    is_some_of-eq n (of_mask (subnet_mask n))
      (sym (ap (λ b. b || is_some_of n (of_mask (subnet_mask n))) e) ∙ row)

-- The same of IPv6, up to 127.
pub of_mask6-subnet_mask6 : (n : ℕ) → n < 128 → of_mask6 (subnet_mask6 n) ≡ some n
of_mask6-subnet_mask6 n h =
    is_some_of-eq n (of_mask6 (subnet_mask6 n))
      (all_below_lem 128 (λ n. is_some_of n (of_mask6 (subnet_mask6 n))) n masks6_table h)
