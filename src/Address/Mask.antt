-- ===== src/Address/Mask.antt =====
-- sylar/address.cc, IPv4Address: what the operations on a prefix do to the number of the network and to
-- that of the host.
use Prim.Native.Nat.{bit_and, bit_or, bit_xor}
use native.Mathlib.Nat.{pow-suc}
use sylar_from_scratch.Base.{
  ℕ, zero, suc, ◌+◌, ◌-◌, ◌*◌, ◌^◌, ◌≤◌, ◌<◌, ◌≡◌, refl, sym, ap, ap₂, ◌∙◌, arith, some, ltb,
  lt→ltb, le→ltb, false,
}
use sylar_from_scratch.Base.Bits.{pow_pos, bit_and-zero_right, bit_xor-ones}
use sylar_from_scratch.Base.Join.{
  op_join, or_bitwise, and_bitwise, xor_bitwise, bit_or-ones, bit_and-ones, bit_or-zero_right,
}
use sylar_from_scratch.ByteArray.Codec.{byteswap, le_bytes, le_value}
use sylar_from_scratch.Address.{
  made, create_mask, complement, broadcast_address, network_address, subnet_mask, ipv4_address,
}
use sylar_from_scratch.Address.Swap.{byteswap-op}

create_mask_lem : (n k : ℕ) → n + k ≡ 32 → 2 ≤ n → create_mask 32 n ≡ some (2 ^ k - 1)
unfolding create_mask
create_mask_lem n k e h =
    let shift : 32 - n ≡ k = omega arith in
    rw (le→ltb 32 n (omega arith), shift, lt→ltb k 31 (omega arith)) refl

-- The swapped operation on two swapped numbers.
swapped_or :
    (x y : ℕ)
    → x < 2 ^ 32
    → y < 2 ^ 32
    → bit_or (byteswap 4 x) (byteswap 4 y) ≡ byteswap 4 (bit_or x y)
swapped_or x y h k = sym (byteswap-op or_bitwise x y h k)

swapped_and :
    (x y : ℕ)
    → x < 2 ^ 32
    → y < 2 ^ 32
    → bit_and (byteswap 4 x) (byteswap 4 y) ≡ byteswap 4 (bit_and x y)
swapped_and x y h k = sym (byteswap-op and_bitwise x y h k)

pow-plus : (n k : ℕ) → 2 ^ (n + k) ≡ 2 ^ n * 2 ^ k
pow-plus zero k = let e : 0 + k ≡ k = omega arith in rw (e) (omega arith)
pow-plus (suc n) k =
    let e : suc n + k ≡ suc (n + k) = omega arith in
    let p : 2 ^ n * 2 ^ k * 2 ≡ 2 ^ n * 2 * 2 ^ k = grind arith in
    rw (e, pow-suc 2 (n + k), pow-suc 2 n, pow-plus n k) (grind arith)

pred_times : (a b : ℕ) → 1 ≤ a → (a - 1) * b ≡ a * b - b
pred_times zero b h = absurd (omega arith)
pred_times (suc a) b h = let e : suc a - 1 ≡ a = omega arith in rw e (grind arith)

-- A network number of n bits above a host number of k bits.
module _ (n k network host : ℕ) (e : n + k ≡ 32) (below : network < 2 ^ n)
    (within : host < 2 ^ k) where
  whole : 2 ^ n * 2 ^ k ≡ 2 ^ 32
  whole = sym (pow-plus n k) ∙ ap (λ t. 2 ^ t) e

  ones-below : 2 ^ k - 1 < 2 ^ 32
  ones-below = grind (arith, whole, pow_pos n, pow_pos k)

  joined-below : network * 2 ^ k + host < 2 ^ 32
  joined-below = grind (arith, whole, below, within)

  swap_sum : network * 2 ^ k + host ≡ host + network * 2 ^ k
  swap_sum = omega arith

  last_sum : 2 ^ k - 1 ≡ 2 ^ k - 1 + 0 * 2 ^ k
  last_sum = omega arith

  upper_sum : (2 ^ n - 1) * 2 ^ k ≡ 0 + (2 ^ n - 1) * 2 ^ k
  upper_sum = omega arith

  or_ones : bit_or (network * 2 ^ k + host) (2 ^ k - 1) ≡ network * 2 ^ k + (2 ^ k - 1)
  or_ones =
      ap₂ bit_or swap_sum last_sum
      ∙ op_join or_bitwise k network host 0 (2 ^ k - 1) within (omega (arith, pow_pos k))
      ∙ omega (
        arith,
        bit_or-ones k host within,
        ap (λ t. t * 2 ^ k) (bit_or-zero_right network network (omega arith)),
      )

  complement_ones : complement 32 (2 ^ k - 1) ≡ (2 ^ n - 1) * 2 ^ k
  complement_ones =
      bit_xor-ones 32 (2 ^ k - 1) ones-below
      ∙ omega (arith, whole, pow_pos k, pred_times (2 ^ n) (2 ^ k) (pow_pos n))

  and_complement : bit_and (network * 2 ^ k + host) (complement 32 (2 ^ k - 1)) ≡ network * 2 ^ k
  and_complement =
      ap₂ bit_and swap_sum (complement_ones ∙ upper_sum)
      ∙ op_join and_bitwise k network host (2 ^ n - 1) 0 within (omega (arith, pow_pos k))
      ∙ omega (arith, bit_and-zero_right host, ap (λ t. t * 2 ^ k) (bit_and-ones n network below))

swapped_ones : 2 ^ 32 - 1 ≡ byteswap 4 (2 ^ 32 - 1)
unfolding byteswap le_bytes le_value
swapped_ones = refl

swapped_zero : byteswap 2 0 ≡ 0
unfolding byteswap le_bytes le_value
swapped_zero = refl

network_made :
    (n m a port r : ℕ)
    → ltb 32 n ≡ false
    → create_mask 32 n ≡ some m
    → bit_and (byteswap 4 a) (byteswap 4 (complement 32 m)) ≡ byteswap 4 r
    → network_address n (ipv4_address a port) ≡ made (ipv4_address r port)
unfolding network_address ipv4_address
network_made n m a port r small e h = rw (small, e, h) refl

broadcast_made :
    (n m a port r : ℕ)
    → ltb 32 n ≡ false
    → create_mask 32 n ≡ some m
    → bit_or (byteswap 4 a) (byteswap 4 m) ≡ byteswap 4 r
    → broadcast_address n (ipv4_address a port) ≡ made (ipv4_address r port)
unfolding broadcast_address ipv4_address
broadcast_made n m a port r small e h = rw (small, e, h) refl

mask_made :
    (n m r : ℕ)
    → create_mask 32 n ≡ some m
    → complement 32 (byteswap 4 m) ≡ byteswap 4 r
    → subnet_mask n ≡ made (ipv4_address r 0)
unfolding subnet_mask ipv4_address
mask_made n m r e h = let z : byteswap 2 0 ≡ 0 = swapped_zero in rw (e, h, z) refl

-- On an address of which the first n bits are the number of the network and the others that of the
-- host, for n from 2 to 32: networkAddress makes the host number zero, broadcastAddress makes its
-- bits ones, both keep the port and the network, and subnetMask is the address of which the bits of
-- the network are ones and those of the host zeros.
pub masks_lem :
    (n k network host port : ℕ)
    → n + k ≡ 32
    → 2 ≤ n
    → network < 2 ^ n
    → host < 2 ^ k
    → (network_address n (ipv4_address (network * 2 ^ k + host) port)
        ≡ made (ipv4_address (network * 2 ^ k) port))
      × (broadcast_address n (ipv4_address (network * 2 ^ k + host) port)
          ≡ made (ipv4_address (network * 2 ^ k + (2 ^ k - 1)) port))
      × (subnet_mask n ≡ made (ipv4_address ((2 ^ n - 1) * 2 ^ k) 0))
masks_lem n k network host port e h below within =
    let some_mask = create_mask_lem n k e h in
    let small : ltb 32 n ≡ false = le→ltb 32 n (omega arith) in
    let mask-below = ones-below n k network host e below within in
    let addr-below = joined-below n k network host e below within in
    let a = network * 2 ^ k + host in
    let m = 2 ^ k - 1 in
    let upper = complement_ones n k network host e below within in
    let upper-below : complement 32 m < 2 ^ 32 = omega (arith, bit_xor-ones 32 m mask-below) in
    (
      network_made n m a port (network * 2 ^ k) small some_mask (
          swapped_and a (complement 32 m) addr-below upper-below
          ∙ ap (byteswap 4) (and_complement n k network host e below within)),
      broadcast_made n m a port (network * 2 ^ k + m) small some_mask (
          swapped_or a m addr-below mask-below
          ∙ ap (byteswap 4) (or_ones n k network host e below within)),
      mask_made n m ((2 ^ n - 1) * 2 ^ k) some_mask (
          ap (bit_xor (byteswap 4 m)) swapped_ones
          ∙ sym (byteswap-op xor_bitwise m (2 ^ 32 - 1) mask-below (omega arith))
          ∙ ap (byteswap 4) upper),
    )
