-- ===== src/Address.antt =====
-- sylar/address.h and sylar/address.cc: socket addresses and the operations on
-- their prefixes.
-- The machine is little-endian, so byteswapOnLittleEndian swaps.
pub mod Mask
mod Swap
pub mod Ones
pub mod Order
pub mod Print
pub mod Host
mod Tests
use Prim.Native.Nat.{bit_and, bit_or, bit_xor}
use sylar_from_scratch.Base.{
  ℕ, zero, suc, ◌+◌, ◌-◌, ◌*◌, ◌/◌, ◌%◌, ◌^◌, min, Bool, true, false, not, ◌&&◌, ◌||◌, List, [],
  ◌∷◌, ◌++◌, Option, some, none, ltb, ◌==◌, if◌then◌else◌, maybe, is_some, length, take, drop, set,
  get_elem?, replicate,
}
use sylar_from_scratch.Base.Bytes.{Text, codes, same}
use sylar_from_scratch.ByteArray.Codec.{le_bytes, byteswap}

-- sockaddr_in; a field of several bytes is the number that the machine reads of it.
pub record Ipv4Address : Type 0 where
  pub sin_family : ℕ
  pub sin_port : ℕ
  pub s_addr : ℕ
  pub sin_zero : List ℕ

-- sockaddr_in6
pub record Ipv6Address : Type 0 where
  pub sin6_family : ℕ
  pub sin6_port : ℕ
  pub sin6_flowinfo : ℕ
  pub s6_addr : List ℕ
  pub sin6_scope_id : ℕ

-- sockaddr_un, with the bytes of sun_path, and m_length.
pub record UnixAddress : Type 0 where
  pub sun_family : ℕ
  pub sun_path : List ℕ
  pub m_length : ℕ

pub data Address : Type 0 where
  ipv4 : Ipv4Address → Address
  ipv6 : Ipv6Address → Address
  local : UnixAddress → Address
  unknown : ℕ → List ℕ → Address

abbrev pub af_unix : ℕ
af_unix = 1

abbrev pub af_inet : ℕ
af_inet = 2

abbrev pub af_inet6 : ℕ
af_inet6 = 10

pub ipv4_address : ℕ → ℕ → Ipv4Address
unfolding byteswap
ipv4_address address port = record {
  sin_family = af_inet;
  sin_port = byteswap 2 port;
  s_addr = byteswap 4 address;
  sin_zero = replicate 8 0;
}

pub ipv6_address : List ℕ → ℕ → Ipv6Address
unfolding byteswap
ipv6_address address port = record {
  sin6_family = af_inet6;
  sin6_port = byteswap 2 port;
  sin6_flowinfo = 0;
  s6_addr = address;
  sin6_scope_id = 0;
}

-- `CreateMask` of a type of `w` bits, which is computed in int: none where that is undefined, for
-- a shift by 32 bits or more, and for one by 31, after which the subtraction overflows.
pub create_mask : ℕ → ℕ → Option ℕ
create_mask w bits =
    if ltb w bits then none else if ltb (w - bits) 31 then some (2 ^ (w - bits) - 1) else none

-- `~` on `w` bits.
abbrev pub complement : ℕ → ℕ → ℕ
complement w x = bit_xor x (2 ^ w - 1)

-- `CountBytes`; none if the loop is not done after as many rounds.
pub count_bytes : ℕ → ℕ → Option ℕ
count_bytes zero value = none
count_bytes (suc rounds) value =
    let rest = count_bytes rounds (bit_and value (value - 1)) in
    if value == 0 then some 0 else maybe none (λ n. some (suc n)) rest

-- What an operation on a prefix returns.
pub data Made (A : Type 0) : Type 0 where
  undefined : Made A
  null : Made A
  made : A → Made A

pub broadcast_address : ℕ → Ipv4Address → Made Ipv4Address
broadcast_address prefix_len a =
    if ltb 32 prefix_len
    then null
    else maybe undefined (λ m. made (record a { s_addr = bit_or a.s_addr (byteswap 4 m) }))
        (create_mask 32 prefix_len)

pub network_address : ℕ → Ipv4Address → Made Ipv4Address
network_address prefix_len a =
    if ltb 32 prefix_len
    then null
    else maybe undefined
        (λ m. made (record a { s_addr = bit_and a.s_addr (byteswap 4 (complement 32 m)) }))
        (create_mask 32 prefix_len)

unfoldable pub subnet_mask : ℕ → Made Ipv4Address
subnet_mask prefix_len =
    maybe undefined
      (λ m. made (record {
        sin_family = af_inet;
        sin_port = 0;
        s_addr = complement 32 (byteswap 4 m);
        sin_zero = replicate 8 0;
      }))
      (create_mask 32 prefix_len)

pub get_port : Ipv4Address → ℕ
unfolding byteswap
get_port a = byteswap 2 a.sin_port

pub set_port : ℕ → Ipv4Address → Ipv4Address
unfolding byteswap
set_port v a = record a { sin_port = byteswap 2 v }

-- The loops of IPv6: the bytes from the n-th on, and those before it.
pub fill_from : ℕ → ℕ → List ℕ → List ℕ
fill_from x n [] = []
fill_from x zero (b ∷ bs) = x ∷ fill_from x zero bs
fill_from x (suc n) (b ∷ bs) = b ∷ fill_from x n bs

pub fill_to : ℕ → ℕ → List ℕ → List ℕ
fill_to x n [] = []
fill_to x zero (b ∷ bs) = b ∷ bs
fill_to x (suc n) (b ∷ bs) = x ∷ fill_to x n bs

-- The byte of the prefix is changed by its mask; there is none for a prefix of 128 or more.
abbrev pub change_byte : (ℕ → ℕ → ℕ) → ℕ → List ℕ → Option (List ℕ)
change_byte f prefix_len bs =
    maybe none
      (λ b.
        maybe none (λ m. some (set bs (prefix_len / 8) (f b m))) (create_mask 8 (prefix_len % 8)))
      (get_elem? bs (prefix_len / 8))

pub broadcast_address6 : ℕ → Ipv6Address → Made Ipv6Address
unfolding fill_from
broadcast_address6 prefix_len a =
    maybe undefined (λ bs. made (record a { s6_addr = fill_from 255 (prefix_len / 8 + 1) bs }))
      (change_byte bit_or prefix_len a.s6_addr)

pub network_address6 : ℕ → Ipv6Address → Made Ipv6Address
unfolding fill_from
network_address6 prefix_len a =
    maybe undefined (λ bs. made (record a { s6_addr = fill_from 0 (prefix_len / 8 + 1) bs }))
      (change_byte bit_and prefix_len a.s6_addr)

pub subnet_mask6 : ℕ → Made Ipv6Address
unfolding fill_to
subnet_mask6 prefix_len =
    maybe undefined
      (λ bs. made (record {
        sin6_family = af_inet6;
        sin6_port = 0;
        sin6_flowinfo = 0;
        s6_addr = fill_to 255 (prefix_len / 8) bs;
        sin6_scope_id = 0;
      }))
      (change_byte (λ b m. complement 8 m) prefix_len (replicate 16 0))

-- What `GetInterfaceAddresses` says of a netmask.
pub sum_bytes : List ℕ → Option ℕ
unfolding count_bytes
sum_bytes [] = some 0
sum_bytes (b ∷ bs) =
    maybe none (λ n. maybe none (λ m. some (n + m)) (sum_bytes bs)) (count_bytes 9 b)

pub prefix_length : Ipv4Address → Option ℕ
unfolding count_bytes
prefix_length netmask = count_bytes 33 netmask.s_addr

pub prefix_length6 : Ipv6Address → Option ℕ
unfolding sum_bytes
prefix_length6 netmask = sum_bytes netmask.s6_addr
