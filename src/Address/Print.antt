-- ===== src/Address/Print.antt =====
-- sylar/address.cc: the texts of addresses, and the paths of Unix addresses.
-- What a stream prints of a number is an argument, `hex` with std::hex and `dec` without.
pub mod Short
pub mod Path
use Prim.Native.Nat.{bit_and}
use sylar_from_scratch.Base.{
  ℕ, zero, suc, ◌+◌, ◌-◌, ◌*◌, ◌/◌, ◌%◌, ◌^◌, ◌≤◌, ◌<◌, min, Bool, true, false, not, ◌&&◌, ◌||◌,
  List, [], ◌∷◌, ◌++◌, Option, some, none, ltb, ◌==◌, if◌then◌else◌, maybe, is_some, length, take,
  drop, set, get_elem?, replicate, ◌≡◌, refl, sym, ap, ap₂, ◌∙◌, ◌⊎◌, inl, inr, All, Bool-cases,
  ==→eq, eq→==, ltb→lt, ltb→le, lt→ltb, le→ltb, ne→==, arith, append_assoc, append-nil,
  length-append, Option-cases, length-take, length-replicate, take-append_self,
}
use sylar_from_scratch.Base.Bytes.{Text, codes, same}
use sylar_from_scratch.ByteArray.Codec.{le_bytes, byteswap}
use sylar_from_scratch.Address.{
  Address, Ipv4Address, Ipv6Address, UnixAddress, ipv4, ipv6, local, unknown, af_unix,
}

-- `insert` of IPv4.
pub print_ipv4 : (ℕ → Text) → Ipv4Address → Text
unfolding byteswap
print_ipv4 dec a =
    let addr = byteswap 4 a.s_addr in
    dec (bit_and (addr / 2 ^ 24) 255)
    ++ 46 ∷ dec (bit_and (addr / 2 ^ 16) 255)
    ++ 46 ∷ dec (bit_and (addr / 2 ^ 8) 255)
    ++ 46 ∷ dec (bit_and addr 255)
    ++ 58 ∷ dec (byteswap 2 a.sin_port)

-- The loop of `insert` of IPv6 over the groups, with the one before, if any, and `used_zeros`.
unfoldable pub print_groups : (ℕ → Text) → Option ℕ → Bool → List ℕ → Text × Bool
print_groups hex before used_zeros [] = ([], used_zeros)
print_groups hex before used_zeros (g ∷ gs) =
    let colon = maybe false (λ b. b == 0 && not used_zeros) before in
    let skipped = print_groups hex (some g) used_zeros gs in
    let (text, used) = print_groups hex (some g) (used_zeros || colon) gs in
    if g == 0 && not used_zeros then skipped else (
      (if colon then 58 ∷ [] else []) ++ (if is_some before then 58 ∷ [] else []) ++ hex g ++ text,
      used,
    )

-- The groups, swapped to the order of the host, of which the zeros are the same.
pub groups_of : List ℕ → List ℕ
groups_of [] = []
groups_of (h ∷ []) = []
groups_of (h ∷ l ∷ bs) = (h * 256 + l) ∷ groups_of bs

-- addr[7] is the last of the eight.
unfoldable pub last_is_zero : List ℕ → Bool
last_is_zero [] = false
last_is_zero (g ∷ []) = g == 0
last_is_zero (g ∷ h ∷ gs) = last_is_zero (h ∷ gs)

unfoldable pub print_address : (ℕ → Text) → List ℕ → Text
unfolding print_groups last_is_zero
print_address hex groups =
    let (text, used_zeros) = print_groups hex none false groups in
    text ++ (if not used_zeros && last_is_zero groups then codes "::" else [])

pub print_ipv6 : (ℕ → Text) → (ℕ → Text) → Ipv6Address → Text
unfolding print_address groups_of byteswap
print_ipv6 hex dec a =
    91 ∷ print_address hex (groups_of a.s6_addr) ++ 93 ∷ 58 ∷ dec (byteswap 2 a.sin6_port)

-- The constructor of UnixAddress; none is std::logic_error. sun_path has 108 bytes after 2 others.
abbrev pub path_length : Text → ℕ
path_length [] = 1
path_length (c ∷ path) = if c == 0 then suc (length path) else suc (suc (length path))

pub unix_address : Text → Option UnixAddress
unix_address path =
    if ltb 108 (path_length path)
    then none
    else some (record {
      sun_family = af_unix;
      sun_path = path ++ replicate (108 - length path) 0;
      m_length = path_length path + 2;
    })

-- What a stream prints of a C string; none where it has no end in its array, behind which the
-- source would read on.
pub c_str : List ℕ → Option Text
c_str [] = none
c_str (c ∷ cs) =
    let rest = c_str cs in if c == 0 then some [] else maybe none (λ t. some (c ∷ t)) rest

-- `getPath`
pub get_path : UnixAddress → Option Text
unfolding c_str
get_path a =
    if ltb 2 a.m_length && maybe false (λ c. c == 0) (get_elem? a.sun_path 0)
    then some (codes "\\0" ++ take (a.m_length - 2 - 1) (drop 1 a.sun_path))
    else c_str a.sun_path
