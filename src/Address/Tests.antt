-- ===== src/Address/Tests.antt =====
-- 192.168.5.7/24, ::1 and other small addresses.
use sylar_from_scratch.Base.{
  ℕ, ◌+◌, ◌*◌, ◌^◌, ◌-◌, true, List, [], ◌∷◌, some, none, if◌then◌else◌, replicate, ◌≡◌, refl,
  arith,
}
use sylar_from_scratch.Base.Bytes.{Text, codes}
use mathlib.Core.Option
use sylar_from_scratch.Address.{
  Address, Ipv4Address, ipv4, ipv6, made, undefined, ipv4_address, ipv6_address, network_address,
  broadcast_address, subnet_mask, prefix_length, broadcast_address6, network_address6, create_mask,
  fill_from,
}
use sylar_from_scratch.Address.Mask.{masks_lem}
use sylar_from_scratch.Address.Ones.{ones, prefix_length_lem}
use sylar_from_scratch.Address.Order.{get_addr, lexicographic, tests, tests_lem, verdict}
use sylar_from_scratch.Address.Print.{
  print_address, print_groups, last_is_zero, unix_address, get_path,
}
use sylar_from_scratch.Address.Print.Short.{Shown, print_address_lem}
use sylar_from_scratch.Address.Print.Path.{shown_path, is_path, has_room, get_path-unix_address}
use sylar_from_scratch.Address.Host.{
  split_host, write_host, meaning, is_written, bracketed_with_service, split_host-write_host,
}

masks_lem_example :
    (network_address 24 (ipv4_address (12625925 * 2 ^ 8 + 7) 80)
      ≡ made (ipv4_address (12625925 * 2 ^ 8) 80))
    × (broadcast_address 24 (ipv4_address (12625925 * 2 ^ 8 + 7) 80)
        ≡ made (ipv4_address (12625925 * 2 ^ 8 + (2 ^ 8 - 1)) 80))
    × (subnet_mask 24 ≡ made (ipv4_address ((2 ^ 24 - 1) * 2 ^ 8) 0))
masks_lem_example = masks_lem 24 8 12625925 7 80 refl (omega arith) (omega arith) (omega arith)

abbrev netmask : Ipv4Address
netmask = record { sin_family = 2; sin_port = 0; s_addr = 0x00ff_ffff; sin_zero = replicate 8 0 }

prefix_length_lem_example : prefix_length netmask ≡ some (ones 32 0x00ff_ffff)
prefix_length_lem_example = prefix_length_lem netmask (omega arith)

ones_netmask : ones 32 0x00ff_ffff ≡ 24
unfolding ones
ones_netmask = refl

abbrev one_digit : ℕ → Text
one_digit n = (48 + n) ∷ []

abbrev groups : List ℕ
groups = 1 ∷ 0 ∷ 0 ∷ 2 ∷ 0 ∷ 0 ∷ 0 ∷ 3 ∷ []

print_address_lem_example : Shown one_digit groups (print_address one_digit groups)
print_address_lem_example = print_address_lem one_digit groups

print_small : print_address one_digit groups ≡ codes "1::2:0:0:0:3"
unfolding print_address print_groups last_is_zero
print_small = refl

print_any : print_address one_digit (replicate 8 0) ≡ codes "::"
unfolding print_address print_groups last_is_zero
print_any = refl

brackets : is_written (bracketed_with_service (codes "::1") (codes "80")) ≡ true
unfolding is_written
brackets = refl

split_host-write_host_example :
    split_host (write_host (bracketed_with_service (codes "::1") (codes "80")))
    ≡ meaning (bracketed_with_service (codes "::1") (codes "80"))
split_host-write_host_example =
    split_host-write_host (bracketed_with_service (codes "::1") (codes "80")) brackets

abbrev near : Address
near = ipv4 netmask

abbrev far : Address
far = ipv6 (record {
  sin6_family = 10;
  sin6_port = 0;
  sin6_flowinfo = 0;
  s6_addr = replicate 16 1;
  sin6_scope_id = 0;
})

tests_lem_example : tests near far ≡ verdict (lexicographic (get_addr near) (get_addr far))
tests_lem_example = tests_lem near far

tmp_is_path : is_path (codes "/tmp/x") ≡ true
unfolding is_path
tmp_is_path = refl

get_path-unix_address_example :
    Option.map get_path (unix_address (codes "/tmp/x"))
    ≡ (if has_room (codes "/tmp/x") then some (some (shown_path (codes "/tmp/x"))) else none)
get_path-unix_address_example = get_path-unix_address (codes "/tmp/x") tmp_is_path

-- fe80::1/12 in IPv6: broadcastAddress keeps the network, networkAddress keeps a part of the host.
broadcast6_small :
    broadcast_address6 12 (ipv6_address (0xfe ∷ 0x80 ∷ replicate 14 1) 0)
    ≡ made (ipv6_address (0xfe ∷ 0x8f ∷ replicate 14 0xff) 0)
unfolding broadcast_address6 create_mask fill_from ipv6_address
broadcast6_small = refl

network6_small :
    network_address6 12 (ipv6_address (0xfe ∷ 0x85 ∷ replicate 14 1) 0)
    ≡ made (ipv6_address (0xfe ∷ 0x05 ∷ replicate 14 0) 0)
unfolding network_address6 create_mask fill_from ipv6_address
network6_small = refl

network6_whole : network_address6 128 (ipv6_address (replicate 16 1) 0) ≡ undefined
unfolding network_address6 create_mask fill_from ipv6_address
network6_whole = refl
