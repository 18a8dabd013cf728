-- ===== src/Net.antt =====
-- The part of Go's `net` that the program calls: `ParseIP`, `ParseCIDR`, `IPNet.Contains`, `To4`
-- and `SplitHostPort`. An address is its 16 bytes as a number; an IPv4 address is the IPv4-mapped
-- IPv6 one, as `net.IP` has it.
pub mod Parse
use talosctl_oidc.Base.{
  ℕ, ◌+◌, ◌-◌, ◌*◌, ◌/◌, ◌^◌, ◌==◌, ◌≡◌, refl, String, Bool, true, false, ◌&&◌, ◌||◌, not, Option,
  none, some, ◌>>=◌, eqb, leb, if◌then◌else◌,
}
use talosctl_oidc.Text.{cut, cut_last, has, trim_space, split}
use Parse.{parse_addr, decimal}

-- `ip.To4() != nil`
unfoldable pub is_v4 : ℕ → Bool
is_v4 ip = eqb (ip / 2 ^ 32) 0xffff

-- net.ParseIP
unfoldable pub parse_ip : String → Option ℕ
unfolding parse_addr
parse_ip s = do a ← parse_addr s; some a.1

-- net.IPNet with a mask of `ones` leading bits, counted from the first of the 16 bytes.
pub record Network : Type 0 where
  pub base : ℕ
  pub ones : ℕ

-- `ip.Mask(net.CIDRMask(…))`
abbrev pub masked : ℕ → ℕ → ℕ
masked ip ones = ip / 2 ^ (128 - ones) * 2 ^ (128 - ones)

abbrev network_of : Bool × ℕ → ℕ → Option Network
network_of (four, ip) n =
    let ones = if four then 96 + n else n in
    if leb n (if four then 32 else 128)
    then some (record { base = masked ip ones; ones = ones })
    else none

-- net.ParseCIDR
unfoldable pub parse_cidr : String → Option Network
unfolding parse_addr decimal
parse_cidr s = do parts ← cut b'/' s; a ← parse_addr parts.0; n ← decimal parts.1; network_of a n

abbrev same : Bool → Bool → Bool
same true b = b
same false b = not b

-- IPNet.Contains: the two addresses are of one family and agree on the mask's bits.
unfoldable pub contains : Network → ℕ → Bool
unfolding is_v4
contains n ip = same (is_v4 ip) (is_v4 n.base) && eqb (masked ip n.ones) (masked n.base n.ones)

-- `net.IPNet{IP: ip, Mask: net.CIDRMask(bits, bits)}`, where bits is 32 or 128.
unfoldable pub host_network : ℕ → Network
host_network ip = record { base = ip; ones = 128 }

-- The host of net.SplitHostPort, with brackets off an IPv6 address; `none` is its error.
bracketed : String → Option String
bracketed rest = do
  parts ← cut b']' rest
  port ← cut b':' parts.1
  if port.0 == "" && not (has b':' port.1) && not (has b'[' rest) && not (has b']' parts.1)
      then some parts.0
      else none

plain : String → Option String
plain s = do
  parts ← cut_last b':' s
  if has b':' parts.0 || has b'[' s || has b']' s then none else some parts.0

unfoldable pub split_host_port : String → Option String
unfolding bracketed plain
split_host_port s = elim (cut b'[' s) [
  | none ↦ plain s
  | some (before, rest) ↦ if before == "" then bracketed rest else plain s
]

-- Named on an `unfolding` line, this opens the text and address functions.
unfoldable pub addresses : Unit {0}
unfolding parse_ip parse_cidr contains host_network split_host_port cut cut_last has trim_space
    split
addresses = tt

net_tests :
    (parse_ip "10.0.0.1" ≡ some 0xffff0a000001)
    × (parse_ip "::ffff:10.0.0.1" ≡ some 0xffff0a000001)
    × (parse_ip "fe80::1%eth0" ≡ none)
    × (parse_ip "2001:db8::8:800:200c:417a" ≡ some 0x20010db80000000000080800200c417a)
    × (parse_ip "1.2.3" ≡ none)
    × (parse_ip "01.2.3.4" ≡ none)
    × (parse_ip "" ≡ none)
    × (parse_ip "1:2:3:4:5:6:7:8::" ≡ none)
    × (parse_cidr "10.1.2.3/8" ≡ some (record { base = 0xffff0a000000; ones = 104 }))
    × (parse_cidr "10.1.2.3/33" ≡ none)
    × (split_host_port "10.0.0.1:1234" ≡ some "10.0.0.1")
    × (split_host_port "[::1]:80" ≡ some "::1")
    × (split_host_port "::1:80" ≡ none)
    × (split_host_port "host" ≡ none)
unfolding addresses
net_tests = (refl, refl, refl, refl, refl, refl, refl, refl, refl, refl, refl, refl, refl, refl)
