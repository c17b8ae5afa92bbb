-- ===== src/Discovery/IpRange.antt =====
-- internal/discovery/iprange.go.
pub mod Usable
pub mod Inside
use network_enumerator.Common.{
  ℕ, zero, suc, ◌+◌, ◌-◌, ◌*◌, ◌/◌, ◌%◌, ◌^◌, Bool, true, false, ◌&&◌, ◌||◌, not, Option, none,
  some, List, [], ◌∷◌, ltb, leb, ◌==◌, if◌then◌else◌, length, take, drop, text_eq,
}

-- `net.IP`: 4 or 16 bytes.
abbrev pub Ip : Type 0
Ip = List ℕ

-- What `net.ParseCIDR` returns if it succeeds: the address, the address of the network, and the
-- numbers of leading ones and of bits of the mask.
pub record Parsed : Type 0 where
  pub ip : Ip
  pub net_ip : Ip
  pub ones : ℕ
  pub bits : ℕ

-- The first bytes of an IPv4 address mapped into IPv6.
abbrev pub mapped_prefix : List ℕ
mapped_prefix = 0 ∷ 0 ∷ 0 ∷ 0 ∷ 0 ∷ 0 ∷ 0 ∷ 0 ∷ 0 ∷ 0 ∷ 255 ∷ 255 ∷ []

-- `ip.To4()`, where `none` is nil.
unfoldable pub to4 : Ip → Option Ip
to4 ip =
    if length ip == 4
    then some ip
    else if (length ip == 16) && text_eq (take 12 ip) mapped_prefix
    then some (drop 12 ip)
    else none

-- `binary.BigEndian.Uint32` of 4 bytes.
abbrev pub big_endian : ℕ → Ip → ℕ
big_endian n [] = n
big_endian n (b ∷ ip) = big_endian (n * 256 + b) ip

-- `binary.BigEndian.PutUint32` of an unsigned 32-bit sum.
abbrev pub put_uint32 : ℕ → Ip
put_uint32 n = n / 16777216 % 256 ∷ n / 65536 % 256 ∷ n / 256 % 256 ∷ n % 256 ∷ []

-- The loop from `i` on, with `len` addresses in `out`. The fuel bounds the rounds left.
unfoldable pub expand_loop : ℕ → Bool → ℕ → ℕ → ℕ → ℕ → ℕ → List Ip
expand_loop zero skip total max start i len = []
expand_loop (suc fuel) skip total max start i len =
    let skipped = skip && ((i == 0) || (i == total - 1)) in
    let rest = expand_loop fuel skip total max start (suc i) (if skipped then len else suc len) in
    if ltb i total && ltb len max
    then (if skipped then rest else put_uint32 ((start + i) % 2 ^ 32) ∷ rest)
    else []

-- A call of `ExpandIPv4` returns an error or addresses, or panics: `Uint32(nil)` indexes out of range.
pub data Expansion : Type 0 where
  parse_error not_ipv4 panics : Expansion
  addresses : List Ip → Expansion

abbrev pub host_bits : Parsed → ℕ
host_bits p = if ltb 32 (p.bits - p.ones) then 32 else p.bits - p.ones

-- `ExpandIPv4` after `net.ParseCIDR`, with `max` for `MaxHostsPerSubnet`.
unfoldable pub expand_ipv4 : ℕ → Option Parsed → Expansion
unfolding to4 expand_loop
expand_ipv4 max none = parse_error
expand_ipv4 max (some p) = elim (to4 p.ip) [
  | none ↦ not_ipv4
  | some _ ↦ elim (to4 p.net_ip) [
    | none ↦ panics
    | some net ↦ addresses (
        expand_loop (suc (suc max)) (leb 2 (host_bits p)) (2 ^ host_bits p) max (big_endian 0 net) 0
          0)
  ]
]
