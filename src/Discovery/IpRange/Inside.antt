-- ===== src/Discovery/IpRange/Inside.antt =====
-- Where the addresses that `ExpandIPv4` (internal/discovery/iprange.go) returns lie.
use network_enumerator.Common.{
  ℕ, zero, suc, ◌+◌, ◌%◌, ◌^◌, ◌≤◌, ◌<◌, ◌≡◌, refl, ap, sym, subst, some, List, [], ◌∷◌, leb, min,
  arith, Bool-cases, inl, inr, length,
}
use network_enumerator.Discovery.IpRange.{
  Ip, Parsed, addresses, to4, big_endian, put_uint32, host_bits, expand_ipv4,
}
use network_enumerator.Discovery.IpRange.Usable.{
  addresses_from, first_usable, usable, expand_ipv4_lem, two_le,
}

-- The address that is written as 4 bytes is the number that they are read as.
big_endian-put_uint32 : (n : ℕ) → n < 2 ^ 32 → big_endian 0 (put_uint32 (n % 2 ^ 32)) ≡ n
big_endian-put_uint32 n small = omega arith

-- The addresses are strictly increasing, all from `lo` on and below `hi`.
abbrev pub Ascends : ℕ → ℕ → List Ip → Type 0
Ascends lo hi [] = Unit
Ascends lo hi (a ∷ out) =
    (lo ≤ big_endian 0 a) × (big_endian 0 a < hi) × Ascends (suc (big_endian 0 a)) hi out

addresses_from-Ascends :
    (a n lo hi : ℕ) → lo ≤ a → a + n ≤ hi → hi ≤ 2 ^ 32 → Ascends lo hi (addresses_from a n)
addresses_from-Ascends a zero lo hi low fits small = tt
addresses_from-Ascends a (suc n) lo hi low fits small =
    let same = big_endian-put_uint32 a (omega arith) in
    (
      subst (λ k. lo ≤ k) (sym same) low,
      subst (λ k. k < hi) (sym same) (omega arith),
      subst (λ k. Ascends (suc k) hi (addresses_from (suc a) n)) (sym same)
          (addresses_from-Ascends (suc a) n (suc a) hi (omega arith) (omega arith) small),
    )

length-addresses_from : (a n : ℕ) → length (addresses_from a n) ≡ n
length-addresses_from a zero = refl
length-addresses_from a (suc n) = ap suc (length-addresses_from (suc a) n)

usable_fits : (b : ℕ) → first_usable b + usable b ≤ 2 ^ b
usable_fits b = elim (Bool-cases (leb 2 b)) [
  | inl c ↦ let more = two_le b (ground arith) in rw c (omega arith)
  | inr c ↦ rw c (omega arith)
]

-- For an IPv4 network that lies within the 32-bit addresses, `ExpandIPv4` returns at most `max`
-- addresses, all different, in increasing order and all inside the network.
pub expand_ipv4-Ascends :
    (max : ℕ) (p : Parsed) (ip net : Ip)
    → to4 p.ip ≡ some ip
    → to4 p.net_ip ≡ some net
    → big_endian 0 net + 2 ^ host_bits p ≤ 2 ^ 32
    → (out : List Ip) × (expand_ipv4 max (some p) ≡ addresses out)
      × (length out ≤ max)
      × Ascends (big_endian 0 net) (big_endian 0 net + 2 ^ host_bits p) out
expand_ipv4-Ascends max p ip net is_v4 has_net small =
    let b = host_bits p in
    let start = big_endian 0 net in
    let n = min (usable b) max in
    let fits = usable_fits b in
    (
      addresses_from (start + first_usable b) n,
      expand_ipv4_lem max p ip net is_v4 has_net,
      subst (λ k. k ≤ max) (sym (length-addresses_from (start + first_usable b) n)) (omega arith),
      addresses_from-Ascends (start + first_usable b) n start (start + 2 ^ b) (omega arith)
          (omega arith) small,
    )
