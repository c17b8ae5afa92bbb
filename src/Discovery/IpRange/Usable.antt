-- ===== src/Discovery/IpRange/Usable.antt =====
-- The addresses that `ExpandIPv4` (internal/discovery/iprange.go) returns.
use network_enumerator.Common.{
  ℕ, zero, suc, ◌+◌, ◌-◌, ◌%◌, ◌^◌, ◌≤◌, ◌≡◌, refl, ap, ◌∙◌, Bool, true, false, ◌&&◌, ◌||◌, some,
  List, [], ◌∷◌, ltb, leb, ◌==◌, if◌then◌else◌, min, arith, Bool-cases, inl, inr,
}
use network_enumerator.Discovery.IpRange.{
  Ip, Parsed, addresses, to4, big_endian, put_uint32, expand_loop, host_bits, expand_ipv4,
}

-- `n` addresses from the number `a` on, in 32-bit arithmetic.
abbrev pub addresses_from : ℕ → ℕ → List Ip
addresses_from a zero = []
addresses_from a (suc n) = put_uint32 (a % 2 ^ 32) ∷ addresses_from (suc a) n

loop_ends :
    (skip : Bool) (fuel total max start i len : ℕ)
    → (ltb i total && ltb len max) ≡ false
    → expand_loop fuel skip total max start i len ≡ []
unfolding expand_loop
loop_ends skip zero total max start i len h = refl
loop_ends skip (suc fuel) total max start i len h = rw h refl

plain_loop :
    (fuel total max start i len n : ℕ)
    → n ≡ min (total - i) (max - len)
    → n ≤ fuel
    → expand_loop fuel false total max start i len ≡ addresses_from (start + i) n
unfolding expand_loop
plain_loop fuel total max start i len zero e enough =
    loop_ends false fuel total max start i len (ground arith)
plain_loop zero total max start i len (suc n) e enough = let no : ⊥ = omega arith in elim no [ ]
plain_loop (suc fuel) total max start i len (suc n) e enough =
    let go : (ltb i total && ltb len max) ≡ true = ground arith in
    let next : start + suc i ≡ suc (start + i) = omega arith in
    rw go (
      ap (λ xs. put_uint32 ((start + i) % 2 ^ 32) ∷ xs)
        (plain_loop fuel total max start (suc i) (suc len) n (omega arith) (omega arith)
          ∙ ap (λ a. addresses_from a n) next))

-- The loop that skips the last address, after its first round.
skipping_loop :
    (fuel total max start i len n : ℕ)
    → 1 ≤ i
    → n ≡ min (total - 1 - i) (max - len)
    → n ≤ fuel
    → expand_loop fuel true total max start i len ≡ addresses_from (start + i) n
unfolding expand_loop
skipping_loop zero total max start i len zero low e enough = refl
skipping_loop (suc fuel) total max start i len zero low e enough =
    elim (Bool-cases (ltb i total && ltb len max)) [
      | inr c ↦ loop_ends true (suc fuel) total max start i len c
      | inl c ↦
          let last : ((i == 0) || (i == total - 1)) ≡ true = ground arith in
          rw (c, last) (loop_ends true fuel total max start (suc i) len (ground arith))
    ]
skipping_loop zero total max start i len (suc n) low e enough =
    let no : ⊥ = omega arith in elim no [ ]
skipping_loop (suc fuel) total max start i len (suc n) low e enough =
    let go : (ltb i total && ltb len max) ≡ true = ground arith in
    let inside : ((i == 0) || (i == total - 1)) ≡ false = ground arith in
    let next : start + suc i ≡ suc (start + i) = omega arith in
    rw (go, inside)
      (ap (λ xs. put_uint32 ((start + i) % 2 ^ 32) ∷ xs)
        (skipping_loop fuel total max start (suc i) (suc len) n (omega arith) (omega arith)
            (omega arith)
          ∙ ap (λ a. addresses_from a n) next))

first_round :
    (fuel total max start n : ℕ)
    → 2 ≤ total
    → n ≡ min (total - 2) max
    → n ≤ fuel
    → expand_loop (suc fuel) true total max start 0 0 ≡ addresses_from (suc start) n
unfolding expand_loop
first_round fuel total max start zero low e enough = elim (Bool-cases (ltb 0 total && ltb 0 max)) [
  | inr c ↦ loop_ends true (suc fuel) total max start 0 0 c
  | inl c ↦
      rw c (skipping_loop fuel total max start 1 0 0 (omega arith) (ground arith) (omega arith))
]
first_round fuel total max start (suc n) low e enough =
    let go : (ltb 0 total && ltb 0 max) ≡ true = ground arith in
    let next : start + 1 ≡ suc start = omega arith in
    rw go (
      skipping_loop fuel total max start 1 0 (suc n) (omega arith) (omega arith) (omega arith)
      ∙ ap (λ a. addresses_from a (suc n)) next)

-- A network of 2 ^ b addresses, b the bits of the host part: the numbers of its first and of its last
-- usable address, counted from its own, are 1 and 2 ^ b - 2, or 0 and 2 ^ b - 1 if b < 2.
abbrev pub first_usable : ℕ → ℕ
first_usable b = if leb 2 b then 1 else 0

abbrev pub usable : ℕ → ℕ
usable b = if leb 2 b then 2 ^ b - 2 else 2 ^ b

pub pow_pos : (b : ℕ) → 1 ≤ 2 ^ b
pow_pos zero = omega arith
pow_pos (suc b) = omega (arith, pow_pos b)

pub two_le : (b : ℕ) → 2 ≤ b → 2 ≤ 2 ^ b
two_le zero h = omega arith
two_le (suc b) h = omega (arith, pow_pos b)

-- For an IPv4 network `ExpandIPv4` returns its usable addresses, in order, cut off after `max` of
-- them: all addresses but the first and the last, or all if there are at most two.
pub expand_ipv4_lem :
    (max : ℕ) (p : Parsed) (ip net : Ip)
    → to4 p.ip ≡ some ip
    → to4 p.net_ip ≡ some net
    → expand_ipv4 max (some p)
      ≡ addresses (
          addresses_from
            (big_endian 0 net + first_usable (host_bits p))
            (min (usable (host_bits p)) max))
unfolding expand_ipv4
expand_ipv4_lem max p ip net is_v4 has_net =
    let start = big_endian 0 net in
    let total = 2 ^ host_bits p in
    rw (expand_ipv4, is_v4, has_net)
      (ap addresses (elim (Bool-cases (leb 2 (host_bits p))) [
        | inl c ↦
            let more : 2 ≤ total = two_le (host_bits p) (ground arith) in
            let next : suc start ≡ start + 1 = omega arith in
            rw c (
              first_round (suc max) total max start (min (total - 2) max) more refl (omega arith)
              ∙ ap (λ a. addresses_from a (min (total - 2) max)) next)
        | inr c ↦ rw c (
            plain_loop (suc (suc max)) total max start 0 0 (min total max) (omega arith)
              (omega arith))
      ]))
