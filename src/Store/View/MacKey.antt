-- ===== src/Store/View/MacKey.antt =====
-- `macGroupKey` (internal/store/hosts.go) tells apart what it is made of, so that `ListHosts` counts
-- as the SELECT of `GetHost` does.
use network_enumerator.Common.{
  ℕ, zero, suc, ◌+◌, ◌-◌, ◌*◌, ◌/◌, ◌%◌, ◌<◌, ◌≡◌, refl, ap, ap₂, sym, ◌∙◌, ◌↔◌, Bool, true, false,
  List, [], ◌∷◌, ◌++◌, ltb, ◌==◌, Text, text_eq, text_eq_iff, is_empty, if◌then◌else◌, count_if,
  arith, Bool-cases, inl, inr, itoa, itoa_from,
}
use network_enumerator.Store.Table.{insert_by, order_by}
use network_enumerator.Store.Schema.{HostRow}
use network_enumerator.Store.View.{mac_group_key, mac_counts, shares_mac}

-- The number before the first bar, and what follows the bar.
split_key : ℕ → Text → ℕ × Text
split_key m [] = (m, [])
split_key m (c ∷ s) =
    let rest = split_key (m * 10 + (c - 48)) s in if c == 124 then (m, s) else rest

split_key-digit :
    (m d : ℕ) (s : Text) → d < 10 → split_key m ((48 + d) ∷ s) ≡ split_key (m * 10 + d) s
unfolding split_key
split_key-digit m d s h =
    let other : ((48 + d) == 124) ≡ false = ground arith in
    let back : 48 + d - 48 ≡ d = omega arith in rw (other, back) refl

split_key-itoa_from : (f n : ℕ) (s : Text) → n < f → split_key 0 (itoa_from f n s) ≡ split_key n s
unfolding itoa_from
split_key-itoa_from zero n s h = let no : ⊥ = omega arith in elim no [ ]
split_key-itoa_from (suc f) n s h = elim (Bool-cases (ltb n 10)) [
  | inl c ↦
      let low : n % 10 < 10 = omega arith in
      let same : 0 * 10 + n % 10 ≡ n = ground arith in
      rw c (split_key-digit 0 (n % 10) s low ∙ ap (λ m. split_key m s) same)
  | inr c ↦
      let low : n % 10 < 10 = omega arith in
      let same : n / 10 * 10 + n % 10 ≡ n = omega arith in
      let smaller : n / 10 < f = ground arith in
      rw c (
        split_key-itoa_from f (n / 10) ((48 + n % 10) ∷ s) smaller
        ∙ split_key-digit (n / 10) (n % 10) s low
        ∙ ap (λ m. split_key m s) same)
]

itoa_from-append : (f n : ℕ) (s t : Text) → itoa_from f n s ++ t ≡ itoa_from f n (s ++ t)
unfolding itoa_from
itoa_from-append zero n s t = refl
itoa_from-append (suc f) n s t = elim (Bool-cases (ltb n 10)) [
  | inl c ↦ rw c refl
  | inr c ↦ rw c (itoa_from-append f (n / 10) ((48 + n % 10) ∷ s) t)
]

split_key-mac_group_key : (n : ℕ) (mac : Text) → split_key 0 (mac_group_key n mac) ≡ (n, mac)
unfolding mac_group_key itoa split_key
split_key-mac_group_key n mac =
    let bar = 124 ∷ [] in
    ap (split_key 0)
      (ap (λ s. s ++ mac) (itoa_from-append (suc n) n [] bar) ∙ itoa_from-append (suc n) n bar mac)
    ∙ split_key-itoa_from (suc n) n (124 ∷ mac) (omega arith)

pub mac_group_key-injective :
    (m n : ℕ) (mac mac' : Text)
    → mac_group_key m mac ≡ mac_group_key n mac'
    → (m ≡ n) × (mac ≡ mac')
mac_group_key-injective m n mac mac' e =
    let same : (m, mac) ≡ (n, mac') =
      sym (split_key-mac_group_key m mac) ∙ ap (split_key 0) e ∙ split_key-mac_group_key n mac' in
    (ap (λ x. x.0) same, ap (λ x. x.1) same)

bool_eq : (a b : Bool) → ((a ≡ true) ↔ (b ≡ true)) → a ≡ b
bool_eq a b h = ground (arith, h.0, h.1)

-- Whether a host has the key of a subnet and an address, and whether the SELECT counts it.
same_group :
    (h : HostRow) (n : ℕ) (mac : Text)
    → text_eq (mac_group_key h.subnet_id h.mac) (mac_group_key n mac) ≡ shares_mac n mac h
same_group h n mac = bool_eq _ _ (
  (λ e.
      let (same_n, same_mac) =
        mac_group_key-injective h.subnet_id n h.mac mac ((text_eq_iff _ _).0 e) in
      ground (arith, text_eq_iff h.mac mac)),
  λ e.
      let same_n : h.subnet_id ≡ n = ground arith in
      let same_mac : h.mac ≡ mac = ground (arith, text_eq_iff h.mac mac) in
      (text_eq_iff _ _).1 (ap₂ mac_group_key same_n same_mac),
)

empty_apart :
    (r : HostRow) (n : ℕ) (mac : Text)
    → is_empty r.mac ≡ true
    → is_empty mac ≡ false
    → shares_mac n mac r ≡ false
empty_apart r n mac c h = elim (Bool-cases (shares_mac n mac r)) [
  | inr k ↦ k
  | inl k ↦
      let same : r.mac ≡ mac = ground (arith, text_eq_iff r.mac mac) in
      let e : is_empty r.mac ≡ is_empty mac = ap is_empty same in cc
]

mac_counts_lem :
    (hosts : List HostRow) (n : ℕ) (mac : Text)
    → is_empty mac ≡ false
    → mac_counts hosts (mac_group_key n mac) ≡ count_if (shares_mac n mac) hosts
unfolding mac_counts
mac_counts_lem [] n mac h = refl
mac_counts_lem (r ∷ hosts) n mac h =
    let rest = mac_counts_lem hosts n mac h in
    elim (Bool-cases (is_empty r.mac)) [
      | inr c ↦ rw (c, same_group r n mac, rest) refl
      | inl c ↦
          let other : shares_mac n mac r ≡ false = empty_apart r n mac c h in rw (c, other) rest
    ]

count_if-insert_by :
    (p : HostRow → Bool) (before : HostRow → HostRow → Bool) (r : HostRow) (rows : List HostRow)
    → count_if p (insert_by before r rows) ≡ count_if p (r ∷ rows)
unfolding insert_by
count_if-insert_by p before r [] = refl
count_if-insert_by p before r (s ∷ rows) = ground (arith, count_if-insert_by p before r rows)

count_if-order_by :
    (p : HostRow → Bool) (before : HostRow → HostRow → Bool) (rows : List HostRow)
    → count_if p (order_by before rows) ≡ count_if p rows
unfolding order_by
count_if-order_by p before [] = refl
count_if-order_by p before (r ∷ rows) =
    count_if-insert_by p before r (order_by before rows)
    ∙ ap (λ n. if p r then suc n else n) (count_if-order_by p before rows)

-- The map of `ListHosts` holds what the SELECT of `GetHost` counts.
pub mac_counts-order_by :
    (before : HostRow → HostRow → Bool) (rows : List HostRow) (n : ℕ) (mac : Text)
    → is_empty mac ≡ false
    → mac_counts (order_by before rows) (mac_group_key n mac) ≡ count_if (shares_mac n mac) rows
mac_counts-order_by before rows n mac h =
    mac_counts_lem (order_by before rows) n mac h ∙ count_if-order_by (shares_mac n mac) before rows
