-- ===== src/Api/Import/Upserts.antt =====
-- On a healthy database `UpsertAutoSubnet` and `ImportHost` succeed, and leave the subnet or the host
-- that they were asked for in the tables (internal/store/subnets.go and hosts.go).
use network_enumerator.Common.{
  ℕ, ◌≡◌, refl, Bool, true, false, ◌&&◌, not, none, some, ◌==◌, ==_refl, Text, text_eq,
  text_eq_refl, is_empty, any, arith,
}
use network_enumerator.Store.Table.{has_id, is_id, add, select_row}
use network_enumerator.Store.Table.Find.{
  any-map, any_of_found, any_of_find_none, find_if-holds, find_if-any,
}
use network_enumerator.Store.Schema.{
  Tables, SubnetRow, HostRow, unknown, same_cidr, same_host, subnet_row, host_row,
}
use network_enumerator.Store.Constraints.{insert_subnet, insert_host, update_subnet, update_host}
use network_enumerator.Store.Sql.Total.{
  Total, Total-pure, Total-query, Total-exec, Total-statement, Total-if, Total->>=, Total->>,
}
use network_enumerator.Store.Subnets.{new_subnet, upsert_auto_subnet}
use network_enumerator.Store.Hosts.{is_at, new_host, fills_any, fill_host, import_host}

-- The subnet `k` has the CIDR.
abbrev pub has_cidr : ℕ → Text → SubnetRow → Bool
has_cidr k cidr r = (r.id == k) && text_eq r.cidr cidr

abbrev pub HasCidr : ℕ → Text → Tables → Type 0
HasCidr k cidr t = any (has_cidr k cidr) t.subnets.rows ≡ true

abbrev pub HasHost : ℕ → Text → Tables → Type 0
HasHost s ip t = any (is_at s ip) t.hosts.rows ≡ true

-- Every test of subnets that does not look at names and passed before passes after.
abbrev pub Extends : Tables → Tables → Type 0
Extends t t' =
    (test : SubnetRow → Bool)
    → ((r : SubnetRow) (name : Text) → test r ≡ true → test (record r { name = name }) ≡ true)
    → any test t.subnets.rows ≡ true
    → any test t'.subnets.rows ≡ true

module _ (cidr name iface : Text) (now : ℕ) (t0 : Tables) where
  -- What `UpsertAutoSubnet` makes of the tables `t0`.
  abbrev pub Upserted : ℕ × Bool → Tables → Type 0
  Upserted r t = Extends t0 t × HasCidr r.0 cidr t

  has_cidr_itself : (r : SubnetRow) → text_eq r.cidr cidr ≡ true → has_cidr r.id cidr r ≡ true
  has_cidr_itself r e = ground (arith, ==_refl r.id)

  inserted :
      (t : Tables)
      → (t ≡ t0) × (select_row (λ r. text_eq r.cidr cidr) t0.subnets ≡ none)
      → (id : ℕ) × (t' : Tables) × (insert_subnet (new_subnet cidr name iface now) t
          ≡ some (id, t'))
        × Upserted (id, true) t'
  inserted t (same, free) =
      let new = new_subnet cidr name iface now t0.subnets.next in
      let none_has : any (same_cidr new) t0.subnets.rows ≡ false =
        any_of_find_none (λ r. text_eq r.cidr cidr) t0.subnets.rows free in
      (
        t0.subnets.next,
        record t0 { subnets = add (new_subnet cidr name iface now) t0.subnets },
        rw (same, none_has) refl,
        (
          (λ test k found. ground (arith, found)),
          ground (arith, has_cidr_itself new (text_eq_refl cidr)),
        ),
      )

  -- A name that is filled in.
  renamed :
      (r : SubnetRow) (t : Tables)
      → (t ≡ t0) × (select_row (λ r. text_eq r.cidr cidr) t0.subnets ≡ some r)
      → Upserted (r.id, false) (update_subnet r.id (λ s. record s { name = name }) t)
  renamed r t (same, found) =
      let e = find_if-holds (λ r. text_eq r.cidr cidr) t0.subnets.rows found in
      let there : HasCidr r.id cidr t0 =
        any_of_found (λ r. text_eq r.cidr cidr) (has_cidr r.id cidr) t0.subnets.rows found
          (has_cidr_itself r e) in
      rw same (
        (λ test k.
            any-map test (is_id r.id) (λ s. record s { name = name }) t0.subnets.rows
              (λ s. k s name)),
        any-map (has_cidr r.id cidr) (is_id r.id) (λ s. record s { name = name }) t0.subnets.rows
            (λ s h. h) there,
      )

  left_alone :
      (r : SubnetRow) (t : Tables)
      → (t ≡ t0) × (select_row (λ r. text_eq r.cidr cidr) t0.subnets ≡ some r)
      → Upserted (r.id, false) t
  left_alone r t (same, found) =
      let e = find_if-holds (λ r. text_eq r.cidr cidr) t0.subnets.rows found in
      rw same (
        (λ test k h. h),
        any_of_found (λ r. text_eq r.cidr cidr) (has_cidr r.id cidr) t0.subnets.rows found
            (has_cidr_itself r e),
      )

  pub upsert_auto_subnet-Total :
      Total (λ t. t ≡ t0) (upsert_auto_subnet cidr name iface now) Upserted
  unfolding upsert_auto_subnet
  upsert_auto_subnet-Total =
      Total->>= (λ t. t ≡ t0)
        (λ o t. (t ≡ t0) × (select_row (λ r. text_eq r.cidr cidr) t0.subnets ≡ o)) Upserted _ _
        (Total-query _ _ _ (λ t e. (e, rw e refl)))
        (elim [
          | none ↦
              Total->>= _ (λ id. Upserted (id, true)) Upserted _ _
                (Total-statement _ (λ id. Upserted (id, true))
                  (insert_subnet (new_subnet cidr name iface now)) inserted)
                (λ id. Total-pure _ Upserted (id, true) (λ t k. k))
          | some r ↦
              Total-if _ Upserted (not (is_empty name) && is_empty r.name) _ _
                (λ c.
                  Total->> _ (λ _. Upserted (r.id, false)) Upserted _ _
                    (Total-exec _ (λ _. Upserted (r.id, false)) _ (renamed r))
                    (λ _. Total-pure _ Upserted (r.id, false) (λ t k. k)))
                (λ c. Total-pure _ Upserted (r.id, false) (left_alone r))
        ])

module _ (s : ℕ) (ip mac hostname vendor notes : Text) (now : ℕ) (t0 : Tables) where
  -- What `ImportHost` makes of the tables `t0`.
  abbrev pub Imports : Tables → Type 0
  Imports t =
      (t.subnets ≡ t0.subnets)
      × HasHost s ip t
      × ((s' : ℕ) (ip' : Text) → HasHost s' ip' t0 → HasHost s' ip' t)

  abbrev made : ℕ → HostRow
  made = new_host s ip mac hostname vendor unknown notes now

  host_inserted :
      has_id s t0.subnets.rows ≡ true
      → (t : Tables) → (t ≡ t0) × (select_row (is_at s ip) t0.hosts ≡ none)
      → (id : ℕ) × (t' : Tables) × (insert_host made t ≡ some (id, t')) × Imports t'
  host_inserted parent t (same, free) =
      let none_has : any (same_host (made t0.hosts.next)) t0.hosts.rows ≡ false =
        any_of_find_none (is_at s ip) t0.hosts.rows free in
      (
        t0.hosts.next,
        record t0 { hosts = add made t0.hosts },
        rw (same, parent, none_has) refl,
        (refl, ground (arith, ==_refl s, text_eq_refl ip), (λ s' ip' there. ground (arith, there))),
      )

  host_filled :
      (h : HostRow) (t : Tables)
      → (t ≡ t0) × (select_row (is_at s ip) t0.hosts ≡ some h)
      → Imports (update_host h.id (fill_host mac hostname vendor h) t)
  host_filled h t (same, found) =
      let fill = fill_host mac hostname vendor h in
      let stays = λ (s' : ℕ) (ip' : Text) (there : HasHost s' ip' t0).
        any-map (is_at s' ip') (is_id h.id) fill t0.hosts.rows (λ r k. k) there in
      rw same (refl, stays s ip (find_if-any (is_at s ip) t0.hosts.rows found), stays)

  host_left :
      (h : HostRow) (t : Tables)
      → (t ≡ t0) × (select_row (is_at s ip) t0.hosts ≡ some h)
      → Imports t
  host_left h t (same, found) =
      rw same (refl, find_if-any (is_at s ip) t0.hosts.rows found, (λ s' ip' there. there))

  pub import_host-Total :
      has_id s t0.subnets.rows ≡ true
      → Total (λ t. t ≡ t0) (import_host s ip mac hostname vendor notes now) (λ r. Imports)
  unfolding import_host
  import_host-Total parent =
      Total->>= (λ t. t ≡ t0) (λ o t. (t ≡ t0) × (select_row (is_at s ip) t0.hosts ≡ o)) _ _ _
        (Total-query _ _ _ (λ t e. (e, rw e refl)))
        (elim [
          | none ↦
              Total->>= _ (λ id. Imports) _ _ _
                (Total-statement _ (λ id. Imports) (insert_host made) (host_inserted parent))
                (λ id. Total-pure _ (λ r. Imports) (id, true) (λ t k. k))
          | some h ↦
              Total-if _ (λ r. Imports) (fills_any mac hostname vendor h) _ _
                (λ c.
                  Total->> _ (λ _. Imports) _ _ _ (Total-exec _ (λ _. Imports) _ (host_filled h))
                    (λ _. Total-pure _ (λ r. Imports) (h.id, false) (λ t k. k)))
                (λ c. Total-pure _ (λ r. Imports) (h.id, false) (host_left h))
        ])
