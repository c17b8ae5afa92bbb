-- ===== src/Store/Subnets.antt =====
-- internal/store/subnets.go. `now` is the reading of `time.Now()`.
use network_enumerator.Common.{
  ℕ, Bool, true, false, ◌&&◌, not, none, some, List, ltb, Text, text_eq, is_empty, if◌then◌else◌,
  [],
}
use network_enumerator.Store.Table.{order_by, select_row}
use network_enumerator.Store.Schema.{SubnetRow, auto, manual, subnet_row}
use network_enumerator.Store.Constraints.{insert_subnet, update_subnet, delete_subnets}
use network_enumerator.Store.Sql.{M, ◌>>=◌, ◌>>◌, pure, query, exec, statement}

unfoldable pub list_subnets : M (List SubnetRow)
list_subnets = query (λ t. order_by (λ r s. ltb r.id s.id) t.subnets.rows)

abbrev pub new_subnet : Text → Text → Text → ℕ → ℕ → SubnetRow
new_subnet cidr name iface now id = record {
  id = id;
  cidr = cidr;
  name = name;
  source = auto;
  iface = iface;
  discovered_at = now;
  last_scan_at = none;
  enabled = true;
  hidden = false;
}

unfoldable pub upsert_auto_subnet : Text → Text → Text → ℕ → M (ℕ × Bool)
upsert_auto_subnet cidr name iface now = do
  found ← query (λ t. select_row (λ r. text_eq r.cidr cidr) t.subnets)
  elim found [
    | some r ↦
        if not (is_empty name) && is_empty r.name
        then exec (update_subnet r.id (λ s. record s { name = name })) >> pure (r.id, false)
        else pure (r.id, false)
    | none ↦ do id ← statement (insert_subnet (new_subnet cidr name iface now)); pure (id, true)
  ]

unfoldable pub add_manual_subnet : Text → Text → ℕ → M SubnetRow
add_manual_subnet cidr name now = do
  let make = λ (i : ℕ). record (new_subnet cidr name [] now i) { source = manual }
  id ← statement (insert_subnet make)
  pure (make id)

unfoldable pub delete_subnet : ℕ → M (Unit {0})
delete_subnet id = exec (delete_subnets id)

unfoldable pub touch_subnet_scan : ℕ → ℕ → M (Unit {0})
touch_subnet_scan id now = exec (update_subnet id (λ s. record s { last_scan_at = some now }))

unfoldable pub set_subnet_hidden : ℕ → Bool → M (Unit {0})
set_subnet_hidden id hidden = exec (update_subnet id (λ s. record s { hidden = hidden }))

unfoldable pub set_subnet_enabled : ℕ → Bool → M (Unit {0})
set_subnet_enabled id enabled = exec (update_subnet id (λ s. record s { enabled = enabled }))

unfoldable pub set_subnet_name : ℕ → Text → M (Unit {0})
set_subnet_name id name = exec (update_subnet id (λ s. record s { name = name }))
