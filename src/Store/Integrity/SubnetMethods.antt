-- ===== src/Store/Integrity/SubnetMethods.antt =====
-- The methods of internal/store/subnets.go keep the database well formed, on every branch and
-- whatever statement fails.
use network_enumerator.Common.{ℕ, refl, Bool, none, some, Text}
use network_enumerator.Store.Schema.{subnet_row, host_row, port_row, risk_rule_row}
use network_enumerator.Store.Sql.Keeps.{
  Keeps-pure, Keeps-query, Keeps-exec, Keeps-statement, Keeps->>=, Keeps->>, Keeps-if,
}
use network_enumerator.Store.Integrity.{IsWf}
use network_enumerator.Store.Integrity.Inserts.{insert_subnet-Lands}
use network_enumerator.Store.Integrity.Deletes.{delete_subnets-IsWf}
use network_enumerator.Store.Subnets.{
  new_subnet, upsert_auto_subnet, add_manual_subnet, delete_subnet, touch_subnet_scan,
  set_subnet_hidden, set_subnet_enabled, set_subnet_name,
}
use network_enumerator.Store.Integrity.Rules.{KeepsWf, subnet_update}

pub upsert_auto_subnet-Wf :
    (cidr name iface : Text) (now : ℕ) → KeepsWf (upsert_auto_subnet cidr name iface now)
unfolding upsert_auto_subnet
upsert_auto_subnet-Wf cidr name iface now = Keeps->>= IsWf _ _ (Keeps-query IsWf _) (elim [
  | some r ↦
      Keeps-if IsWf _ _ _
        (Keeps->> IsWf _ _ (subnet_update r.id _ (λ s. refl) (λ s. refl)) (Keeps-pure IsWf _))
        (Keeps-pure IsWf _)
  | none ↦
      Keeps->>= IsWf _ _
        (Keeps-statement IsWf _ (insert_subnet-Lands (new_subnet cidr name iface now) (λ i. refl)))
        (λ id. Keeps-pure IsWf _)
])

pub add_manual_subnet-Wf : (cidr name : Text) (now : ℕ) → KeepsWf (add_manual_subnet cidr name now)
unfolding add_manual_subnet
add_manual_subnet-Wf cidr name now =
    Keeps->>= IsWf _ _ (Keeps-statement IsWf _ (insert_subnet-Lands _ (λ i. refl)))
      (λ id. Keeps-pure IsWf _)

pub delete_subnet-Wf : (i : ℕ) → KeepsWf (delete_subnet i)
unfolding delete_subnet
delete_subnet-Wf i = Keeps-exec IsWf _ (delete_subnets-IsWf i)

pub touch_subnet_scan-Wf : (i now : ℕ) → KeepsWf (touch_subnet_scan i now)
unfolding touch_subnet_scan
touch_subnet_scan-Wf i now = subnet_update i _ (λ r. refl) (λ r. refl)

pub set_subnet_hidden-Wf : (i : ℕ) (b : Bool) → KeepsWf (set_subnet_hidden i b)
unfolding set_subnet_hidden
set_subnet_hidden-Wf i b = subnet_update i _ (λ r. refl) (λ r. refl)

pub set_subnet_enabled-Wf : (i : ℕ) (b : Bool) → KeepsWf (set_subnet_enabled i b)
unfolding set_subnet_enabled
set_subnet_enabled-Wf i b = subnet_update i _ (λ r. refl) (λ r. refl)

pub set_subnet_name-Wf : (i : ℕ) (name : Text) → KeepsWf (set_subnet_name i name)
unfolding set_subnet_name
set_subnet_name-Wf i name = subnet_update i _ (λ r. refl) (λ r. refl)
