-- ===== src/Store/View/ReadOnly.antt =====
-- `GetHost` and `ListHosts` (internal/store/hosts.go) keep whatever holds of the tables.
use network_enumerator.Common.{ℕ, Option, none, some, List, [], ◌∷◌, Text}
use network_enumerator.Store.Schema.{Tables, HostRow, RiskRule, host_row, subnet_row}
use network_enumerator.Store.Sql.{no_rows}
use network_enumerator.Store.Sql.Keeps.{
  Keeps, Keeps-pure, Keeps-fail, Keeps-query, Keeps->>=, Keeps-if,
}
use network_enumerator.Store.Ports.{list_ports}
use network_enumerator.Store.Tags.{tags_for_host}
use network_enumerator.Store.RiskRules.{list_risk_rules}
use network_enumerator.Store.View.{get_host, get_host_from, fill_in, fill_all, list_hosts}

module _ (P : Tables → Type 0) where
  get_host_from-Keeps : (now : ℕ) (found : Option HostRow) → Keeps P (get_host_from now found)
  unfolding get_host_from tags_for_host list_ports list_risk_rules
  get_host_from-Keeps now none = Keeps-fail P _ no_rows
  get_host_from-Keeps now (some h) =
      Keeps->>= P _ _ (Keeps-if P _ _ _ (Keeps-pure P 0) (Keeps-query P _)) λ c.
        Keeps->>= P _ _ (Keeps-query P _) λ rules.
          Keeps->>= P _ _ (Keeps-query P _)
            λ tags. Keeps->>= P _ _ (Keeps-query P _) (λ ports. Keeps-pure P _)

  -- `GetHost` writes nothing.
  pub get_host-Keeps : (id now : ℕ) → Keeps P (get_host id now)
  unfolding get_host
  get_host-Keeps id now = Keeps->>= P _ _ (Keeps-query P _) (get_host_from-Keeps now)

  fill_in-Keeps :
      (now : ℕ) (rules : List RiskRule) (counts : Text → ℕ) (h : HostRow)
      → Keeps P (fill_in now rules counts h)
  unfolding fill_in tags_for_host list_ports
  fill_in-Keeps now rules counts h =
      Keeps->>= P _ _ (Keeps-query P _)
        λ tags. Keeps->>= P _ _ (Keeps-query P _) (λ ports. Keeps-pure P _)

  fill_all-Keeps :
      (now : ℕ) (rules : List RiskRule) (counts : Text → ℕ) (hosts : List HostRow)
      → Keeps P (fill_all now rules counts hosts)
  unfolding fill_all
  fill_all-Keeps now rules counts [] = Keeps-pure P _
  fill_all-Keeps now rules counts (h ∷ hosts) =
      Keeps->>= P _ _ (fill_in-Keeps now rules counts h)
        λ h'. Keeps->>= P _ _ (fill_all-Keeps now rules counts hosts) (λ rest. Keeps-pure P _)

  -- `ListHosts` writes nothing.
  pub list_hosts-Keeps : (now : ℕ) → Keeps P (list_hosts now)
  unfolding list_hosts list_risk_rules
  list_hosts-Keeps now =
      Keeps->>= P _ _ (Keeps-query P _)
        λ hosts. Keeps->>= P _ _ (Keeps-query P _) (λ rules. fill_all-Keeps now rules _ hosts)
