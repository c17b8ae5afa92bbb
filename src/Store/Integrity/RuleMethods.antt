-- ===== src/Store/Integrity/RuleMethods.antt =====
-- The methods of internal/store/risk.go keep the database well formed, on every branch and whatever
-- statement fails.
use network_enumerator.Common.{ℕ, refl, List, [], ◌∷◌, if◌then◌else◌, text, is_empty}
use network_enumerator.Store.Table.{is_id}
use network_enumerator.Store.Table.Laws.{Below, Below-keep, Below-map, where_do-id}
use network_enumerator.Store.Schema.{
  Tables, RiskRule, subnet_row, host_row, port_row, risk_rule_row,
}
use network_enumerator.Store.Constraints.{insert_risk_rule}
use network_enumerator.Store.Sql.Keeps.{
  Keeps-pure, Keeps-query, Keeps-exec, Keeps-statement, Keeps->>=, Keeps-if,
}
use network_enumerator.Store.Integrity.{IsWf}
use network_enumerator.Store.Integrity.Inserts.{insert_risk_rule-Lands}
use network_enumerator.Store.Integrity.Rules.{KeepsWf}
use network_enumerator.Store.RiskRules.{
  RulePatch, patch_rule, seed_risk_rules, ensure_default_risk_rules, create_risk_rule,
  update_risk_rule_fields, delete_risk_rule,
}

pub seed_risk_rules-Wf : (rules : List RiskRule) → KeepsWf (seed_risk_rules rules)
unfolding seed_risk_rules
seed_risk_rules-Wf [] = Keeps-pure IsWf _
seed_risk_rules-Wf (r ∷ rules) =
    Keeps->>= IsWf _ _
      (Keeps-statement IsWf (insert_risk_rule (λ i. record r { id = i }))
        (insert_risk_rule-Lands (λ i. record r { id = i }) (λ i. refl)))
      (λ id. seed_risk_rules-Wf rules)

pub ensure_default_risk_rules-Wf : KeepsWf ensure_default_risk_rules
unfolding ensure_default_risk_rules
ensure_default_risk_rules-Wf =
    Keeps->>= IsWf _ _ (Keeps-query IsWf _)
      (elim [ r ∷ rest ↦ Keeps-pure IsWf _ | [] ↦ seed_risk_rules-Wf _ ])

pub create_risk_rule-Wf : (r : RiskRule) → KeepsWf (create_risk_rule r)
unfolding create_risk_rule
create_risk_rule-Wf r =
    let severity = if is_empty r.severity then text "warning" else r.severity in
    let make = λ (i : ℕ). record r { id = i; severity = severity } in
    Keeps->>= IsWf _ _
      (Keeps-statement IsWf (insert_risk_rule make) (insert_risk_rule-Lands make (λ i. refl)))
      (λ id. Keeps-pure IsWf (make id))

rules-IsWf :
    (rows : List RiskRule) (t : Tables)
    → Below t.risk_rules.next rows
    → IsWf t
    → IsWf (record t { risk_rules = record (t.risk_rules) { rows = rows } })
rules-IsWf rows t b w = record {
  subnets_wf = w.subnets_wf;
  hosts_wf = w.hosts_wf;
  ports_wf = w.ports_wf;
  tags_wf = w.tags_wf;
  links_wf = w.links_wf;
  event_ids = w.event_ids;
  rule_ids = b;
  setting_keys = w.setting_keys;
}

pub update_risk_rule_fields-Wf : (i : ℕ) (p : RulePatch) → KeepsWf (update_risk_rule_fields i p)
unfolding update_risk_rule_fields
update_risk_rule_fields-Wf i p = Keeps-if IsWf _ _ _ (Keeps-pure IsWf _) (
    Keeps-exec IsWf _ λ t w.
      rules-IsWf _ t
        (Below-map t.risk_rules.next _ t.risk_rules.rows
          (where_do-id (is_id i) (patch_rule p) (λ r. refl)) w.rule_ids)
        w)

pub delete_risk_rule-Wf : (i : ℕ) → KeepsWf (delete_risk_rule i)
unfolding delete_risk_rule
delete_risk_rule-Wf i =
    Keeps-exec IsWf _
      λ t w. rules-IsWf _ t (Below-keep t.risk_rules.next _ t.risk_rules.rows w.rule_ids) w
