-- ===== src/Store/RiskRules.antt =====
-- internal/store/risk.go.
use network_enumerator.Common.{
  ℕ, Bool, true, false, ◌&&◌, ◌||◌, Option, none, some, List, [], ◌∷◌, ltb, ◌==◌, Text, text,
  is_empty, if◌then◌else◌,
}
use network_enumerator.Store.Table.{order_by, is_id, delete_where}
use network_enumerator.Store.Schema.{RiskRule, risk_rule_row}
use network_enumerator.Store.Constraints.{insert_risk_rule, update_risk_rule}
use network_enumerator.Store.DefaultRules.{default_risk_rules}
use network_enumerator.Store.Sql.{M, ◌>>=◌, pure, query, exec, statement}

abbrev pub rule_before : RiskRule → RiskRule → Bool
rule_before r s = ltb r.port s.port || ((r.port == s.port) && ltb r.id s.id)

unfoldable pub list_risk_rules : M (List RiskRule)
list_risk_rules = query (λ t. order_by rule_before t.risk_rules.rows)

unfoldable pub seed_risk_rules : List RiskRule → M (Unit {0})
seed_risk_rules [] = pure tt
seed_risk_rules (r ∷ rules) = do
  id ← statement (insert_risk_rule (λ i. record r { id = i }))
  seed_risk_rules rules

unfoldable pub ensure_default_risk_rules : M (Unit {0})
ensure_default_risk_rules = do
  rows ← query (λ t. t.risk_rules.rows)
  elim rows [ r ∷ rest ↦ pure tt | [] ↦ seed_risk_rules default_risk_rules ]

unfoldable pub create_risk_rule : RiskRule → M RiskRule
create_risk_rule r = do
  let severity = if is_empty r.severity then text "warning" else r.severity
  id ← statement (insert_risk_rule (λ i. record r { id = i; severity = severity }))
  pure (record r { id = id; severity = severity })

-- A pointer that may be nil.
abbrev pub or_old : {A : Type 0} → Option A → A → A
or_old none old = old
or_old (some new) old = new

abbrev pub is_nil : {A : Type 0} → Option A → Bool
is_nil none = true
is_nil (some _) = false

-- The arguments of `UpdateRiskRule`.
pub record RulePatch : Type 0 where
  pub port : Option ℕ
  pub label : Option Text
  pub severity : Option Text
  pub service : Option Text
  pub version_below : Option Text
  pub enabled : Option Bool

abbrev pub patch_rule : RulePatch → RiskRule → RiskRule
patch_rule p r = record r {
  port = or_old p.port r.port;
  label = or_old p.label r.label;
  severity = or_old p.severity r.severity;
  service = or_old p.service r.service;
  version_below = or_old p.version_below r.version_below;
  enabled = or_old p.enabled r.enabled;
}

abbrev pub sets_nothing : RulePatch → Bool
sets_nothing p =
    is_nil p.port
    && (is_nil p.label
        && (is_nil p.severity
            && (is_nil p.service && (is_nil p.version_below && is_nil p.enabled))))

unfoldable pub update_risk_rule_fields : ℕ → RulePatch → M (Unit {0})
update_risk_rule_fields id p =
    if sets_nothing p then pure tt else exec (update_risk_rule id (patch_rule p))

unfoldable pub delete_risk_rule : ℕ → M (Unit {0})
delete_risk_rule id = exec (λ t. record t { risk_rules = delete_where (is_id id) t.risk_rules })
