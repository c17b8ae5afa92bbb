-- ===== src/Api/Rules.antt =====
-- internal/api/risk.go: the handlers that change risk rules. A body is `none` if `readJSON` refuses it,
-- an id is `none` if `pathID` fails. A port that is negative is 0 here, which is refused as well.
pub mod Valid
pub mod Meaning
pub mod History
use network_enumerator.Common.{
  ℕ, Bool, true, false, ◌&&◌, ◌||◌, not, Option, none, some, List, [], ◌∷◌, ltb, ◌==◌, Text, text,
  text_eq, is_empty, if◌then◌else◌,
}
use network_enumerator.Store.Schema.{RiskRule}
use network_enumerator.Store.Sql.{Db, Outcome, ok, err}
use network_enumerator.Store.RiskRules.{
  RulePatch, create_risk_rule, update_risk_rule_fields, delete_risk_rule,
}

pub record RuleRequest : Type 0 where
  pub port : ℕ
  pub service : Text
  pub severity : Text
  pub label : Text
  pub enabled : Bool
  pub version_below : Text

-- The tests of the handlers.
unfoldable pub port_ok : ℕ → Bool
port_ok port = not ((port == 0) || ltb 65535 port)

unfoldable pub severity_ok : Text → Bool
severity_ok s =
    text_eq s (text "critical") || (text_eq s (text "warning") || text_eq s (text "info"))

unfoldable pub label_ok : Text → Bool
label_ok label = not (is_empty label)

-- `p != nil && !test(*p)`.
abbrev pub refused : {A : Type 0} → (A → Bool) → Option A → Bool
refused test none = false
refused test (some a) = not (test a)

-- The status of the response, and the database.
abbrev pub with_status : {A : Type 0} → ℕ → Outcome A → ℕ × Db
with_status status (ok a d) = (status, d)
with_status status (err e d) = (500, d)

-- The rule that is stored. The field `Enabled` of the request is not used.
abbrev pub requested : RuleRequest → RiskRule
requested q = record {
  id = 0;
  port = q.port;
  service = q.service;
  severity = q.severity;
  label = q.label;
  enabled = true;
  version_below = q.version_below;
}

unfoldable pub create_risk_rule_handler : Option RuleRequest → Db → ℕ × Db
create_risk_rule_handler none d = (400, d)
create_risk_rule_handler (some q) d =
    if not (port_ok q.port)
    then (400, d)
    else if not (severity_ok q.severity)
    then (400, d)
    else if not (label_ok q.label)
    then (400, d)
    else with_status 201 (create_risk_rule (requested q) d)

unfoldable pub update_risk_rule_handler : Option ℕ → Option RulePatch → Db → ℕ × Db
update_risk_rule_handler none body d = (400, d)
update_risk_rule_handler (some id) none d = (400, d)
update_risk_rule_handler (some id) (some p) d =
    if refused port_ok p.port
    then (400, d)
    else if refused label_ok p.label
    then (400, d)
    else if refused severity_ok p.severity
    then (400, d)
    else with_status 204 (update_risk_rule_fields id p d)

unfoldable pub delete_risk_rule_handler : Option ℕ → Db → ℕ × Db
delete_risk_rule_handler none d = (400, d)
delete_risk_rule_handler (some id) d = with_status 204 (delete_risk_rule id d)
