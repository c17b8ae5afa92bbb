-- ===== src/Store/Risk.antt =====
-- internal/store/hosts.go, `riskForPorts`: the risk of a host's ports under the risk rules.
pub mod Worst
use network_enumerator.Common.{
  ℕ, ◌+◌, Bool, true, false, ◌&&◌, ◌||◌, not, List, [], ◌∷◌, ◌++◌, ltb, ◌==◌, Text, text, text_eq,
  is_empty, if◌then◌else◌, itoa, to_lower, contains, trim_space,
}
use network_enumerator.Store.Schema.{PortRow, RiskRule}
use network_enumerator.Store.Ports.{opened}
use network_enumerator.Store.Version.{version_less}

-- `severityRank[s]`, which is 0 for a severity that is not in the map.
unfoldable pub severity_rank : Text → ℕ
severity_rank s =
    if text_eq s (text "info")
    then 1
    else if text_eq s (text "warning")
    then 2
    else if text_eq s (text "critical")
    then 3
    else 0

-- `continue` on a service that neither the service name nor the product holds.
unfoldable pub service_matches : PortRow → RiskRule → Bool
service_matches p r =
    let svc = to_lower r.service in
    is_empty r.service || (contains (to_lower p.service) svc || contains (to_lower p.product) svc)

unfoldable pub version_matches : PortRow → RiskRule → Bool
version_matches p r =
    is_empty r.version_below || (not (is_empty p.version) && version_less p.version r.version_below)

unfoldable pub reason_for : PortRow → RiskRule → Text
reason_for p r =
    let reason = itoa p.port ++ text "/" ++ p.protocol ++ text ": " ++ r.label in
    let detected = trim_space (p.product ++ text " " ++ p.version) in
    if is_empty r.version_below
    then reason
    else reason
      ++ text " (detected "
      ++ detected
      ++ text ", flagged below version "
      ++ r.version_below
      ++ text ")"

-- The variables of the loops.
pub record Risk : Type 0 where
  pub level : Text
  pub best : ℕ
  pub reasons : List Text

abbrev pub add_reason : PortRow → RiskRule → Risk → Risk
add_reason p r s =
    let rank = severity_rank r.severity in
    record s {
      level = if ltb s.best rank then r.severity else s.level;
      best = if ltb s.best rank then rank else s.best;
      reasons = s.reasons ++ reason_for p r ∷ [];
    }

-- One round of the inner loop: three tests that may `continue`, and then the record of the match.
unfoldable pub rule_step : PortRow → RiskRule → Risk → Risk
rule_step p r s =
    if not r.enabled || not (r.port == p.port)
    then s
    else if not (service_matches p r)
    then s
    else if not (version_matches p r)
    then s
    else add_reason p r s

unfoldable pub rules_loop : PortRow → List RiskRule → Risk → Risk
rules_loop p [] s = s
rules_loop p (r ∷ rules) s = rules_loop p rules (rule_step p r s)

unfoldable pub ports_loop : List RiskRule → List PortRow → Risk → Risk
ports_loop rules [] s = s
ports_loop rules (p ∷ ports) s =
    ports_loop rules ports (if opened p.state then rules_loop p rules s else s)

abbrev pub no_risk : Risk
no_risk = record { level = []; best = 0; reasons = [] }

unfoldable pub risk_for_ports : List PortRow → List RiskRule → Text × List Text
unfolding ports_loop rules_loop rule_step
risk_for_ports ports rules = let s = ports_loop rules ports no_risk in (s.level, s.reasons)
