-- ===== src/Examples/Rules.antt =====
-- The theorem on internal/api/risk.go, for three requests.
use network_enumerator.Common.{true, none, some, List, [], ◌∷◌, text, ◌==◌}
use network_enumerator.Store.Sql.{after, fresh}
use network_enumerator.Store.Open.{open_store}
use network_enumerator.Store.RiskRules.{RulePatch}
use network_enumerator.Api.Rules.{RuleRequest}
use network_enumerator.Api.Rules.Meaning.{AllValid}
use network_enumerator.Api.Rules.History.{
  Request, creates, updates, deletes, serve_all, serve_all-open_store-Valid,
}

abbrev nginx : RuleRequest
nginx = record {
  port = 443;
  service = text "nginx";
  severity = text "critical";
  label = text "old nginx";
  enabled = true;
  version_below = text "1.20";
}

abbrev no_label : RulePatch
no_label = record {
  port = some 8443;
  label = some [];
  severity = none;
  service = none;
  version_below = none;
  enabled = none;
}

abbrev requests : List Request
requests = creates (some nginx) ∷ updates (some 48) (some no_label) ∷ deletes (some 1) ∷ []

serve_all-open_store-Valid_example :
    AllValid
      (serve_all requests (
        after
          (open_store (λ s. s) [] (some (1 ∷ [])) (record fresh { fails = λ n. n == 51 })))).tables
serve_all-open_store-Valid_example =
    serve_all-open_store-Valid (λ s. s) requests [] (some (1 ∷ [])) (λ n. n == 51)
