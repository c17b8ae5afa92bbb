-- ===== src/Store/Open.antt =====
-- internal/store/db.go, `Open`: what it does to the database once the schema stands.
use network_enumerator.Common.{Text, Option}
use network_enumerator.Store.Credentials.{ensure_default_auth}
use network_enumerator.Store.RiskRules.{ensure_default_risk_rules}
use network_enumerator.Store.Sql.{M, ◌>>◌}

module _ (sha256 : Text → Text) where
  unfoldable pub open_store : Text → Option Text → M (Unit {0})
  open_store initial_password random =
      ensure_default_auth sha256 initial_password random >> ensure_default_risk_rules
