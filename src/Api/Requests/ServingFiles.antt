-- ===== src/Api/Requests/ServingFiles.antt =====
-- The exports and imports of internal/api/export.go and systemexport.go keep a
-- predicate of the tables that the methods of the store keep.
use network_enumerator.Common.{ℕ, Option}
use network_enumerator.Store.Sql.Keeps.{Keeps-pure, Keeps-query, Keeps->>=}
use network_enumerator.Store.Subnets.{list_subnets}
use network_enumerator.Store.RiskRules.{list_risk_rules}
use network_enumerator.Store.Settings.{get_scan_method, get_netdiscover_enabled}
use network_enumerator.Store.View.ReadOnly.{list_hosts-Keeps}
use network_enumerator.Store.Schema.{Tables}
use network_enumerator.Api.Requests.Serving.{RequestKeeps}
use network_enumerator.Api.Handler.{Parsers}
use network_enumerator.Api.Export.{
  ExportDocument, SystemDocument, export_network_map, export_system,
}
use network_enumerator.Api.Import.{import_network_map, import_system}
use network_enumerator.Api.Import.Keeping.{import_network_map-Preserves, import_system-Preserves}
use network_enumerator.Api.Handler.Serving.{Serves, done, call, bind}

module _ (P : Tables → Type 0) (store : RequestKeeps P) where
  module _ (go : Parsers) (now : ℕ) where
    pub import_network_map-Serves :
        (body : Option ExportDocument) → Serves P (import_network_map go now body)
    import_network_map-Serves body = record {
      keeps = import_network_map-Preserves P store.imports go now body;
    }

    pub import_system-Serves : (body : Option SystemDocument) → Serves P (import_system go now body)
    import_system-Serves body = record {
      keeps = import_system-Preserves P store.imports go now body;
    }

  pub exports-Serves : (now : ℕ) → Serves P (export_network_map now) × Serves P (export_system now)
  unfolding export_network_map export_system list_subnets list_risk_rules get_scan_method
      get_netdiscover_enabled
  exports-Serves now = (
    bind _ (call 500 _ (Keeps-query P _))
        (λ subnets. bind _ (call 500 _ (list_hosts-Keeps P now)) (λ hosts. done _)),
    bind _ (call 500 _ (Keeps-query P _)) λ subnets.
        bind _ (call 500 _ (list_hosts-Keeps P now)) λ hosts.
          bind _ (call 500 _ (Keeps->>= P _ _ (Keeps-query P _) (λ f. Keeps-pure P _))) λ method.
            bind _ (call 500 _ (Keeps->>= P _ _ (Keeps-query P _) (λ f. Keeps-pure P _)))
              λ enabled. bind _ (call 500 _ (Keeps-query P _)) (λ rules. done _),
  )
