-- ===== src/Examples/Reading.antt =====
-- The theorems on what internal/store reads and computes, on the same network.
use network_enumerator.Common.{◌≡◌, ◌↔◌, true, false, some, List, [], ◌∷◌, map, text, All}
use network_enumerator.Store.Table.{order_by}
use network_enumerator.Store.Schema.{RiskRule}
use network_enumerator.Store.Sql.{◌>>◌, value}
use network_enumerator.Store.View.{Host, host_before, list_hosts, get_host}
use network_enumerator.Store.View.Agreement.{list_hosts-get_host}
use network_enumerator.Store.Risk.{risk_for_ports, reason_for}
use network_enumerator.Store.Risk.Worst.{Hit, hits, IsWorst, risk_for_ports_lem}
use network_enumerator.Store.Version.{version_less, version_numbers}
use network_enumerator.Store.Version.Order.{SmallerFrom, version_less_iff, version_less-IsStrict}
use network_enumerator.Store.Settings.{
  get_scan_method, set_scan_method, get_netdiscover_enabled, set_netdiscover_enabled,
}
use network_enumerator.Store.Settings.RoundTrip.{set_scan_method_lem, set_netdiscover_enabled_lem}
use network_enumerator.Examples.Inventory.{network, office, office-IsHealthy, office-Below, web}

list_hosts-get_host_example :
    (hs : List Host) × (value (list_hosts 500 office) ≡ some hs)
    × (map (λ (h : Host). h.row) hs ≡ order_by host_before network.hosts.rows)
    × All (λ (h : Host). value (get_host h.row.id 500 office) ≡ some h) hs
list_hosts-get_host_example = list_hosts-get_host 500 office office-IsHealthy office-Below

abbrev plain_http : RiskRule
plain_http = record {
  id = 1;
  port = 80;
  service = [];
  severity = text "warning";
  label = text "HTTP";
  enabled = true;
  version_below = [];
}

risk_for_ports_lem_example :
    ((risk_for_ports (web ∷ []) (plain_http ∷ [])).1
      ≡ map (λ (h : Hit). reason_for h.0 h.1) (hits (web ∷ []) (plain_http ∷ [])))
    × IsWorst (risk_for_ports (web ∷ []) (plain_http ∷ [])).0 (hits (web ∷ []) (plain_http ∷ []))
risk_for_ports_lem_example = risk_for_ports_lem (web ∷ []) (plain_http ∷ [])

version_less_iff_example :
    (version_less (text "1.3.2") (text "1.10") ≡ true)
    ↔ SmallerFrom 0 (version_numbers (text "1.3.2")) (version_numbers (text "1.10"))
version_less_iff_example = version_less_iff (text "1.3.2") (text "1.10")

version_less-IsStrict_example :
    (version_less (text "1.3") (text "1.3") ≡ false)
    × (version_less (text "1.3") (text "1.4") ≡ true
        → version_less (text "1.4") (text "2") ≡ true
        → version_less (text "1.3") (text "2") ≡ true)
version_less-IsStrict_example = version_less-IsStrict (text "1.3") (text "1.4") (text "2")

set_scan_method_lem_example :
    (value ((set_scan_method (text "nmap") >> get_scan_method) office) ≡ some (text "nmap"))
    × (value ((set_scan_method (text "nmap") >> get_netdiscover_enabled) office)
        ≡ value (get_netdiscover_enabled office))
set_scan_method_lem_example = set_scan_method_lem (text "nmap") office office-IsHealthy

set_netdiscover_enabled_lem_example :
    (value ((set_netdiscover_enabled false >> get_netdiscover_enabled) office) ≡ some false)
    × (value ((set_netdiscover_enabled false >> get_scan_method) office)
        ≡ value (get_scan_method office))
set_netdiscover_enabled_lem_example = set_netdiscover_enabled_lem false office office-IsHealthy
