-- ===== src/Api/Import.antt =====
-- internal/api/export.go and systemexport.go: the handlers of the two imports. A body is `none` if
-- `readJSON` refuses it.
pub mod Loops
pub mod Upserts
pub mod Cidrs
pub mod Segments
pub mod Hosts
pub mod Keeping
pub mod WellFormed
pub mod Known
pub mod Restores
pub mod RoundTrip
use network_enumerator.Common.{
  ℕ, Bool, Option, List, [], ◌++◌, Text, text, text_eq, itoa, if◌then◌else◌, length,
}
use network_enumerator.Store.Settings.{set_scan_method, set_netdiscover_enabled}
use network_enumerator.Discovery.Method.{regular}
use network_enumerator.Api.Handler.{
  H, ◌>>=◌, ◌>>◌, pure, given, stored, announce, request_scan, Parsers,
}
use network_enumerator.Api.Tags.{is_scan_method}
use network_enumerator.Api.Export.{ExportDocument, SystemDocument}
use network_enumerator.Api.Import.Loops.{
  import_segments, import_system_segments, import_hosts, import_ports, import_risk_rules,
}

-- The counts of the response.
pub record Imported : Type 0 where
  pub segments : ℕ
  pub hosts : ℕ
  pub new_hosts : ℕ
  pub new_ports : ℕ

pub record SystemImported : Type 0 where
  pub inventory : Imported
  pub risk_rules : ℕ
  pub new_risk_rules : ℕ
  pub updated_risk_rules : ℕ

-- The text that the messages of both imports share.
abbrev pub counts_text : Imported → ℕ → Text
counts_text n ports =
    itoa n.segments
    ++ text " segment(s), "
    ++ itoa n.hosts
    ++ text " host(s) ("
    ++ itoa n.new_hosts
    ++ text " new), "
    ++ itoa ports
    ++ text " open port(s) ("
    ++ itoa n.new_ports
    ++ text " new)"

abbrev pub system_text : SystemImported → ℕ → Text
system_text n ports =
    text "Imported system export: "
    ++ counts_text n.inventory ports
    ++ text ", "
    ++ itoa n.risk_rules
    ++ text " risk rule(s) ("
    ++ itoa n.new_risk_rules
    ++ text " new), settings restored"

-- `AddEvent`, `Broadcast` and `TriggerNow` at the end of both.
unfoldable pub announce_import : Text → ℕ → H (Unit {0})
announce_import message now = announce (text "import") message 0 now >> request_scan regular

-- The `switch` on the scan method.
unfoldable pub restore_scan_method : Text → H (Unit {0})
restore_scan_method method =
    if is_scan_method method then stored 500 (set_scan_method method) else pure tt

module _ (go : Parsers) (now : ℕ) where
  unfoldable pub import_network_map : Option ExportDocument → H Imported
  unfolding announce_import
  import_network_map body = do
    doc ← given body
    segment_ids ← stored 500 (import_segments go now doc.segments [])
    found ← stored 500 (import_hosts go now segment_ids doc.hosts ([], 0))
    new_ports ← stored 500 (import_ports now found.0 doc.ports 0)
    let n : Imported = record {
      segments = length segment_ids;
      hosts = length found.0;
      new_hosts = found.1;
      new_ports = new_ports;
    }
    announce_import (text "Imported network map: " ++ counts_text n (length doc.ports)) now
    pure n

  unfoldable pub import_system : Option SystemDocument → H SystemImported
  unfolding announce_import restore_scan_method
  import_system body = do
    doc ← given body
    segment_ids ← stored 500 (import_system_segments go now doc.segments [])
    found ← stored 500 (import_hosts go now segment_ids doc.hosts ([], 0))
    new_ports ← stored 500 (import_ports now found.0 doc.ports 0)
    restore_scan_method doc.settings.scan_method
    stored 500 (set_netdiscover_enabled doc.settings.netdiscover_enabled)
    rules ← stored 500 (import_risk_rules doc.risk_rules)
    let n : SystemImported = record {
      inventory = record {
        segments = length segment_ids;
        hosts = length found.0;
        new_hosts = found.1;
        new_ports = new_ports;
      };
      risk_rules = length doc.risk_rules;
      new_risk_rules = rules.0;
      updated_risk_rules = rules.1;
    }
    announce_import (system_text n (length doc.ports)) now
    pure n
