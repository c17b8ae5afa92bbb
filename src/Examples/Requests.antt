-- ===== src/Examples/Requests.antt =====
-- The theorems on requests to internal/api, on the network of `Examples.Inventory`.
use network_enumerator.Common.{
  any, ℕ, ◌≡◌, refl, true, false, none, some, List, [], ◌∷◌, Text, text, text_eq, inl, trim_space,
}
use network_enumerator.Store.Sql.{Db, fresh}
use network_enumerator.Store.Integrity.Reach.{run-open_store-IsWf}
use network_enumerator.Discovery.Control.{first_cycle}
use network_enumerator.Discovery.DeepScan.{no_deep_scans}
use network_enumerator.Api.Hub.{new_hub}
use network_enumerator.Api.Handler.{World, returns, fails, Parsers, ◌>>=◌, ◌>>◌, given, check}
use network_enumerator.Api.Handler.Guarded.{Unchanged}
use network_enumerator.Api.Hosts.{HostPatch, create_host, update_host}
use network_enumerator.Store.Schema.{HostRow, SubnetRow, up, manual}
use network_enumerator.Store.Hosts.{new_host, upsert_host}
use network_enumerator.Store.Subnets.{new_subnet, add_manual_subnet}
use network_enumerator.Store.Calls.{run}
use network_enumerator.Store.Open.{open_store}
use network_enumerator.Store.Credentials.{ensure_default_auth}
use network_enumerator.Store.RiskRules.{ensure_default_risk_rules, seed_risk_rules}
use network_enumerator.Store.DefaultRules.{default_risk_rules}
use network_enumerator.Store.Hosts.Passive.{StillKnown}
use network_enumerator.Api.Export.{ExportDocument, SystemDocument, export_network_map}
use network_enumerator.Api.Import.Upserts.{HasCidr, HasHost}
use network_enumerator.Api.Import.Cidrs.{last_cidr}
use network_enumerator.Api.Import.Restores.{import_network_map-Lands}
use network_enumerator.Api.Import.RoundTrip.{import-export_network_map}
use network_enumerator.Api.Import.{import_network_map, import_system}
use network_enumerator.Api.Import.Known.{imports-OnlyFill}
use network_enumerator.Api.Requests.{
  Request, serve, serve_all, creates_host, updates_host, clears_all_hosts, deletes_subnet,
  deletes_host, triggers_mass_scan, deep_scans_host,
}
use network_enumerator.Api.Requests.Traceless.{serve-Unchanged}
use network_enumerator.Api.Requests.BadMac.{
  if_given, with_notes, with_hostname, update_host-bad_mac,
}
use network_enumerator.Api.Requests.Still.{is_still, AllSpare}
use network_enumerator.Api.Requests.Survival.{serve_all-Survives}
use network_enumerator.Examples.Inventory.{office, office-IsHealthy, network, printer, printer_ip}
use network_enumerator.Examples.Scanning.{answers, setup, started}

-- Texts that the checks of Go accept.
abbrev parsers : Parsers
parsers = record {
  is_cidr = λ s. text_eq s (text "10.0.0.0/24");
  is_ip = λ s. text_eq s printer_ip;
  is_mac = λ s. text_eq s (text "02:00:00:00:00:02");
}

abbrev server : Db → World
server d = record { db = d; hub = new_hub; scanner = first_cycle 60 5; deep_scans = no_deep_scans }

-- No subnet is chosen.
abbrev homeless : Request
homeless =
    creates_host
      (some (record { subnet_id = 0; ip = printer_ip; hostname = []; notes = text "new" }))

serve-Unchanged_example :
    Unchanged (server office) (serve parsers answers 900 homeless (server office)).1
unfolding serve ◌>>=◌ create_host given ◌>>◌ check text_eq
serve-Unchanged_example =
    serve-Unchanged parsers answers 900 homeless (server office) refl (inl refl)

abbrev typo : Text
typo = text "02:00:00"

abbrev patch : HostPatch
patch = record { notes = some (text "by the door"); hostname = none; mac = some typo }

update_host-bad_mac_example :
    ((update_host parsers 900 (some 2) (some patch) (server office)).0 ≡ fails 400)
    × ((update_host parsers 900 (some 2) (some patch) (server office)).1.db.tables
        ≡ if_given patch.hostname (with_hostname 2) (if_given patch.notes (with_notes 2) network))
unfolding trim_space text_eq
update_host-bad_mac_example =
    update_host-bad_mac parsers 900 2 patch typo (server office) office-IsHealthy refl refl

abbrev renames : HostPatch
renames = record { notes = none; hostname = some (text "lp"); mac = none }

abbrev requests : List Request
requests =
    homeless
    ∷ updates_host (some 1) (some patch)
    ∷ updates_host (some 2) (some renames)
    ∷ deep_scans_host (some 2)
    ∷ triggers_mass_scan
    ∷ deletes_host (some 1)
    ∷ deletes_subnet (some 7)
    ∷ clears_all_hosts (text "10")
    ∷ []

requests-AllSpare : AllSpare printer requests
requests-AllSpare =
    (tt, ((λ q e b. cc), ((λ q e b. cc), (tt, (tt, ((λ e. cc), ((λ e. cc), ((λ e. cc), tt))))))))

serve_all-Survives_example :
    any
      (is_still printer)
      (serve_all parsers answers 900 requests (server office)).db.tables.hosts.rows
    ≡ true
unfolding text_eq
serve_all-Survives_example =
    serve_all-Survives printer parsers answers 900 requests (server office) refl requests-AllSpare

-- A document with the printer, that was scanned before, and a host that is new.
abbrev document : ExportDocument
document = record {
  segments =
      record { id = text "seg-1"; name = text "lan"; cidr = text "10.0.0.0/24" }
      ∷ record { id = text "seg-1"; name = []; cidr = text "10.0.0.0/40" }
      ∷ [];
  hosts =
      record {
        id = text "host-2";
        segment_id = text "seg-1";
        hostname = text "old-printer";
        ip = printer_ip;
        mac = text "02:00:00:00:00:02";
        management_ip = printer_ip;
        vendor = text "Acme";
        notes = text "from the export";
      }
      ∷ [];
  ports =
      record {
        host_id = text "host-2";
        protocol = [];
        port = 631;
        state = text "open";
        service = text "ipp";
        version = [];
        notes = [];
      }
      ∷ [];
}

abbrev backup : SystemDocument
backup = record {
  segments = [];
  hosts = document.hosts;
  ports = document.ports;
  settings = record { scan_method = text "tcp"; netdiscover_enabled = false };
  risk_rules = [];
}

-- The printer of the new database.
abbrev known_printer : HostRow
known_printer = new_host 1 printer_ip [] [] [] up [] 6 1

imports-OnlyFill_example :
    StillKnown 1 printer_ip known_printer
      (import_network_map parsers 900 (some document) (server started)).1.db.tables
    × StillKnown 1 printer_ip known_printer
        (import_system parsers 900 (some backup) (server started)).1.db.tables
unfolding run upsert_host add_manual_subnet open_store ensure_default_auth ensure_default_risk_rules
    seed_risk_rules default_risk_rules text_eq
imports-OnlyFill_example =
    imports-OnlyFill parsers 900 (some document) (some backup) (server started) 1 printer_ip
      known_printer (run-open_store-IsWf (λ s. s) setup [] (some []) (λ n. false)) refl

abbrev known_lan : SubnetRow
known_lan = record (new_subnet (text "10.0.0.0/24") (text "lan") [] 5 1) { source = manual }

import-export_network_map_example :
    (doc : ExportDocument) × ((export_network_map 900 (server started)).0 ≡ returns doc)
    × (k : ℕ) × HasCidr k known_lan.cidr
        (import_network_map parsers 950 (some doc) (server fresh)).1.db.tables
    × HasHost k printer_ip (import_network_map parsers 950 (some doc) (server fresh)).1.db.tables
unfolding run upsert_host add_manual_subnet open_store ensure_default_auth ensure_default_risk_rules
    seed_risk_rules default_risk_rules text_eq
import-export_network_map_example =
    import-export_network_map parsers 900 950 (server started) (server fresh) known_printer
      known_lan (λ n. refl) (run-open_store-IsWf (λ s. s) setup [] (some []) (λ n. false))
      (λ n. refl) refl refl refl refl

import_network_map-Lands_example :
    (k : ℕ) × HasCidr k
      (text "10.0.0.0/24")
      (import_network_map parsers 950 (some document) (server office)).1.db.tables
    × HasHost k printer_ip
        (import_network_map parsers 950 (some document) (server office)).1.db.tables
unfolding text_eq last_cidr
import_network_map-Lands_example =
    import_network_map-Lands parsers 950 document (server office) (text "seg-1")
      (text "10.0.0.0/24") printer_ip office-IsHealthy refl refl refl
