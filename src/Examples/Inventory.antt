-- ===== src/Examples/Inventory.antt =====
-- The theorems on internal/store/hosts.go and ports.go, on a network of two hosts.
use network_enumerator.Common.{
  ℕ, ◌≡◌, refl, true, false, none, some, [], ◌∷◌, map, text, Text, arith, ◌==◌, text_eq,
}
use network_enumerator.Store.Table.Laws.{Below}
use network_enumerator.Store.Schema.{
  Tables, SubnetRow, HostRow, PortRow, auto, up, schema, host_row, port_row,
}
use network_enumerator.Store.Sql.{Db, value, after, fresh, IsHealthy}
use network_enumerator.Store.Hosts.{new_host, upsert_host, upsert_unconfirmed_host, import_host}
use network_enumerator.Store.Hosts.SweepLaws.{with_hosts, sweeps, swept_times, sweeps_lem}
use network_enumerator.Store.Hosts.UpsertLaws.{host_at}
use network_enumerator.Store.Hosts.Upserts.{upsert_result, Upserted, upsert_host_lem}
use network_enumerator.Store.Hosts.Passive.{
  StillKnown, upsert_unconfirmed_host-OnlyFills, import_host-OnlyFills,
}
use network_enumerator.Store.Ports.{new_port}
use network_enumerator.Store.Calls.{
  run, adds_manual_subnet, upserts_host, upserts_port, deletes_subnet,
}
use network_enumerator.Store.Open.{open_store}
use network_enumerator.Store.Integrity.{IsWf}
use network_enumerator.Store.Integrity.Reach.{run-open_store-IsWf}

abbrev pub router_ip : Text
router_ip = text "10.0.0.1"

abbrev pub printer_ip : Text
printer_ip = text "10.0.0.2"

abbrev pub lan : SubnetRow
lan = record {
  id = 1;
  cidr = text "10.0.0.0/24";
  name = text "lan";
  source = auto;
  iface = text "eth0";
  discovered_at = 100;
  last_scan_at = none;
  enabled = true;
  hidden = false;
}

abbrev pub router : HostRow
router = new_host 1 router_ip (text "02:00:00:00:00:01") [] [] up [] 100 1

abbrev pub printer : HostRow
printer = new_host 1 printer_ip [] (text "printer") [] up [] 110 2

abbrev pub web : PortRow
web = new_port 2 80 (text "tcp") (text "http") [] [] [] 120 1

abbrev pub network : Tables
network = record schema {
  subnets = record { rows = lan ∷ []; next = 2 };
  hosts = record { rows = printer ∷ router ∷ []; next = 3 };
  ports = record { rows = web ∷ []; next = 2 };
}

abbrev pub office : Db
office = record fresh { tables = network }

abbrev pub office-IsHealthy : IsHealthy office
office-IsHealthy n = refl

abbrev pub office-Below : Below 3 network.hosts.rows
office-Below = (omega arith, (omega arith, tt))

run-open_store-IsWf_example :
    IsWf
      (run
        (λ s. s)
        (adds_manual_subnet (text "10.0.0.0/24") (text "lan") 5
          ∷ upserts_host 1 router_ip [] [] [] 6
          ∷ upserts_port 1 22 (text "tcp") (text "ssh") [] [] [] 7
          ∷ deletes_subnet 1
          ∷ [])
        (after (
          open_store
            (λ s. s)
            []
            (some (1 ∷ 2 ∷ []))
            (record fresh { fails = λ n. n == 60 })))).tables
run-open_store-IsWf_example =
    run-open_store-IsWf (λ s. s)
      (adds_manual_subnet (text "10.0.0.0/24") (text "lan") 5
        ∷ upserts_host 1 router_ip [] [] [] 6
        ∷ upserts_port 1 22 (text "tcp") (text "ssh") [] [] [] 7
        ∷ deletes_subnet 1
        ∷ [])
      [] (some (1 ∷ 2 ∷ [])) (λ n. n == 60)

sweeps_lem_example :
    (sweeps 3 1 (router_ip ∷ []) 2 office).tables
    ≡ with_hosts network (map (swept_times 3 1 (router_ip ∷ []) 2) network.hosts.rows)
sweeps_lem_example = sweeps_lem 3 1 (router_ip ∷ []) 2 office office-IsHealthy office-Below

upsert_host_lem_example :
    (value (upsert_host 1 printer_ip [] (text "lp") [] 200 office)
      ≡ some (upsert_result 3 (host_at 1 printer_ip network)))
    × ((h : HostRow) × (host_at 1 printer_ip
            (after (upsert_host 1 printer_ip [] (text "lp") [] 200 office)).tables
          ≡ some h)
        × Upserted 1 printer_ip [] (text "lp") [] 200 office (host_at 1 printer_ip network) h)
    × ((◌≡◌ {A = ℕ} 1 1 × (printer_ip ≡ router_ip) → ⊥)
        → host_at 1 router_ip (after (upsert_host 1 printer_ip [] (text "lp") [] 200 office)).tables
          ≡ host_at 1 router_ip network)
upsert_host_lem_example =
    upsert_host_lem 1 printer_ip [] (text "lp") [] 200 office 1 router_ip office-IsHealthy
      office-Below refl

upsert_unconfirmed_host-OnlyFills_example :
    StillKnown 1 router_ip router
      (after (upsert_unconfirmed_host 1 router_ip (text "gw") 300 office)).tables
unfolding text_eq
upsert_unconfirmed_host-OnlyFills_example =
    upsert_unconfirmed_host-OnlyFills 1 router_ip (text "gw") 300 office 1 router_ip router
      office-Below refl

import_host-OnlyFills_example :
    StillKnown 1 router_ip router
      (after (import_host 1 router_ip (text "ff") (text "gw") [] [] 300 office)).tables
unfolding text_eq
import_host-OnlyFills_example =
    import_host-OnlyFills 1 router_ip (text "ff") (text "gw") [] [] 300 office 1 router_ip router
      office-Below refl
