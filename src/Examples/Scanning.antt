-- ===== src/Examples/Scanning.antt =====
-- The theorems on a scan cycle, on the network of `Examples.Inventory`.
use network_enumerator.Common.{
  any, keep, map, ◌≡◌, refl, true, false, none, some, List, [], ◌∷◌, text, text_eq, ◌==◌,
  if◌then◌else◌,
}
use network_enumerator.Store.Table.{has_id}
use network_enumerator.Store.Schema.{host_row}
use network_enumerator.Store.Sql.{Db, after, fresh}
use network_enumerator.Store.Calls.{Call, run, adds_manual_subnet, upserts_host}
use network_enumerator.Store.Open.{open_store}
use network_enumerator.Discovery.Cycle.Staying.{user_data}
use network_enumerator.Store.Hosts.SweepLaws.{with_hosts, swept_times}
use network_enumerator.Discovery.Recording.{record_open_port, emit_host_down_events}
use network_enumerator.Discovery.Recording.Reflag.{with_port, record_open_port_lem}
use network_enumerator.Discovery.Recording.Down.{with_down_events, falls, emit_host_down_events_lem}
use network_enumerator.Discovery.Network.{Network}
use network_enumerator.Discovery.Run.{Config, run_once}
use network_enumerator.Discovery.Run.Safety.{run_once-Stays}
use network_enumerator.Discovery.Run.Passive.{up_host, run_once-reverse_dns-Holds}
use network_enumerator.Discovery.Method.{regular, reverse_dns, resolve_scan_method}
use network_enumerator.Discovery.Method.Choice.{Settles, resolve_scan_method_lem}
use network_enumerator.Examples.Inventory.{
  office, office-IsHealthy, office-Below, network, printer, router_ip, printer_ip,
}

-- One host is alive, with a web server.
abbrev pub answers : Network
answers = record {
  is_alive = λ ip. text_eq ip router_ip;
  reverse_dns = λ ip. [];
  arp = λ ip. [];
  probe = λ ip port. if port == 80 then some [] else none;
  run_netdiscover = none;
  run_dnsrecon = none;
  dig = some (λ ip. text "printer.lan");
  nmap_path = some (text "/usr/bin/nmap");
  run_nmap = λ targets ports. some (
      record {
        ip = router_ip;
        mac = [];
        vendor = text "Acme";
        hostname = [];
        ports =
            record {
              port = 80;
              service = text "http";
              banner = [];
              product = text "nginx";
              version = [];
            }
            ∷ [];
      }
      ∷ []);
  local_subnets = (text "10.0.0.0/30", text "eth0") ∷ [];
  parse_cidr = λ cidr.
      some
        (record { ip = 10 ∷ 0 ∷ 0 ∷ 1 ∷ []; net_ip = 10 ∷ 0 ∷ 0 ∷ 0 ∷ []; ones = 30; bits = 32 });
}

abbrev settings : Config
settings = record { auto_discover_local = true; miss_threshold = 3 }

-- A new database with the subnet and the printer.
abbrev pub setup : List Call
setup =
    adds_manual_subnet (text "10.0.0.0/24") (text "lan") 5
    ∷ upserts_host 1 printer_ip [] [] [] 6
    ∷ []

abbrev pub started : Db
started =
    run (λ s. s) setup
      (after (open_store (λ s. s) [] (some []) (record fresh { fails = λ n. false })))

run_once-Stays_example :
    (user_data (after (run_once settings answers 900 regular (λ n. false) office)).tables
      ≡ user_data network)
    × (has_id 2
          (after (run_once settings answers 900 regular (λ n. false) office)).tables.hosts.rows
        ≡ true)
run_once-Stays_example = run_once-Stays settings answers 900 regular (λ n. false) office 2 refl

run_once-reverse_dns-Holds_example :
    (user_data (after (run_once settings answers 900 reverse_dns (λ n. false) office)).tables
      ≡ user_data network)
    × (any
          (up_host 2)
          (after (run_once settings answers 900 reverse_dns (λ n. false) office)).tables.hosts.rows
        ≡ true)
run_once-reverse_dns-Holds_example =
    run_once-reverse_dns-Holds settings answers 900 (λ n. false) office 2 refl

record_open_port_lem_example :
    (after (record_open_port 2 printer_ip 443 (text "https") [] [] [] 950 office)).tables
    ≡ with_port 2 443 printer_ip (text "https") [] [] [] 950 network
record_open_port_lem_example =
    record_open_port_lem 2 443 printer_ip (text "https") [] [] [] 950 printer office
      office-IsHealthy refl refl refl

emit_host_down_events_lem_example :
    (after (emit_host_down_events 1 (router_ip ∷ []) 1 960 office)).tables
    ≡ with_down_events 960
        (keep (falls 1 (router_ip ∷ []) 1) network.hosts.rows)
        (with_hosts network (map (swept_times 1 1 (router_ip ∷ []) 1) network.hosts.rows))
emit_host_down_events_lem_example =
    emit_host_down_events_lem 1 (router_ip ∷ []) 1 960 office office-IsHealthy office-Below

resolve_scan_method_lem_example :
    Settles
      (some (text "/usr/bin/nmap"))
      (text "/usr/bin/nmap")
      regular
      office
      (resolve_scan_method (some (text "/usr/bin/nmap")) regular office)
resolve_scan_method_lem_example =
    resolve_scan_method_lem (some (text "/usr/bin/nmap")) (text "/usr/bin/nmap") regular office
