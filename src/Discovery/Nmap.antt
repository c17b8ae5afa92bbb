-- ===== src/Discovery/Nmap.antt =====
-- internal/discovery/scanner.go, the scan of a subnet with nmap, `scanSubnetNmap`: the built-in prober
-- finds hosts and ports, and nmap adds product and version. Goroutines are taken one after another.
pub mod Keeping
use network_enumerator.Common.{
  ℕ, suc, Bool, true, false, ◌&&◌, not, Option, none, some, List, [], ◌∷◌, ◌++◌, Text, is_empty,
  length, keep, if◌then◌else◌,
}
use network_enumerator.Common.Dict.{get, put, keys}
use network_enumerator.Store.Sql.{M, ◌>>=◌, ◌>>◌, pure}
use network_enumerator.Store.Hosts.{upsert_host}
use network_enumerator.Store.Hosts.Sweep.{is_seen}
use network_enumerator.Store.Ports.{has_port}
use network_enumerator.Store.Subnets.{touch_subnet_scan}
use network_enumerator.Store.Schema.{SubnetRow}
use network_enumerator.Discovery.Attempt.{attempt}
use network_enumerator.Discovery.Network.{Network, NetdiscoverHost, NmapPort, NmapHost, subnet_ips}
use network_enumerator.Discovery.Augment.{netdiscover_augment}
use network_enumerator.Discovery.Recording.{record_host, record_open_port, emit_host_down_events}
use network_enumerator.Discovery.PortScan.{scan_ports}
use network_enumerator.Discovery.Dns.{DnsOnlyResult, scan_unconfirmed_by_dns}
use network_enumerator.Discovery.Anomalies.{
  count_mac, check_ping_only_anomaly, check_duplicate_mac_anomaly,
}
use network_enumerator.Discovery.Cycle.{unseen_ip_strings, add_seen, is_nil, nd_vendor, mac_of}

-- `nmapCycleState`.
pub record NmapCycle : Type 0 where
  pub host_ids : List (Text × ℕ)
  pub seen : List Text
  pub mac_counts : List (Text × ℕ)
  pub union_open_ports : List ℕ
  pub ping_only : ℕ

abbrev pub new_nmap_cycle : NmapCycle
new_nmap_cycle = record {
  host_ids = [];
  seen = [];
  mac_counts = [];
  union_open_ports = [];
  ping_only = 0;
}

-- `unionOpenPorts[port] = true` in a loop.
abbrev pub add_ports : List ℕ → List ℕ → List ℕ
add_ports [] union = union
add_ports (p ∷ ports) union = add_ports ports (if has_port union p then union else p ∷ union)

-- What is entered for a host.
abbrev pub host_entered : Text → ℕ → Text → List ℕ → NmapCycle → NmapCycle
host_entered ip id mac ports c = record c {
  host_ids = put ip id c.host_ids;
  seen = add_seen ip c.seen;
  mac_counts = if is_empty mac then c.mac_counts else count_mac mac c.mac_counts;
  union_open_ports = add_ports ports c.union_open_ports;
}

-- The results of `discoverAliveHostsAllSources`.
pub record AllSources : Type 0 where
  pub alive : List Text
  pub nd_hosts : List (Text × NetdiscoverHost)
  pub dns_confirmed : List (Text × DnsOnlyResult)

module _ (net : Network) (now : ℕ) where
  unfoldable pub fold_dns_confirmed : ℕ → Text → DnsOnlyResult → NmapCycle → M NmapCycle
  fold_dns_confirmed subnet_id ip r c = do
    let mac = net.arp ip
    (if is_empty mac then pure none else attempt (upsert_host subnet_id ip mac [] [] now))
    pure (host_entered ip r.host_id mac r.open_ports c)

  unfoldable pub discover_alive_hosts : Text → Option (List Text)
  discover_alive_hosts cidr = elim (subnet_ips net cidr) [
    | none ↦ none
    | some ips ↦ some (keep net.is_alive ips)
  ]

  -- The addresses of netdiscover that are not in the list yet.
  abbrev pub union_alive : List Text → List Text → List Text
  union_alive alive ips = alive ++ unseen_ip_strings ips alive

  -- What follows the second call of `ExpandIPv4`.
  unfoldable pub sweep_unseen :
      SubnetRow
      → Bool
      → List (Text × NetdiscoverHost)
      → List Text
      → Option (List Text)
      → M AllSources
  sweep_unseen sn deep nd_hosts alive none =
      pure (record { alive = alive; nd_hosts = nd_hosts; dns_confirmed = [] })
  sweep_unseen sn deep nd_hosts alive (some ips) = do
    confirmed ← scan_unconfirmed_by_dns net now sn (unseen_ip_strings ips alive) deep
    pure
        (record { alive = alive ++ keys confirmed; nd_hosts = nd_hosts; dns_confirmed = confirmed })

  -- What follows the probes.
  unfoldable pub add_sources : SubnetRow → Bool → Option (List Text) → M (Option AllSources)
  unfolding sweep_unseen
  add_sources sn deep none = pure none
  add_sources sn deep (some alive) = do
    nd_hosts ← netdiscover_augment net sn
    s ← sweep_unseen sn deep nd_hosts (union_alive alive (keys nd_hosts)) (subnet_ips net sn.cidr)
    pure (some s)

  unfoldable pub discover_alive_hosts_all_sources : SubnetRow → Bool → M (Option AllSources)
  unfolding discover_alive_hosts add_sources
  discover_alive_hosts_all_sources sn deep = add_sources sn deep (discover_alive_hosts sn.cidr)

  -- What follows `recordHost`.
  unfoldable pub nmap_ports_of_recorded : Text → Bool → Text → NmapCycle → Option ℕ → M NmapCycle
  nmap_ports_of_recorded ip deep mac c none = pure c
  nmap_ports_of_recorded ip deep mac c (some id) = do
    ports ← scan_ports net.probe id ip deep now
    let entered = host_entered ip id mac ports c
    pure (if is_nil ports then record entered { ping_only = suc c.ping_only } else entered)

  -- A round of the loop over the hosts that are alive.
  unfoldable pub record_alive :
      ℕ
      → Bool
      → List (Text × NetdiscoverHost)
      → Text
      → NmapCycle
      → Option DnsOnlyResult
      → M NmapCycle
  unfolding fold_dns_confirmed nmap_ports_of_recorded
  record_alive subnet_id deep nd_hosts ip c (some r) = fold_dns_confirmed subnet_id ip r c
  record_alive subnet_id deep nd_hosts ip c none =
      let nd = get ip nd_hosts in
      let mac = mac_of net nd ip in
      attempt (record_host subnet_id ip mac (net.reverse_dns ip) (nd_vendor nd) now)
      >>= nmap_ports_of_recorded ip deep mac c

  unfoldable pub record_all_alive : ℕ → Bool → AllSources → List Text → NmapCycle → M NmapCycle
  unfolding record_alive
  record_all_alive subnet_id deep s [] c = pure c
  record_all_alive subnet_id deep s (ip ∷ ips) c = do
    c' ← record_alive subnet_id deep s.nd_hosts ip c (get ip s.dns_confirmed)
    record_all_alive subnet_id deep s ips c'

  unfoldable pub enrich_ports : ℕ → Text → List NmapPort → M (Unit {0})
  enrich_ports id ip [] = pure tt
  enrich_ports id ip (p ∷ ports) =
      record_open_port id ip p.port p.service p.banner p.product p.version now
      >> enrich_ports id ip ports

  unfoldable pub enrich_host : ℕ → NmapHost → Option ℕ → M (Unit {0})
  unfolding enrich_ports
  enrich_host subnet_id h none = pure tt
  enrich_host subnet_id h (some id) =
      (if is_empty h.mac && is_empty h.vendor
        then pure none
        else attempt (upsert_host subnet_id h.ip h.mac [] h.vendor now))
      >> enrich_ports id h.ip h.ports

  unfoldable pub enrich_hosts : ℕ → NmapCycle → List NmapHost → M (Unit {0})
  unfolding enrich_host
  enrich_hosts subnet_id c [] = pure tt
  enrich_hosts subnet_id c (h ∷ hosts) =
      enrich_host subnet_id h (get h.ip c.host_ids) >> enrich_hosts subnet_id c hosts

  unfoldable pub enrich : ℕ → NmapCycle → Option (List NmapHost) → M (Unit {0})
  unfolding enrich_hosts
  enrich subnet_id c none = pure tt
  enrich subnet_id c (some hosts) = enrich_hosts subnet_id c hosts

  -- What follows the discovery.
  unfoldable pub scan_alive : SubnetRow → Bool → ℕ → AllSources → M ℕ
  unfolding record_all_alive enrich
  scan_alive sn deep threshold s =
      if is_nil s.alive then emit_host_down_events sn.id [] threshold now >> pure 0 else do
        c ← record_all_alive sn.id deep s s.alive new_nmap_cycle
        check_ping_only_anomaly now sn (length c.seen) c.ping_only
        check_duplicate_mac_anomaly now sn c.mac_counts
        emit_host_down_events sn.id c.seen threshold now
        (if is_nil c.union_open_ports
            then pure tt
            else enrich sn.id c (net.run_nmap s.alive c.union_open_ports))
        pure (length c.seen)

  -- What follows the results of all sources.
  unfoldable pub scan_found : SubnetRow → Bool → ℕ → Option AllSources → M ℕ
  unfolding scan_alive
  scan_found sn deep threshold none = pure 0
  scan_found sn deep threshold (some s) =
      attempt (touch_subnet_scan sn.id now) >> scan_alive sn deep threshold s

  unfoldable pub scan_subnet_nmap : SubnetRow → Bool → ℕ → M ℕ
  unfolding discover_alive_hosts_all_sources scan_found
  scan_subnet_nmap sn deep threshold =
      discover_alive_hosts_all_sources sn deep >>= scan_found sn deep threshold
