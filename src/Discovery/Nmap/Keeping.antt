-- ===== src/Discovery/Nmap/Keeping.antt =====
-- What `scanSubnetNmap` (internal/discovery/scanner.go) keeps of the database.
use network_enumerator.Common.{ℕ, Bool, Option, none, some, List, [], ◌∷◌, Text}
use network_enumerator.Common.Dict.{get}
use network_enumerator.Store.Schema.{Tables, SubnetRow}
use network_enumerator.Store.Sql.Keeps.{Keeps, Keeps-pure, Keeps->>=, Keeps->>, Keeps-if}
use network_enumerator.Discovery.Attempt.{Keeps-attempt}
use network_enumerator.Discovery.Network.{Network, NetdiscoverHost, NmapPort, NmapHost, subnet_ips}
use network_enumerator.Discovery.PortScan.Keeping.{
  StoreKeeps, record_host-Keeps, record_open_port-Keeps, scan_ports-Keeps,
  emit_host_down_events-Keeps,
}
use network_enumerator.Discovery.Dns.{DnsOnlyResult}
use network_enumerator.Discovery.Dns.Keeping.{scan_unconfirmed_by_dns-Keeps}
use network_enumerator.Discovery.Cycle.Keeping.{
  netdiscover_augment-Keeps, ping_only-Keeps, duplicate_mac-Keeps,
}
use network_enumerator.Discovery.Nmap.{
  NmapCycle, AllSources, new_nmap_cycle, fold_dns_confirmed, sweep_unseen, add_sources,
  discover_alive_hosts_all_sources, nmap_ports_of_recorded, record_alive, record_all_alive,
  enrich_ports, enrich_host, enrich_hosts, enrich, scan_alive, scan_found, scan_subnet_nmap,
}

module _ (P : Tables → Type 0) (store : StoreKeeps P) (net : Network) (now : ℕ) where
  fold_dns_confirmed-Keeps :
      (s : ℕ) (ip : Text) (r : DnsOnlyResult) (c : NmapCycle)
      → Keeps P (fold_dns_confirmed net now s ip r c)
  unfolding fold_dns_confirmed
  fold_dns_confirmed-Keeps s ip r c =
      Keeps->> P _ _
        (Keeps-if P _ _ _ (Keeps-pure P none)
          (Keeps-attempt P _ (store.records.upserts s ip _ [] [] now)))
        (Keeps-pure P _)

  sweep_unseen-Keeps :
      (sn : SubnetRow) (deep : Bool) (nd : List (Text × NetdiscoverHost)) (alive : List Text)
      (ips : Option (List Text))
      → Keeps P (sweep_unseen net now sn deep nd alive ips)
  unfolding sweep_unseen
  sweep_unseen-Keeps sn deep nd alive none = Keeps-pure P _
  sweep_unseen-Keeps sn deep nd alive (some ips) =
      Keeps->>= P _ _ (scan_unconfirmed_by_dns-Keeps P store.records net now sn _ deep)
        (λ confirmed. Keeps-pure P _)

  add_sources-Keeps :
      (sn : SubnetRow) (deep : Bool) (alive : Option (List Text))
      → Keeps P (add_sources net now sn deep alive)
  unfolding add_sources
  add_sources-Keeps sn deep none = Keeps-pure P none
  add_sources-Keeps sn deep (some alive) =
      Keeps->>= P _ _ (netdiscover_augment-Keeps P store now net sn) λ nd.
        Keeps->>= P _ _ (sweep_unseen-Keeps sn deep nd _ (subnet_ips net sn.cidr))
          (λ s. Keeps-pure P _)

  recorded-Keeps :
      (ip : Text) (deep : Bool) (mac : Text) (c : NmapCycle) (o : Option ℕ)
      → Keeps P (nmap_ports_of_recorded net now ip deep mac c o)
  unfolding nmap_ports_of_recorded
  recorded-Keeps ip deep mac c none = Keeps-pure P c
  recorded-Keeps ip deep mac c (some id) =
      Keeps->>= P _ _ (scan_ports-Keeps P store.records net.probe id ip deep now)
        (λ ports. Keeps-pure P _)

  record_alive-Keeps :
      (s : ℕ) (deep : Bool) (nd : List (Text × NetdiscoverHost)) (ip : Text) (c : NmapCycle)
      (o : Option DnsOnlyResult)
      → Keeps P (record_alive net now s deep nd ip c o)
  unfolding record_alive
  record_alive-Keeps s deep nd ip c (some r) = fold_dns_confirmed-Keeps s ip r c
  record_alive-Keeps s deep nd ip c none =
      Keeps->>= P _ _ (Keeps-attempt P _ (record_host-Keeps P store.records s ip _ _ _ now))
        (recorded-Keeps ip deep _ c)

  record_all_alive-Keeps :
      (s : ℕ) (deep : Bool) (a : AllSources) (ips : List Text) (c : NmapCycle)
      → Keeps P (record_all_alive net now s deep a ips c)
  unfolding record_all_alive
  record_all_alive-Keeps s deep a [] c = Keeps-pure P c
  record_all_alive-Keeps s deep a (ip ∷ ips) c =
      Keeps->>= P _ _ (record_alive-Keeps s deep a.nd_hosts ip c (get ip a.dns_confirmed))
        (record_all_alive-Keeps s deep a ips)

  enrich_ports-Keeps :
      (id : ℕ) (ip : Text) (ports : List NmapPort) → Keeps P (enrich_ports net now id ip ports)
  unfolding enrich_ports
  enrich_ports-Keeps id ip [] = Keeps-pure P tt
  enrich_ports-Keeps id ip (p ∷ ports) =
      Keeps->> P _ _ (record_open_port-Keeps P store.records id ip p.port _ _ _ _ now)
        (enrich_ports-Keeps id ip ports)

  enrich_host-Keeps : (s : ℕ) (h : NmapHost) (o : Option ℕ) → Keeps P (enrich_host net now s h o)
  unfolding enrich_host
  enrich_host-Keeps s h none = Keeps-pure P tt
  enrich_host-Keeps s h (some id) =
      Keeps->> P _ _
        (Keeps-if P _ _ _ (Keeps-pure P none)
          (Keeps-attempt P _ (store.records.upserts s h.ip h.mac [] h.vendor now)))
        (enrich_ports-Keeps id h.ip h.ports)

  enrich_hosts-Keeps :
      (s : ℕ) (c : NmapCycle) (hosts : List NmapHost) → Keeps P (enrich_hosts net now s c hosts)
  unfolding enrich_hosts
  enrich_hosts-Keeps s c [] = Keeps-pure P tt
  enrich_hosts-Keeps s c (h ∷ hosts) =
      Keeps->> P _ _ (enrich_host-Keeps s h (get h.ip c.host_ids)) (enrich_hosts-Keeps s c hosts)

  enrich-Keeps :
      (s : ℕ) (c : NmapCycle) (o : Option (List NmapHost)) → Keeps P (enrich net now s c o)
  unfolding enrich
  enrich-Keeps s c none = Keeps-pure P tt
  enrich-Keeps s c (some hosts) = enrich_hosts-Keeps s c hosts

  scan_alive-Keeps :
      (sn : SubnetRow) (deep : Bool) (threshold : ℕ) (a : AllSources)
      → Keeps P (scan_alive net now sn deep threshold a)
  unfolding scan_alive
  scan_alive-Keeps sn deep threshold a =
      Keeps-if P _ _ _
        (Keeps->> P _ _ (emit_host_down_events-Keeps P store sn.id [] threshold now)
          (Keeps-pure P 0))
        (Keeps->>= P _ _ (record_all_alive-Keeps sn.id deep a a.alive new_nmap_cycle) λ c.
          Keeps->> P _ _ (ping_only-Keeps P store now sn _ c.ping_only) (
            Keeps->> P _ _ (duplicate_mac-Keeps P store now sn c.mac_counts) (
              Keeps->> P _ _ (emit_host_down_events-Keeps P store sn.id c.seen threshold now) (
                Keeps->> P _ _ (Keeps-if P _ _ _ (Keeps-pure P tt) (enrich-Keeps sn.id c _))
                  (Keeps-pure P _)))))

  scan_found-Keeps :
      (sn : SubnetRow) (deep : Bool) (threshold : ℕ) (o : Option AllSources)
      → Keeps P (scan_found net now sn deep threshold o)
  unfolding scan_found
  scan_found-Keeps sn deep threshold none = Keeps-pure P 0
  scan_found-Keeps sn deep threshold (some a) =
      Keeps->> P _ _ (Keeps-attempt P _ (store.records.touches sn.id now))
        (scan_alive-Keeps sn deep threshold a)

  pub scan_subnet_nmap-Keeps :
      (sn : SubnetRow) (deep : Bool) (threshold : ℕ)
      → Keeps P (scan_subnet_nmap net now sn deep threshold)
  unfolding scan_subnet_nmap discover_alive_hosts_all_sources
  scan_subnet_nmap-Keeps sn deep threshold =
      Keeps->>= P _ _ (add_sources-Keeps sn deep _) (scan_found-Keeps sn deep threshold)
