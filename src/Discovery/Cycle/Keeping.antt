-- ===== src/Discovery/Cycle/Keeping.antt =====
-- What `scanSubnetTCP` (internal/discovery/scanner.go) keeps of the database.
use network_enumerator.Common.{ℕ, Bool, Option, none, some, List, [], ◌∷◌, Text}
use network_enumerator.Store.Schema.{Tables, SubnetRow}
use network_enumerator.Store.Sql.Keeps.{
  Keeps, Keeps-pure, Keeps-query, Keeps->>=, Keeps->>, Keeps-if,
}
use network_enumerator.Store.Settings.{get_netdiscover_enabled}
use network_enumerator.Discovery.Attempt.{Keeps-attempt}
use network_enumerator.Discovery.Network.{Network, NetdiscoverHost}
use network_enumerator.Discovery.Augment.{netdiscover_augment}
use network_enumerator.Discovery.Anomalies.{check_ping_only_anomaly, check_duplicate_mac_anomaly}
use network_enumerator.Discovery.PortScan.Keeping.{
  StoreKeeps, emit-Keeps, record_host-Keeps, scan_ports-Keeps, emit_host_down_events-Keeps,
}
use network_enumerator.Discovery.Dns.Keeping.{scan_unconfirmed_by_dns-Keeps}
use network_enumerator.Discovery.Cycle.{
  Cycle, ports_of_recorded, probe_and_record, probe_all, scan_ips_tcp, scan_subnet_tcp, new_cycle,
}

-- What both kinds of cycle share.
module _ (P : Tables → Type 0) (store : StoreKeeps P) (now : ℕ) where
  pub netdiscover_augment-Keeps :
      (net : Network) (sn : SubnetRow) → Keeps P (netdiscover_augment net sn)
  unfolding netdiscover_augment get_netdiscover_enabled
  netdiscover_augment-Keeps net sn = Keeps-if P _ _ _ (Keeps-pure P []) (
      Keeps->>= P _ _
        (Keeps-attempt P _ (Keeps->>= P _ _ (Keeps-query P _) (λ found. Keeps-pure P _)))
        (λ enabled. Keeps-pure P _))

  pub ping_only-Keeps :
      (sn : SubnetRow) (total ping_only : ℕ)
      → Keeps P (check_ping_only_anomaly now sn total ping_only)
  unfolding check_ping_only_anomaly
  ping_only-Keeps sn total ping_only =
      Keeps-if P _ _ _ (emit-Keeps P store.records _ _ sn.id now) (Keeps-pure P tt)

  pub duplicate_mac-Keeps :
      (sn : SubnetRow) (counts : List (Text × ℕ))
      → Keeps P (check_duplicate_mac_anomaly now sn counts)
  unfolding check_duplicate_mac_anomaly
  duplicate_mac-Keeps sn [] = Keeps-pure P tt
  duplicate_mac-Keeps sn ((mac, count) ∷ counts) =
      Keeps->> P _ _ (Keeps-if P _ _ _ (emit-Keeps P store.records _ _ sn.id now) (Keeps-pure P tt))
        (duplicate_mac-Keeps sn counts)

module _ (P : Tables → Type 0) (store : StoreKeeps P) (net : Network) (now : ℕ) where
  probe_and_record-Keeps :
      (s : ℕ) (ip : Text) (deep : Bool) (nd : List (Text × NetdiscoverHost))
      → Keeps P (probe_and_record net now s ip deep nd)
  unfolding probe_and_record ports_of_recorded
  probe_and_record-Keeps s ip deep nd = Keeps-if P _ _ _ (Keeps-pure P _) (
      Keeps->>= P _ _ (Keeps-attempt P _ (record_host-Keeps P store.records s ip _ _ _ now)) (elim [
        | none ↦ Keeps-pure P _
        | some id ↦
            Keeps->>= P _ _ (scan_ports-Keeps P store.records net.probe id ip deep now)
              (λ ports. Keeps-pure P _)
      ]))

  probe_all-Keeps :
      (s : ℕ) (deep : Bool) (nd : List (Text × NetdiscoverHost)) (ips : List Text) (c : Cycle)
      → Keeps P (probe_all net now s deep nd ips c)
  unfolding probe_all
  probe_all-Keeps s deep nd [] c = Keeps-pure P c
  probe_all-Keeps s deep nd (ip ∷ ips) c =
      Keeps->>= P _ _ (probe_and_record-Keeps s ip deep nd) (λ p. probe_all-Keeps s deep nd ips _)

  scan_ips_tcp-Keeps :
      (sn : SubnetRow) (deep : Bool) (threshold : ℕ) (ips : Option (List Text))
      → Keeps P (scan_ips_tcp net now sn deep threshold ips)
  unfolding scan_ips_tcp
  scan_ips_tcp-Keeps sn deep threshold none = Keeps-pure P 0
  scan_ips_tcp-Keeps sn deep threshold (some ips) =
      Keeps->>= P _ _ (netdiscover_augment-Keeps P store now net sn) λ nd.
        Keeps->>= P _ _ (probe_all-Keeps sn.id deep nd ips new_cycle) λ c.
          Keeps->>= P _ _ (scan_unconfirmed_by_dns-Keeps P store.records net now sn _ deep)
            λ confirmed.
              Keeps->>= P _ _ (Keeps-attempt P _ (store.records.touches sn.id now)) λ touched.
                Keeps->> P _ _ (ping_only-Keeps P store now sn _ c.ping_only) (
                  Keeps->> P _ _ (duplicate_mac-Keeps P store now sn c.mac_counts) (
                    Keeps->> P _ _ (emit_host_down_events-Keeps P store sn.id _ threshold now)
                      (Keeps-pure P _)))

  -- A cycle keeps what the methods of the store keep.
  pub scan_subnet_tcp-Keeps :
      (sn : SubnetRow) (deep : Bool) (threshold : ℕ)
      → Keeps P (scan_subnet_tcp net now sn deep threshold)
  unfolding scan_subnet_tcp
  scan_subnet_tcp-Keeps sn deep threshold = scan_ips_tcp-Keeps sn deep threshold _
