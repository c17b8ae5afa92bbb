-- ===== src/Discovery/Dns/Keeping.antt =====
-- What `scanUnconfirmedByDNS` (internal/discovery/scanner.go) keeps of the database.
use network_enumerator.Common.{ℕ, Bool, Option, none, some, List, [], ◌∷◌, Text}
use network_enumerator.Store.Schema.{Tables, SubnetRow}
use network_enumerator.Store.Sql.Keeps.{Keeps, Keeps-pure, Keeps->>=, Keeps->>, Keeps-if}
use network_enumerator.Discovery.Attempt.{Keeps-attempt}
use network_enumerator.Discovery.Network.{Network}
use network_enumerator.Discovery.PortScan.Keeping.{RecordKeeps, emit-Keeps, scan_ports-Keeps}
use network_enumerator.Discovery.Dns.{
  confirm_by_ports, scan_unconfirmed, scan_names, scan_unconfirmed_by_dns,
}

module _ (P : Tables → Type 0) (store : RecordKeeps P) (net : Network) (now : ℕ) where
  confirm_by_ports-Keeps : (id : ℕ) (ports : List ℕ) → Keeps P (confirm_by_ports net now id ports)
  unfolding confirm_by_ports
  confirm_by_ports-Keeps id [] = Keeps-pure P none
  confirm_by_ports-Keeps id (port ∷ ports) =
      Keeps->>= P _ _ (Keeps-attempt P _ (store.confirms id now)) (λ done. Keeps-pure P _)

  scan_unconfirmed-Keeps :
      (ip hostname : Text) (deep : Bool) (o : Option (ℕ × Bool))
      → Keeps P (scan_unconfirmed net now ip hostname deep o)
  unfolding scan_unconfirmed
  scan_unconfirmed-Keeps ip hostname deep none = Keeps-pure P none
  scan_unconfirmed-Keeps ip hostname deep (some (id, is_new)) =
      Keeps->> P _ _ (Keeps-if P is_new _ _ (emit-Keeps P store _ _ id now) (Keeps-pure P tt)) (
        Keeps->>= P _ _ (scan_ports-Keeps P store net.probe id ip deep now)
          (λ ports. confirm_by_ports-Keeps id ports))

  scan_names-Keeps :
      (s : ℕ) (deep : Bool) (names : List (Text × Text)) → Keeps P (scan_names net now s deep names)
  unfolding scan_names
  scan_names-Keeps s deep [] = Keeps-pure P []
  scan_names-Keeps s deep ((ip, hostname) ∷ names) =
      Keeps->>= P _ _ (Keeps-attempt P _ (store.upserts_unconfirmed s ip hostname now)) λ o.
        Keeps->>= P _ _ (scan_unconfirmed-Keeps ip hostname deep o)
          λ confirmed. Keeps->>= P _ _ (scan_names-Keeps s deep names) (λ rest. Keeps-pure P _)

  pub scan_unconfirmed_by_dns-Keeps :
      (sn : SubnetRow) (candidates : List Text) (deep : Bool)
      → Keeps P (scan_unconfirmed_by_dns net now sn candidates deep)
  unfolding scan_unconfirmed_by_dns
  scan_unconfirmed_by_dns-Keeps sn candidates deep = scan_names-Keeps sn.id deep _
