-- ===== src/Discovery/Run/Safety.antt =====
-- What no cycle of internal/discovery/scanner.go does to the database, whichever way it scans, whatever
-- the network answers and whichever statements fail.
use network_enumerator.Common.{
  ℕ, suc, ◌+◌, ◌≡◌, refl, Bool, true, false, Option, none, some, List, [], ◌∷◌, Text,
}
use network_enumerator.Store.Table.{has_id}
use network_enumerator.Store.Schema.{Tables, SubnetRow, host_row}
use network_enumerator.Store.Sql.{Db, after}
use network_enumerator.Store.Sql.Keeps.{
  Keeps, Keeps-pure, Keeps-query, Keeps->>=, Keeps->>, Keeps-if,
}
use network_enumerator.Store.Settings.{get_scan_method}
use network_enumerator.Store.Subnets.{list_subnets, upsert_auto_subnet}
use network_enumerator.Discovery.Attempt.{Keeps-attempt}
use network_enumerator.Discovery.Network.{Network}
use network_enumerator.Discovery.Method.{
  ScanMode, regular, quick, mass, deep, reverse_dns, Method, tcp, nmap, effective_scan_method,
  resolve_scan_method,
}
use network_enumerator.Discovery.PortScan.Keeping.{RecordKeeps, StoreKeeps, emit-Keeps}
use network_enumerator.Discovery.Dns.Keeping.{scan_unconfirmed_by_dns-Keeps}
use network_enumerator.Discovery.Cycle.Keeping.{scan_subnet_tcp-Keeps}
use network_enumerator.Discovery.Cycle.Staying.{
  user_data, Stays, Stays-StoreKeeps, upsert_auto_subnet-Stays,
}
use network_enumerator.Discovery.Nmap.Keeping.{scan_subnet_nmap-Keeps}
use network_enumerator.Discovery.Run.{
  Config, scan_ips_reverse_dns, scan_subnet_reverse_dns, scan_by, scan_subnet, local_upserted,
  upsert_locals, scan_subnets, run_once, or_no_subnets,
}

module _ (P : Tables → Type 0) (store : RecordKeeps P) (cfg : Config) (net : Network)
    (now : ℕ) where
  reverse_dns_ips-Keeps :
      (sn : SubnetRow) (ips : Option (List Text))
      → Keeps P (scan_ips_reverse_dns cfg net now sn ips)
  unfolding scan_ips_reverse_dns
  reverse_dns_ips-Keeps sn none = Keeps-pure P 0
  reverse_dns_ips-Keeps sn (some ips) =
      Keeps->>= P _ _ (scan_unconfirmed_by_dns-Keeps P store net now sn ips false) λ confirmed.
        Keeps->>= P _ _ (Keeps-attempt P _ (store.touches sn.id now)) (λ touched. Keeps-pure P _)

  pub scan_subnet_reverse_dns-Keeps :
      (sn : SubnetRow) → Keeps P (scan_subnet_reverse_dns cfg net now sn)
  unfolding scan_subnet_reverse_dns
  scan_subnet_reverse_dns-Keeps sn = reverse_dns_ips-Keeps sn _

resolve-Keeps :
    (P : Tables → Type 0) (path : Option Text) (mode : ScanMode)
    → Keeps P (resolve_scan_method path mode)
unfolding resolve_scan_method effective_scan_method get_scan_method
resolve-Keeps P path quick = Keeps-pure P _
resolve-Keeps P path mass = Keeps-pure P _
resolve-Keeps P path deep = Keeps-pure P _
resolve-Keeps P path regular =
    Keeps->>= P _ _
      (Keeps-attempt P _ (Keeps->>= P _ _ (Keeps-query P _) (λ found. Keeps-pure P _)))
      (λ read. Keeps-pure P _)
resolve-Keeps P path reverse_dns =
    Keeps->>= P _ _
      (Keeps-attempt P _ (Keeps->>= P _ _ (Keeps-query P _) (λ found. Keeps-pure P _)))
      (λ read. Keeps-pure P _)

module _ (P : Tables → Type 0) (store : StoreKeeps P) (cfg : Config) (net : Network) (now : ℕ) where
  scan_by-Keeps : (sn : SubnetRow) (b : Bool) (m : Method) → Keeps P (scan_by cfg net now sn b m)
  unfolding scan_by
  scan_by-Keeps sn b tcp = scan_subnet_tcp-Keeps P store net now sn b cfg.miss_threshold
  scan_by-Keeps sn b (nmap path) = scan_subnet_nmap-Keeps P store net now sn b cfg.miss_threshold

  scan_subnet-Keeps : (sn : SubnetRow) (mode : ScanMode) → Keeps P (scan_subnet cfg net now sn mode)
  unfolding scan_subnet
  scan_subnet-Keeps sn regular =
      Keeps->>= P _ _ (resolve-Keeps P net.nmap_path regular) (scan_by-Keeps sn false)
  scan_subnet-Keeps sn quick =
      Keeps->>= P _ _ (resolve-Keeps P net.nmap_path quick) (scan_by-Keeps sn false)
  scan_subnet-Keeps sn mass =
      Keeps->>= P _ _ (resolve-Keeps P net.nmap_path mass) (scan_by-Keeps sn false)
  scan_subnet-Keeps sn deep =
      Keeps->>= P _ _ (resolve-Keeps P net.nmap_path deep) (scan_by-Keeps sn true)
  scan_subnet-Keeps sn reverse_dns = scan_subnet_reverse_dns-Keeps P store.records cfg net now sn

-- A cycle keeps what the scan of a subnet keeps.
module _ (P : Tables → Type 0) (store : RecordKeeps P)
    (upserts : (cidr name iface : Text) (now : ℕ)
      → Keeps P (upsert_auto_subnet cidr name iface now))
    (cfg : Config) (net : Network) (now : ℕ) (mode : ScanMode)
    (scans : (sn : SubnetRow) → Keeps P (scan_subnet cfg net now sn mode)) where
  upserted-Keeps :
      (cidr iface : Text) (o : Option (ℕ × Bool))
      → Keeps P (local_upserted cfg net now cidr iface o)
  unfolding local_upserted
  upserted-Keeps cidr iface none = Keeps-pure P tt
  upserted-Keeps cidr iface (some (id, false)) = Keeps-pure P tt
  upserted-Keeps cidr iface (some (id, true)) = emit-Keeps P store _ _ id now

  upsert_locals-Keeps : (locals : List (Text × Text)) → Keeps P (upsert_locals cfg net now locals)
  unfolding upsert_locals
  upsert_locals-Keeps [] = Keeps-pure P tt
  upsert_locals-Keeps ((cidr, iface) ∷ locals) =
      Keeps->> P _ _
        (Keeps->>= P _ _ (Keeps-attempt P _ (upserts cidr [] iface now))
          (upserted-Keeps cidr iface))
        (upsert_locals-Keeps locals)

  scan_subnets-Keeps :
      (done : ℕ → Bool) (check total : ℕ) (subnets : List SubnetRow)
      → Keeps P (scan_subnets cfg net now mode done check total subnets)
  unfolding scan_subnets
  scan_subnets-Keeps done check total [] = Keeps-pure P _
  scan_subnets-Keeps done check total (sn ∷ subnets) =
      Keeps-if P _ _ _ (scan_subnets-Keeps done check total subnets) (
        Keeps-if P _ _ _ (Keeps-pure P none) (
          Keeps->>= P _ _ (scans sn)
            (λ n. scan_subnets-Keeps done (suc check) (total + n) subnets)))

  pub run_once-Keeps : (done : ℕ → Bool) → Keeps P (run_once cfg net now mode done)
  unfolding run_once list_subnets
  run_once-Keeps done =
      Keeps->> P _ _ (Keeps-if P _ _ _ (upsert_locals-Keeps net.local_subnets) (Keeps-pure P tt)) (
        Keeps->>= P _ _ (Keeps-attempt P _ (Keeps-query P _))
          (λ subnets. scan_subnets-Keeps done 0 0 (or_no_subnets subnets)))

-- A cycle in any mode deletes no host, and does not touch tags, credentials, settings and risk rules,
-- whatever the network and the tools answer, whichever statements fail, and wherever it is cancelled.
pub run_once-Stays :
    (cfg : Config) (net : Network) (now : ℕ) (mode : ScanMode) (done : ℕ → Bool) (d : Db) (i : ℕ)
    → has_id i d.tables.hosts.rows ≡ true
    → (user_data (after (run_once cfg net now mode done d)).tables ≡ user_data d.tables)
      × (has_id i (after (run_once cfg net now mode done d)).tables.hosts.rows ≡ true)
unfolding Keeps
run_once-Stays cfg net now mode done d i has =
    let u = user_data d.tables in
    run_once-Keeps (Stays u i) (Stays-StoreKeeps u i).records (upsert_auto_subnet-Stays u i) cfg net
      now mode (λ sn. scan_subnet-Keeps (Stays u i) (Stays-StoreKeeps u i) cfg net now sn mode) done
      d (refl, has)
