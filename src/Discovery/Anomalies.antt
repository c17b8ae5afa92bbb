-- ===== src/Discovery/Anomalies.antt =====
-- internal/discovery/scanner.go: what a cycle warns of, once its hosts are recorded.
use network_enumerator.Common.{
  ℕ, suc, ◌*◌, ◌&&◌, List, [], ◌∷◌, ◌++◌, Text, text, text_eq, itoa, ltb, leb, if◌then◌else◌,
}
use network_enumerator.Store.Sql.{M, ◌>>◌, pure}
use network_enumerator.Store.Schema.{SubnetRow}
use network_enumerator.Discovery.Recording.{emit}

-- `macCounts[mac]++`.
abbrev pub count_mac : Text → List (Text × ℕ) → List (Text × ℕ)
count_mac mac [] = (mac, 1) ∷ []
count_mac mac (e ∷ counts) =
    let rest = count_mac mac counts in if text_eq e.0 mac then (mac, suc e.1) ∷ counts else e ∷ rest

abbrev pub anomaly_min_hosts : ℕ
anomaly_min_hosts = 20

abbrev pub ping_only_message : Text → ℕ → ℕ → Text
ping_only_message cidr ping_only total =
    cidr
    ++ text ": "
    ++ itoa ping_only
    ++ text " of "
    ++ itoa total
    ++ text
        " discovered hosts responded to ping only, with no open ports — this can mean a NAT or virtualized network layer between here and the target is fabricating replies rather than real hosts being present (common when running inside Docker Desktop/Rancher Desktop on macOS). Verify manually, or run outside Docker for reliable results."

-- The ratio of two counts is above 0.5.
unfoldable pub check_ping_only_anomaly : ℕ → SubnetRow → ℕ → ℕ → M (Unit {0})
check_ping_only_anomaly now sn total ping_only =
    if leb anomaly_min_hosts total && ltb total (2 * ping_only)
    then emit (text "scan_anomaly") (ping_only_message sn.cidr ping_only total) sn.id now
    else pure tt

abbrev pub duplicate_mac_message : Text → Text → ℕ → Text
duplicate_mac_message cidr mac count =
    cidr
    ++ text ": MAC "
    ++ mac
    ++ text " answered for "
    ++ itoa count
    ++ text
        " different addresses in this scan — that's almost certainly one device (e.g. a router doing proxy ARP) responding for addresses that aren't real hosts, not "
    ++ itoa count
    ++ text
        " separate devices. Affected hosts are marked \"suspect\" in the UI; verify manually or hide them via the suspect filter."

unfoldable pub check_duplicate_mac_anomaly : ℕ → SubnetRow → List (Text × ℕ) → M (Unit {0})
check_duplicate_mac_anomaly now sn [] = pure tt
check_duplicate_mac_anomaly now sn ((mac, count) ∷ counts) =
    (if leb 8 count
      then emit (text "scan_anomaly") (duplicate_mac_message sn.cidr mac count) sn.id now
      else pure tt)
    >> check_duplicate_mac_anomaly now sn counts
