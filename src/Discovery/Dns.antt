-- ===== src/Discovery/Dns.antt =====
-- internal/discovery/scanner.go, `scanUnconfirmedByDNS`: hosts that only DNS knows. The goroutines
-- that probe the addresses are taken one after another.
pub mod Keeping
use network_enumerator.Common.{
  ℕ, Bool, true, false, Option, none, some, List, [], ◌∷◌, ◌++◌, Text, text, if◌then◌else◌,
}
use network_enumerator.Store.Sql.{M, ◌>>=◌, ◌>>◌, pure}
use network_enumerator.Store.Hosts.{upsert_unconfirmed_host, confirm_host_up}
use network_enumerator.Store.Schema.{SubnetRow}
use network_enumerator.Discovery.Attempt.{attempt}
use network_enumerator.Discovery.Network.{Network}
use network_enumerator.Discovery.Augment.{reverse_dns_sweep}
use network_enumerator.Discovery.Recording.{emit}
use network_enumerator.Discovery.PortScan.{scan_ports}

abbrev pub succeeded : Option (Unit {0}) → Bool
succeeded none = false
succeeded (some _) = true

-- `dnsOnlyResult`.
pub record DnsOnlyResult : Type 0 where
  pub host_id : ℕ
  pub open_ports : List ℕ

abbrev pub entered :
    Text → Option DnsOnlyResult → List (Text × DnsOnlyResult) → List (Text × DnsOnlyResult)
entered ip none confirmed = confirmed
entered ip (some r) confirmed = (ip, r) ∷ confirmed

abbrev pub unconfirmed_message : Text → Text → Text
unconfirmed_message ip hostname =
    text "Reverse DNS found "
    ++ ip
    ++ text " ("
    ++ hostname
    ++ text ") — no ping/TCP/ARP response, not yet confirmed up; watching for an open port"

module _ (net : Network) (now : ℕ) where
  -- What follows the scan of the ports: only an open port confirms the host.
  unfoldable pub confirm_by_ports : ℕ → List ℕ → M (Option DnsOnlyResult)
  confirm_by_ports id [] = pure none
  confirm_by_ports id (port ∷ ports) = do
    done ← attempt (confirm_host_up id now)
    pure
        (if succeeded done then some (record { host_id = id; open_ports = port ∷ ports }) else none)

  -- What follows `UpsertUnconfirmedHost`.
  unfoldable pub scan_unconfirmed :
      Text → Text → Bool → Option (ℕ × Bool) → M (Option DnsOnlyResult)
  unfolding confirm_by_ports
  scan_unconfirmed ip hostname deep none = pure none
  scan_unconfirmed ip hostname deep (some (id, is_new)) = do
    (if is_new then emit (text "new_host") (unconfirmed_message ip hostname) id now else pure tt)
    open_ports ← scan_ports net.probe id ip deep now
    confirm_by_ports id open_ports

  -- The loop over the names; the result is the map `confirmed`.
  unfoldable pub scan_names : ℕ → Bool → List (Text × Text) → M (List (Text × DnsOnlyResult))
  unfolding scan_unconfirmed
  scan_names subnet_id deep [] = pure []
  scan_names subnet_id deep ((ip, hostname) ∷ names) = do
    recorded ← attempt (upsert_unconfirmed_host subnet_id ip hostname now)
    confirmed ← scan_unconfirmed ip hostname deep recorded
    rest ← scan_names subnet_id deep names
    pure (entered ip confirmed rest)

  unfoldable pub scan_unconfirmed_by_dns :
      SubnetRow → List Text → Bool → M (List (Text × DnsOnlyResult))
  unfolding scan_names
  scan_unconfirmed_by_dns sn candidates deep =
      scan_names sn.id deep (reverse_dns_sweep net sn candidates)
