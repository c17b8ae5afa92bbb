-- ===== src/Discovery/Cycle.antt =====
-- internal/discovery/scanner.go, the built-in scan of a subnet, `scanSubnetTCP`. The goroutines that
-- probe the addresses are taken one after another.
pub mod Keeping
pub mod Staying
use network_enumerator.Common.{
  ℕ, suc, Bool, true, false, ◌&&◌, not, Option, none, some, List, [], ◌∷◌, Text, is_empty, length,
  keep, if◌then◌else◌,
}
use network_enumerator.Common.Dict.{get, keys}
use network_enumerator.Store.Sql.{M, ◌>>=◌, ◌>>◌, pure}
use network_enumerator.Store.Hosts.Sweep.{is_seen}
use network_enumerator.Store.Subnets.{touch_subnet_scan}
use network_enumerator.Store.Schema.{SubnetRow}
use network_enumerator.Discovery.Attempt.{attempt}
use network_enumerator.Discovery.Network.{Network, NetdiscoverHost, subnet_ips}
use network_enumerator.Discovery.Augment.{netdiscover_augment}
use network_enumerator.Discovery.Recording.{record_host, emit_host_down_events}
use network_enumerator.Discovery.PortScan.{scan_ports}
use network_enumerator.Discovery.Dns.{scan_unconfirmed_by_dns}
use network_enumerator.Discovery.Anomalies.{
  count_mac, check_ping_only_anomaly, check_duplicate_mac_anomaly,
}

-- The variables of `scanSubnetTCP`.
pub record Cycle : Type 0 where
  pub seen : List Text
  pub ping_only : ℕ
  pub mac_counts : List (Text × ℕ)

abbrev pub new_cycle : Cycle
new_cycle = record { seen = []; ping_only = 0; mac_counts = [] }

abbrev pub unseen_ip_strings : List Text → List Text → List Text
unseen_ip_strings ips seen = keep (λ ip. not (is_seen seen ip)) ips

-- The results `alive`, `hadOpenPort` and `mac` of `probeAndRecord`.
pub record Probed : Type 0 where
  pub alive : Bool
  pub had_open_port : Bool
  pub mac : Text

abbrev pub found : Option NetdiscoverHost → Bool
found none = false
found (some nd) = true

abbrev pub nd_mac : Option NetdiscoverHost → Text
nd_mac none = []
nd_mac (some nd) = nd.mac

abbrev pub nd_vendor : Option NetdiscoverHost → Text
nd_vendor none = []
nd_vendor (some nd) = nd.vendor

abbrev pub is_nil {ℓ} : {A : Type ℓ} → List A → Bool
is_nil [] = true
is_nil (p ∷ ps) = false

-- `seen[ip] = true`.
abbrev pub add_seen : Text → List Text → List Text
add_seen ip seen = if is_seen seen ip then seen else ip ∷ seen

abbrev pub add_all_seen : List Text → List Text → List Text
add_all_seen [] seen = seen
add_all_seen (ip ∷ ips) seen = add_all_seen ips (add_seen ip seen)

-- The MAC address of a host: the kernel's, or else that of netdiscover.
abbrev pub mac_of : Network → Option NetdiscoverHost → Text → Text
mac_of net nd ip = if is_empty (net.arp ip) then nd_mac nd else net.arp ip

module _ (net : Network) (now : ℕ) where
  -- What follows `recordHost`, which returned nothing on an error.
  unfoldable pub ports_of_recorded : Text → Bool → Text → Option ℕ → M Probed
  ports_of_recorded ip deep mac none =
      pure (record { alive = true; had_open_port = false; mac = mac })
  ports_of_recorded ip deep mac (some id) = do
    open_ports ← scan_ports net.probe id ip deep now
    pure (record { alive = true; had_open_port = not (is_nil open_ports); mac = mac })

  unfoldable pub probe_and_record : ℕ → Text → Bool → List (Text × NetdiscoverHost) → M Probed
  unfolding ports_of_recorded
  probe_and_record subnet_id ip deep nd_hosts =
      let nd = get ip nd_hosts in
      if not (net.is_alive ip) && not (found nd)
      then pure (record { alive = false; had_open_port = false; mac = [] })
      else attempt
          (record_host subnet_id ip (mac_of net nd ip) (net.reverse_dns ip) (nd_vendor nd) now)
        >>= ports_of_recorded ip deep (mac_of net nd ip)

  -- What a goroutine does with the results.
  abbrev pub counted : Text → Probed → Cycle → Cycle
  counted ip p c = if not p.alive then c else record {
    seen = add_seen ip c.seen;
    ping_only = if p.had_open_port then c.ping_only else suc c.ping_only;
    mac_counts = if is_empty p.mac then c.mac_counts else count_mac p.mac c.mac_counts;
  }

  unfoldable pub probe_all : ℕ → Bool → List (Text × NetdiscoverHost) → List Text → Cycle → M Cycle
  unfolding probe_and_record
  probe_all subnet_id deep nd_hosts [] c = pure c
  probe_all subnet_id deep nd_hosts (ip ∷ ips) c = do
    p ← probe_and_record subnet_id ip deep nd_hosts
    probe_all subnet_id deep nd_hosts ips (counted ip p c)

  -- What follows the expansion of the CIDR.
  unfoldable pub scan_ips_tcp : SubnetRow → Bool → ℕ → Option (List Text) → M ℕ
  unfolding probe_all
  scan_ips_tcp sn deep threshold none = pure 0
  scan_ips_tcp sn deep threshold (some ips) = do
    nd_hosts ← netdiscover_augment net sn
    c ← probe_all sn.id deep nd_hosts ips new_cycle
    confirmed ← scan_unconfirmed_by_dns net now sn (unseen_ip_strings ips c.seen) deep
    let seen = add_all_seen (keys confirmed) c.seen
    touched ← attempt (touch_subnet_scan sn.id now)
    check_ping_only_anomaly now sn (length seen) c.ping_only
    check_duplicate_mac_anomaly now sn c.mac_counts
    emit_host_down_events sn.id seen threshold now
    pure (length seen)

  -- The result is the number of hosts seen.
  unfoldable pub scan_subnet_tcp : SubnetRow → Bool → ℕ → M ℕ
  unfolding scan_ips_tcp
  scan_subnet_tcp sn deep threshold = scan_ips_tcp sn deep threshold (subnet_ips net sn.cidr)
