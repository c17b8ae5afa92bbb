-- ===== src/Discovery/Augment.antt =====
-- internal/discovery/scanner.go: what netdiscover and the reverse-DNS tools add to a cycle.
use network_enumerator.Common.{
  Bool, true, not, Option, none, some, List, [], ◌∷◌, Text, is_empty, if◌then◌else◌,
}
use network_enumerator.Common.Dict.{put}
use network_enumerator.Store.Sql.{M, ◌>>=◌, pure}
use network_enumerator.Store.Schema.{SubnetRow}
use network_enumerator.Store.Settings.{get_netdiscover_enabled}
use network_enumerator.Store.Hosts.Sweep.{is_seen}
use network_enumerator.Discovery.Attempt.{attempt}
use network_enumerator.Discovery.Network.{Network, NetdiscoverHost}

-- A setting that cannot be read counts as true.
abbrev pub enabled_or_true : Option Bool → Bool
enabled_or_true none = true
enabled_or_true (some b) = b

-- `found[h.IP] = h` in a loop.
abbrev pub found_by_ip :
    List NetdiscoverHost → List (Text × NetdiscoverHost) → List (Text × NetdiscoverHost)
found_by_ip [] found = found
found_by_ip (h ∷ hosts) found = found_by_ip hosts (put h.ip h found)

abbrev pub or_no_hosts : Option (List NetdiscoverHost) → List NetdiscoverHost
or_no_hosts none = []
or_no_hosts (some hosts) = hosts

module _ (net : Network) where
  -- The run of the tool, if it is on the PATH and the setting allows it.
  unfoldable pub run_if_enabled : SubnetRow → Bool → List (Text × NetdiscoverHost)
  run_if_enabled sn enabled = if not enabled then [] else elim net.run_netdiscover [
    | none ↦ []
    | some run ↦ found_by_ip (or_no_hosts (run sn.iface sn.cidr)) []
  ]

  unfoldable pub netdiscover_augment : SubnetRow → M (List (Text × NetdiscoverHost))
  unfolding run_if_enabled
  netdiscover_augment sn = if is_empty sn.iface then pure [] else do
    enabled ← attempt get_netdiscover_enabled
    pure (run_if_enabled sn (enabled_or_true enabled))

  -- `out` of the loop over the results of dnsrecon: the first name of each candidate.
  unfoldable pub first_names : List Text → List (Text × List Text) → List (Text × Text)
  first_names candidates [] = []
  first_names candidates ((ip, []) ∷ results) = first_names candidates results
  first_names candidates ((ip, name ∷ names) ∷ results) =
      let rest = first_names candidates results in
      if is_seen candidates ip then (ip, name) ∷ rest else rest

  unfoldable pub dig_names : (Text → Text) → List Text → List (Text × Text)
  dig_names dig [] = []
  dig_names dig (ip ∷ candidates) =
      let rest = dig_names dig candidates in if is_empty (dig ip) then rest else (ip, dig ip) ∷ rest

  unfoldable pub dig_sweep : List Text → List (Text × Text)
  unfolding dig_names
  dig_sweep candidates = elim net.dig [ none ↦ [] | some dig ↦ dig_names dig candidates ]

  unfoldable pub reverse_dns_sweep : SubnetRow → List Text → List (Text × Text)
  unfolding first_names dig_sweep
  reverse_dns_sweep sn [] = []
  reverse_dns_sweep sn (ip ∷ ips) = elim net.run_dnsrecon [
    | none ↦ dig_sweep (ip ∷ ips)
    | some run ↦ elim (run sn.cidr) [
      | none ↦ dig_sweep (ip ∷ ips)
      | some results ↦ first_names (ip ∷ ips) results
    ]
  ]
