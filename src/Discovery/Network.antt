-- ===== src/Discovery/Network.antt =====
-- What internal/discovery learns from outside: the probes of scanner.go, the kernel's tables, the
-- answers of the external tools (nmap.go, netdiscover.go, dnsrecon.go, dns.go), and the packages of Go.
use network_enumerator.Common.{
  ℕ, Bool, Option, none, some, List, [], ◌∷◌, ◌++◌, map, Text, text, itoa,
}
use network_enumerator.Discovery.IpRange.{
  Ip, Parsed, expand_ipv4, parse_error, not_ipv4, panics, addresses,
}

pub record NetdiscoverHost : Type 0 where
  pub ip : Text
  pub mac : Text
  pub vendor : Text

pub record NmapPort : Type 0 where
  pub port : ℕ
  pub service : Text
  pub banner : Text
  pub product : Text
  pub version : Text

pub record NmapHost : Type 0 where
  pub ip : Text
  pub mac : Text
  pub vendor : Text
  pub hostname : Text
  pub ports : List NmapPort

-- `is_alive` and `reverse_dns` are the methods of these names, `arp` is the kernel's table ("" where
-- it has no entry), and `probe` is what `ProbeTCP` and `GrabBanner` find on a port. A tool that is not
-- on the PATH is `none`, and so is the result of a run that fails. `run_nmap` takes the targets and
-- the ports, `run_netdiscover` the interface and the CIDR. `local_subnets` holds CIDRs with
-- interfaces, and nothing if `LocalSubnets` fails. `parse_cidr` is `net.ParseCIDR`.
pub record Network : Type 0 where
  pub is_alive : Text → Bool
  pub reverse_dns : Text → Text
  pub arp : Text → Text
  pub probe : Text → ℕ → Option Text
  pub run_netdiscover : Option (Text → Text → Option (List NetdiscoverHost))
  pub run_dnsrecon : Option (Text → Option (List (Text × List Text)))
  pub dig : Option (Text → Text)
  pub nmap_path : Option Text
  pub run_nmap : List Text → List ℕ → Option (List NmapHost)
  pub local_subnets : List (Text × Text)
  pub parse_cidr : Text → Option Parsed

abbrev pub max_hosts_per_subnet : ℕ
max_hosts_per_subnet = 4096

-- `ip.String()` of an address of 4 bytes: its bytes in decimal, joined by dots.
unfoldable pub ip_string : Ip → Text
ip_string [] = []
ip_string (b ∷ []) = itoa b
ip_string (b ∷ c ∷ ip) = itoa b ++ text "." ++ ip_string (c ∷ ip)

-- The texts of `ExpandIPv4(sn.CIDR)`, or nothing on an error. A scan that panics is not modelled
-- further: it counts as an error here.
unfoldable pub subnet_ips : Network → Text → Option (List Text)
subnet_ips net cidr = elim (expand_ipv4 max_hosts_per_subnet (net.parse_cidr cidr)) [
  | parse_error ↦ none
  | not_ipv4 ↦ none
  | panics ↦ none
  | addresses out ↦ some (map ip_string out)
]
