-- ===== src/Discovery/Run.antt =====
-- internal/discovery/scanner.go: one cycle over all subnets, the database's part of `runOnce`. Subnets
-- are scanned one after another.
pub mod Safety
pub mod Passive
use network_enumerator.Common.{
  ℕ, suc, ◌+◌, Bool, true, false, not, Option, none, some, List, [], ◌∷◌, ◌++◌, Text, text, length,
  if◌then◌else◌,
}
use network_enumerator.Store.Sql.{M, ◌>>=◌, ◌>>◌, pure}
use network_enumerator.Store.Schema.{SubnetRow}
use network_enumerator.Store.Subnets.{list_subnets, upsert_auto_subnet, touch_subnet_scan}
use network_enumerator.Discovery.Attempt.{attempt}
use network_enumerator.Discovery.Network.{Network, subnet_ips}
use network_enumerator.Discovery.Method.{
  ScanMode, regular, quick, mass, deep, reverse_dns, Method, tcp, nmap, resolve_scan_method,
}
use network_enumerator.Discovery.Recording.{emit}
use network_enumerator.Discovery.Dns.{scan_unconfirmed_by_dns}
use network_enumerator.Discovery.Cycle.{scan_subnet_tcp}
use network_enumerator.Discovery.Nmap.{scan_subnet_nmap}

-- The fields `AutoDiscoverLocal` and `MissThreshold` of `Config`.
pub record Config : Type 0 where
  pub auto_discover_local : Bool
  pub miss_threshold : ℕ

abbrev pub is_deep : ScanMode → Bool
is_deep deep = true
is_deep _ = false

abbrev pub new_subnet_message : Text → Text → Text
new_subnet_message cidr iface = text "Discovered local subnet " ++ cidr ++ text " on " ++ iface

abbrev pub or_no_subnets : Option (List SubnetRow) → List SubnetRow
or_no_subnets none = []
or_no_subnets (some subnets) = subnets

module _ (cfg : Config) (net : Network) (now : ℕ) where
  -- What follows the expansion of the CIDR.
  unfoldable pub scan_ips_reverse_dns : SubnetRow → Option (List Text) → M ℕ
  scan_ips_reverse_dns sn none = pure 0
  scan_ips_reverse_dns sn (some ips) = do
    confirmed ← scan_unconfirmed_by_dns net now sn ips false
    touched ← attempt (touch_subnet_scan sn.id now)
    pure (length confirmed)

  unfoldable pub scan_subnet_reverse_dns : SubnetRow → M ℕ
  unfolding scan_ips_reverse_dns
  scan_subnet_reverse_dns sn = scan_ips_reverse_dns sn (subnet_ips net sn.cidr)

  unfoldable pub scan_by : SubnetRow → Bool → Method → M ℕ
  scan_by sn is_deep tcp = scan_subnet_tcp net now sn is_deep cfg.miss_threshold
  scan_by sn is_deep (nmap path) = scan_subnet_nmap net now sn is_deep cfg.miss_threshold

  unfoldable pub scan_subnet : SubnetRow → ScanMode → M ℕ
  unfolding scan_subnet_reverse_dns scan_by
  scan_subnet sn reverse_dns = scan_subnet_reverse_dns sn
  scan_subnet sn regular = resolve_scan_method net.nmap_path regular >>= scan_by sn false
  scan_subnet sn quick = resolve_scan_method net.nmap_path quick >>= scan_by sn false
  scan_subnet sn mass = resolve_scan_method net.nmap_path mass >>= scan_by sn false
  scan_subnet sn deep = resolve_scan_method net.nmap_path deep >>= scan_by sn true

  -- What follows `UpsertAutoSubnet`, which returned nothing on an error.
  unfoldable pub local_upserted : Text → Text → Option (ℕ × Bool) → M (Unit {0})
  local_upserted cidr iface none = pure tt
  local_upserted cidr iface (some (id, false)) = pure tt
  local_upserted cidr iface (some (id, true)) =
      emit (text "new_subnet") (new_subnet_message cidr iface) id now

  unfoldable pub upsert_locals : List (Text × Text) → M (Unit {0})
  unfolding local_upserted
  upsert_locals [] = pure tt
  upsert_locals ((cidr, iface) ∷ locals) =
      (attempt (upsert_auto_subnet cidr [] iface now) >>= local_upserted cidr iface)
      >> upsert_locals locals

  -- The loop over the subnets, with the number of the check of `ctx.Done()` and the sum so far. The
  -- result is nothing if the context is done.
  unfoldable pub scan_subnets : ScanMode → (ℕ → Bool) → ℕ → ℕ → List SubnetRow → M (Option ℕ)
  unfolding scan_subnet
  scan_subnets mode done check total [] = pure (some total)
  scan_subnets mode done check total (sn ∷ subnets) =
      if not sn.enabled
      then scan_subnets mode done check total subnets
      else if done check
      then pure none
      else do n ← scan_subnet sn mode; scan_subnets mode done (suc check) (total + n) subnets

  unfoldable pub run_once : ScanMode → (ℕ → Bool) → M (Option ℕ)
  unfolding upsert_locals scan_subnets
  run_once mode done = do
    (if cfg.auto_discover_local then upsert_locals net.local_subnets else pure tt)
    subnets ← attempt list_subnets
    scan_subnets mode done 0 0 (or_no_subnets subnets)
