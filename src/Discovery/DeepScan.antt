-- ===== src/Discovery/DeepScan.antt =====
-- internal/discovery/scanner.go: `TriggerDeepScan`, which scans all ports of one host in the
-- background. The map `deepScanning` is changed under its mutex.
pub mod Single
use network_enumerator.Common.{
  ℕ, ◌≡◌, Bool, true, false, not, List, [], ◌∷◌, ◌++◌, Option, ◌==◌, Text, text, keep, any,
  if◌then◌else◌,
}
use network_enumerator.Store.Sql.{M, ◌>>=◌, ◌>>◌, pure}
use network_enumerator.Discovery.Recording.{emit}
use network_enumerator.Discovery.PortScan.{all_tcp_ports, scan_port_range}
use network_enumerator.Discovery.Cycle.{is_nil}

-- The hosts in the map, and the hosts of the goroutines that are not at their end.
pub record DeepScans : Type 0 where
  pub deep_scanning : List ℕ
  pub workers : List ℕ

abbrev pub no_deep_scans : DeepScans
no_deep_scans = record { deep_scanning = []; workers = [] }

abbrev pub is_deep_scanning : ℕ → List ℕ → Bool
is_deep_scanning id ids = any (λ j. j == id) ids

-- The part of `TriggerDeepScan` on the map, with whether a scan starts.
unfoldable pub claim_deep_scan : ℕ → DeepScans → Bool × DeepScans
claim_deep_scan id s =
    if is_deep_scanning id s.deep_scanning
    then (false, s)
    else (true, record { deep_scanning = id ∷ s.deep_scanning; workers = id ∷ s.workers })

abbrev pub remove_one : ℕ → List ℕ → List ℕ
remove_one id [] = []
remove_one id (j ∷ ids) = let rest = remove_one id ids in if j == id then ids else j ∷ rest

-- A goroutine ends: `delete(s.deepScanning, hostID)`.
unfoldable pub release_deep_scan : ℕ → DeepScans → DeepScans
release_deep_scan id s = record {
  deep_scanning = keep (λ j. not (j == id)) s.deep_scanning;
  workers = remove_one id s.workers;
}

abbrev pub started_message : Text → Text
started_message ip =
    text "Deep scan (all 65535 ports) started for " ++ ip ++ text " — this can take a few minutes"

-- The result says whether a scan starts; if so, the event is stored.
unfoldable pub trigger_deep_scan : ℕ → Text → ℕ → DeepScans → M (Bool × DeepScans)
unfolding claim_deep_scan
trigger_deep_scan id ip now s =
    let r = claim_deep_scan id s in
    if r.0 then emit (text "deep_scan_started") (started_message ip) id now >> pure r else pure r

module _ (probe : Text → ℕ → Option Text) where
  unfoldable pub deep_scan_host : ℕ → Text → ℕ → M Bool
  deep_scan_host id ip now = do
    ports ← scan_port_range probe id ip all_tcp_ports now
    pure (not (is_nil ports))

  -- What the goroutine does before its end.
  unfoldable pub deep_scan_worker : ℕ → Text → ℕ → M (Unit {0})
  unfolding deep_scan_host
  deep_scan_worker id ip now =
      deep_scan_host id ip now
      >> emit (text "deep_scan_finished") (text "Deep scan finished for " ++ ip) id now

pub data DeepScanStep : DeepScans → DeepScans → Type 0 where
  claims : (id : ℕ) (s : DeepScans) → DeepScanStep s (claim_deep_scan id s).1
  releases :
      (id : ℕ) (s : DeepScans)
      → any (λ j. j == id) s.workers ≡ true
      → DeepScanStep s (release_deep_scan id s)

pub data DeepScansReached : DeepScans → Type 0 where
  started : DeepScansReached no_deep_scans
  stepped : (s t : DeepScans) → DeepScansReached s → DeepScanStep s t → DeepScansReached t
