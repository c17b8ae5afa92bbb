-- ===== src/Examples/Control.antt =====
-- The theorems on the loop of the scanner and on deep scans, at a few steps from the start.
use network_enumerator.Common.{◌≤◌, ◌≡◌, ◌≢◌, ◌⊎◌, ◌↔◌, refl, true, false, List, []}
use network_enumerator.Discovery.Method.{ScanMode, regular, deep}
use network_enumerator.Discovery.Control.{
  Scanner, returned, queued, scanning, trigger_scan, finish_cycle, triggers, finishes, Steps, here,
  next, first_cycle, begin_cycle,
}
use network_enumerator.Discovery.Control.Requests.{HasBegun, Steps-queued}
use network_enumerator.Discovery.Control.Serving.{
  is_scanning, open_mode, status_lem, trigger_scan-IsServed,
}
use network_enumerator.Discovery.DeepScan.{claim_deep_scan, no_deep_scans, started, stepped, claims}
use network_enumerator.Discovery.DeepScan.Single.{workers_of, claim_deep_scan_lem}

-- The first cycle is open and a deep scan is requested.
abbrev asked : Scanner
asked = trigger_scan deep (first_cycle 60 5)

asked-Steps : Steps [] (first_cycle 60 5) asked
asked-Steps =
    next [] [] (first_cycle 60 5) (first_cycle 60 5) asked (here (first_cycle 60 5))
      (triggers deep (first_cycle 60 5))

status_lem_example :
    (asked.phase ≢ returned)
    × (asked.status.running ≡ is_scanning asked.phase)
    × (asked.status.mode ≡ open_mode asked.phase)
unfolding trigger_scan begin_cycle
status_lem_example = status_lem 60 5 [] asked asked-Steps refl

trigger_scan-IsServed_example :
    (modes : List ScanMode) × (t : Scanner) × Steps modes (trigger_scan deep asked) t
    × (t.phase ≡ scanning deep)
    × (queued deep t ≡ false)
unfolding trigger_scan begin_cycle
trigger_scan-IsServed_example = trigger_scan-IsServed 60 5 [] asked deep asked-Steps refl

Steps-queued_example : (queued deep (finish_cycle 9 2 asked) ≡ true) ⊎ HasBegun deep []
unfolding trigger_scan begin_cycle
Steps-queued_example =
    Steps-queued deep [] asked (finish_cycle 9 2 asked)
      (next [] [] asked asked (finish_cycle 9 2 asked) (here asked)
        (finishes 9 2 regular asked refl))
      refl

claim_deep_scan_lem_example :
    (workers_of 7 (claim_deep_scan 7 no_deep_scans).1 ≤ 1)
    × (((claim_deep_scan 7 (claim_deep_scan 7 no_deep_scans).1).0 ≡ true)
        ↔ (workers_of 7 (claim_deep_scan 7 no_deep_scans).1 ≡ 0))
claim_deep_scan_lem_example =
    claim_deep_scan_lem (claim_deep_scan 7 no_deep_scans).1 7
      (stepped no_deep_scans (claim_deep_scan 7 no_deep_scans).1 started (claims 7 no_deep_scans))
