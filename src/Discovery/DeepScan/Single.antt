-- ===== src/Discovery/DeepScan/Single.antt =====
-- At most one deep scan of a host runs at a time (internal/discovery/scanner.go).
use network_enumerator.Common.{
  ℕ, ◌-◌, ◌≤◌, ◌≡◌, refl, ◌↔◌, true, false, not, List, [], ◌∷◌, ◌==◌, keep, any, count_if,
  if◌then◌else◌, arith, Bool-cases, inl, inr,
}
use network_enumerator.Discovery.DeepScan.{
  DeepScans, is_deep_scanning, claim_deep_scan, remove_one, release_deep_scan, claims, releases,
  DeepScansReached, started, stepped,
}

-- The number of goroutines that scan the host.
abbrev pub workers_of : ℕ → DeepScans → ℕ
workers_of id s = count_if (λ j. j == id) s.workers

count-remove_one :
    (id k : ℕ) (ids : List ℕ)
    → count_if (λ j. j == k) (remove_one id ids)
      ≡ (if k == id then count_if (λ j. j == k) ids - 1 else count_if (λ j. j == k) ids)
count-remove_one id k [] = ground arith
count-remove_one id k (j ∷ ids) = ground (arith, count-remove_one id k ids)

any-delete :
    (id k : ℕ) (ids : List ℕ)
    → any (λ j. j == k) (keep (λ j. not (j == id)) ids)
      ≡ (if k == id then false else any (λ j. j == k) ids)
any-delete id k [] = ground arith
any-delete id k (j ∷ ids) = ground (arith, any-delete id k ids)

-- The map has exactly the hosts of the goroutines, each of which has one.
abbrev Agrees : ℕ → DeepScans → Type 0
Agrees k s = workers_of k s ≡ (if is_deep_scanning k s.deep_scanning then 1 else 0)

claim-Agrees : (id k : ℕ) (s : DeepScans) → Agrees k s → Agrees k (claim_deep_scan id s).1
unfolding claim_deep_scan
claim-Agrees id k s a = ground arith

release-Agrees : (id k : ℕ) (s : DeepScans) → Agrees k s → Agrees k (release_deep_scan id s)
unfolding release_deep_scan
release-Agrees id k s a =
    ground (arith, count-remove_one id k s.workers, any-delete id k s.deep_scanning)

Reached-Agrees : (k : ℕ) (s : DeepScans) → DeepScansReached s → Agrees k s
Reached-Agrees k _ started = refl
Reached-Agrees k _ (stepped s _ r (claims id _)) = claim-Agrees id k s (Reached-Agrees k s r)
Reached-Agrees k _ (stepped s _ r (releases id _ here)) =
    release-Agrees id k s (Reached-Agrees k s r)

-- In every state that `TriggerDeepScan` and its goroutines reach, a host has at most one goroutine,
-- and a scan of it starts exactly if it has none.
pub claim_deep_scan_lem :
    (s : DeepScans) (id : ℕ)
    → DeepScansReached s
    → (workers_of id s ≤ 1) × (((claim_deep_scan id s).0 ≡ true) ↔ (workers_of id s ≡ 0))
unfolding claim_deep_scan
claim_deep_scan_lem s id r =
    let a = Reached-Agrees id s r in
    elim (Bool-cases (is_deep_scanning id s.deep_scanning)) [
      | inl c ↦ rw c (ground arith, (λ e. cc, λ e. ground arith))
      | inr c ↦ rw c (ground arith, (λ e. ground arith, λ e. refl))
    ]
