-- ===== src/Discovery/Attempt.antt =====
-- internal/discovery/scanner.go logs an error of the store and goes on.
use network_enumerator.Common.{Option, none, some}
use network_enumerator.Store.Schema.{Tables}
use network_enumerator.Store.Sql.{M, Outcome, ok, err, after}
use network_enumerator.Store.Sql.Keeps.{Keeps}

-- `if err != nil { log.Printf(…) }`.
abbrev pub attempt : {A : Type 0} → M A → M (Option A)
attempt m d = elim (m d) [ ok a d' ↦ ok (some a) d' | err e d' ↦ ok none d' ]

module _ (P : Tables → Type 0) where
  attempted :
      {A : Type 0} (o : Outcome A)
      → P (after o).tables
      → P
          (after (elim o as (λ _. Outcome (Option A)) [
            | ok a d' ↦ ok (some a) d'
            | err e d' ↦ ok none d'
          ])).tables
  attempted (ok a d) p = p
  attempted (err e d) p = p

  pub Keeps-attempt : {A : Type 0} (m : M A) → Keeps P m → Keeps P (attempt m)
  unfolding Keeps
  Keeps-attempt m k d p = attempted (m d) (k d p)
