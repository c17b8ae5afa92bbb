-- ===== src/Store/Sql/Total.antt =====
-- Methods of internal/store that succeed on a healthy database: from tables with one property they end
-- with a value and tables with another.
use network_enumerator.Common.{suc, ◌≡◌, refl, ◌∙◌, Bool, true, false, Option, some, if◌then◌else◌}
use network_enumerator.Store.Schema.{Tables}
use network_enumerator.Store.Sql.{
  Db, M, ok, ◌>>=◌, ◌>>◌, pure, query, exec, statement, tick, IsHealthy,
}
use network_enumerator.Store.Sql.Runs.{run->>=, run->>, run-query, run-exec, run-statement}

module _ {A : Type 0} (P : Tables → Type 0) where
  unfoldable pub Total : M A → (A → Tables → Type 0) → Type 0
  Total m Q =
      (d : Db)
      → IsHealthy d
      → P d.tables
      → (a : A) × (d' : Db) × (m d ≡ ok a d') × IsHealthy d' × Q a d'.tables

  module _ (Q : A → Tables → Type 0) where
    pub Total-pure : (a : A) → ((t : Tables) → P t → Q a t) → Total (pure a) Q
    unfolding Total
    Total-pure a q d h p = (a, d, refl, h, q d.tables p)

    pub Total-query : (f : Tables → A) → ((t : Tables) → P t → Q (f t) t) → Total (query f) Q
    unfolding Total
    Total-query f q d h p = (f d.tables, tick d, run-query f d (h d.clock), h, q d.tables p)

    pub Total-statement :
        (run : Tables → Option (A × Tables))
        → ((t : Tables) → P t → (a : A) × (t' : Tables) × (run t ≡ some (a, t')) × Q a t')
        → Total (statement run) Q
    unfolding Total
    Total-statement run q d h p =
        let (a, t, e, r) = q d.tables p in
        (a, record d { tables = t; clock = suc d.clock }, run-statement run d (h d.clock) e, h, r)

    pub Total-if :
        (b : Bool) (m k : M A)
        → (b ≡ true → Total m Q)
        → (b ≡ false → Total k Q)
        → Total (if b then m else k) Q
    Total-if true m k p q = p refl
    Total-if false m k p q = q refl

pub Total-exec :
    (P : Tables → Type 0) (Q : Unit {0} → Tables → Type 0) (f : Tables → Tables)
    → ((t : Tables) → P t → Q tt (f t))
    → Total P (exec f) Q
unfolding Total
Total-exec P Q f q d h p = (
  tt,
  record d { tables = f d.tables; clock = suc d.clock },
  run-exec f d (h d.clock),
  h,
  q d.tables p,
)

module _ {A B : Type 0} (P : Tables → Type 0) (Q : A → Tables → Type 0)
    (R : B → Tables → Type 0) where
  pub Total->>= :
      (m : M A) (f : A → M B) → Total P m Q → ((a : A) → Total (Q a) (f a) R) → Total P (m >>= f) R
  unfolding Total
  Total->>= m f first rest d h p =
      let (a, d1, e, h1, q) = first d h p in
      let (b, d2, e', h2, r) = rest a d1 h1 q in (b, d2, run->>= m f d e ∙ e', h2, r)

  pub Total->> :
      (m : M A) (k : M B) → Total P m Q → ((a : A) → Total (Q a) k R) → Total P (m >> k) R
  unfolding Total
  Total->> m k first rest d h p =
      let (a, d1, e, h1, q) = first d h p in
      let (b, d2, e', h2, r) = rest a d1 h1 q in (b, d2, run->> m k d e ∙ e', h2, r)
