-- ===== src/Store/Sql/Reads.antt =====
-- Methods that only SELECT: on a healthy database they return a function of the tables.
use network_enumerator.Common.{ℕ, suc, ◌≡◌, refl, ap, ◌∙◌, Bool, true, false, some, if◌then◌else◌}
use network_enumerator.Store.Schema.{Tables}
use network_enumerator.Store.Sql.{Db, M, ok, ◌>>=◌, pure, query, value, IsHealthy}
use network_enumerator.Store.Sql.Runs.{run->>=, run-query}

unfoldable pub Reads : {A : Type 0} → M A → (Tables → A) → Type 0
Reads m f = (d : Db) → IsHealthy d → (k : ℕ) × (m d ≡ ok (f d.tables) (record d { clock = k }))

module _ {A : Type 0} where
  pub Reads-pure : (a : A) → Reads (pure a) (λ t. a)
  unfolding Reads
  Reads-pure a d h = (d.clock, refl)

  pub Reads-query : (f : Tables → A) → Reads (query f) f
  unfolding Reads
  Reads-query f d h = (suc d.clock, run-query f d (h d.clock))

  pub Reads-if :
      (b : Bool) (m n : M A) (f g : Tables → A)
      → Reads m f
      → Reads n g
      → Reads (if b then m else n) (if b then f else g)
  Reads-if true m n f g r s = r
  Reads-if false m n f g r s = s

pub Reads->>= :
    {A B : Type 0} (m : M A) (n : A → M B) (f : Tables → A) (g : A → Tables → B)
    → Reads m f
    → ((a : A) → Reads (n a) (g a))
    → Reads (m >>= n) (λ t. g (f t) t)
unfolding Reads
Reads->>= m n f g r s d h =
    let (k, e) = r d h in
    let (k', e') = s (f d.tables) (record d { clock = k }) h in (k', run->>= m n d e ∙ e')

pub value-Reads :
    {A : Type 0} (m : M A) (f : Tables → A) (d : Db)
    → Reads m f
    → IsHealthy d
    → value (m d) ≡ some (f d.tables)
unfolding Reads
value-Reads m f d r healthy = ap value (r d healthy).1
