-- ===== src/Store/Sql.antt =====
-- How internal/store/*.go runs statements (database/sql over SQLite). A store method is a function
-- of the database that ends with a value or an error, and with the database it leaves: Go does not
-- roll back what an earlier statement of the same method wrote.
pub mod Keeps
pub mod Runs
pub mod Reads
pub mod Total
use network_enumerator.Common.{
  ℕ, suc, Bool, true, false, Option, none, some, ◌≡◌, refl, if◌then◌else◌, arith,
}
use network_enumerator.Store.Schema.{Tables, schema}

-- `fails n` says whether statement number `n` fails in the engine (disk, lock, driver).
pub record Db : Type 0 where
  pub tables : Tables
  pub fails : ℕ → Bool
  pub clock : ℕ

-- An error of the engine, or a UNIQUE or FOREIGN KEY constraint that a statement would break.
-- `no_rows` is `sql.ErrNoRows` where a method passes it on, `entropy` a failed `rand.Read`.
pub data Error : Type 0 where
  engine constraint no_rows entropy : Error

pub data Outcome {ℓ} (A : Type ℓ) : Type ℓ where
  ok : A → Db → Outcome A
  err : Error → Db → Outcome A

abbrev pub M : Type 0 → Type 0
M A = Db → Outcome A

infixl 5 ◌>>=◌ ◌>>◌
abbrev pub ◌>>=◌ : {A B : Type 0} → M A → (A → M B) → M B
◌>>=◌ m f d = elim (m d) [ ok a d' ↦ f a d' | err e d' ↦ err e d' ]

abbrev pub ◌>>◌ : {A B : Type 0} → M A → M B → M B
◌>>◌ m k d = elim (m d) [ ok _ d' ↦ k d' | err e d' ↦ err e d' ]

abbrev pub pure : {A : Type 0} → A → M A
pure a d = ok a d

abbrev pub fail : {A : Type 0} → Error → M A
fail e d = err e d

-- The database after a method, whether it failed or not.
abbrev pub after : {A : Type 0} → Outcome A → Db
after (ok a d) = d
after (err e d) = d

-- The value that a method returns, if it does not fail.
abbrev pub value : {A : Type 0} → Outcome A → Option A
value (ok a d) = some a
value (err e d) = none

abbrev pub tick : Db → Db
tick d = record d { clock = suc d.clock }

-- One statement: it fails in the engine, breaks a constraint (`none`), or takes effect.
abbrev pub statement : {A : Type 0} → (Tables → Option (A × Tables)) → M A
statement run d = if d.fails d.clock then err engine (tick d) else elim (run d.tables) [
  | none ↦ err constraint (tick d)
  | some (a, t) ↦ ok a (record d { tables = t; clock = suc d.clock })
]

-- A SELECT.
abbrev pub query : {A : Type 0} → (Tables → A) → M A
query f d = if d.fails d.clock then err engine (tick d) else ok (f d.tables) (tick d)

-- An UPDATE or DELETE that no constraint can refuse.
abbrev pub exec : (Tables → Tables) → M (Unit {0})
exec f d =
    if d.fails d.clock
    then err engine (tick d)
    else ok tt (record d { tables = f d.tables; clock = suc d.clock })

-- No statement fails in the engine.
abbrev pub IsHealthy : Db → Type 0
IsHealthy d = (n : ℕ) → d.fails n ≡ false

abbrev pub fresh : Db
fresh = record { tables = schema; fails = λ n. false; clock = 0 }
