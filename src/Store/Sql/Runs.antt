-- ===== src/Store/Sql/Runs.antt =====
-- How the statements of a store method run when the engine does not fail.
use network_enumerator.Common.{
  suc, ◌≡◌, refl, ap, Bool, true, false, Option, none, some, if◌then◌else◌,
}
use network_enumerator.Store.Schema.{Tables}
use network_enumerator.Store.Sql.{
  Db, M, Outcome, ok, err, engine, constraint, ◌>>=◌, ◌>>◌, query, exec, statement, tick, after,
  pure,
}

pub run->>= :
    {A B : Type 0} (m : M A) (f : A → M B) (d : Db) {a : A} {d' : Db}
    → m d ≡ ok a d'
    → (m >>= f) d ≡ f a d'
run->>= {A} {B} m f d e =
    ap (λ (o : Outcome A). elim o as (λ _. Outcome B) [ ok a d' ↦ f a d' | err e d' ↦ err e d' ]) e

pub run->> :
    {A B : Type 0} (m : M A) (k : M B) (d : Db) {a : A} {d' : Db}
    → m d ≡ ok a d'
    → (m >> k) d ≡ k d'
run->> {A} {B} m k d e =
    ap (λ (o : Outcome A). elim o as (λ _. Outcome B) [ ok a d' ↦ k d' | err e d' ↦ err e d' ]) e

pub run-query :
    {A : Type 0} (f : Tables → A) (d : Db)
    → d.fails d.clock ≡ false
    → query f d ≡ ok (f d.tables) (tick d)
run-query f d h = rw h

pub run-exec :
    (f : Tables → Tables) (d : Db)
    → d.fails d.clock ≡ false
    → exec f d ≡ ok tt (record d { tables = f d.tables; clock = suc d.clock })
run-exec f d h = rw h

pub run-statement :
    {A : Type 0} (run : Tables → Option (A × Tables)) (d : Db) {a : A} {t : Tables}
    → d.fails d.clock ≡ false
    → run d.tables ≡ some (a, t)
    → statement run d ≡ ok a (record d { tables = t; clock = suc d.clock })
run-statement run d h e = rw (h, e)

-- What a method leaves, whether its statements fail or not: it is enough to look at what stands
-- before a statement and at what the statement makes of it.
module _ (C : Tables → Type 0) where
  split :
      {A B : Type 0} (b : Bool) (x y : Outcome A) (k : A → M B)
      → C (after (elim x as (λ _. Outcome B) [ ok a d' ↦ k a d' | err e d' ↦ err e d' ])).tables
      → C (after (elim y as (λ _. Outcome B) [ ok a d' ↦ k a d' | err e d' ↦ err e d' ])).tables
      → C
          (after (elim (if b then x else y) as (λ _. Outcome B) [
            | ok a d' ↦ k a d'
            | err e d' ↦ err e d'
          ])).tables
  split true x y k l r = l
  split false x y k l r = r

  pub after-query :
      {A B : Type 0} (f : Tables → A) (k : A → M B) (d : Db)
      → C d.tables
      → C (after (k (f d.tables) (tick d))).tables
      → C (after ((query f >>= k) d)).tables
  after-query f k d before rest =
      split (d.fails d.clock) (err engine (tick d)) (ok (f d.tables) (tick d)) k before rest

  pub after-exec :
      {A : Type 0} (g : Tables → Tables) (a : A) (d : Db)
      → C d.tables
      → C (g d.tables)
      → C (after ((exec g >> pure a) d)).tables
  after-exec g a d before rest =
      split (d.fails d.clock) (err engine (tick d))
        (ok tt (record d { tables = g d.tables; clock = suc d.clock })) (λ _. pure a) before rest

  landing :
      {A B : Type 0} (d : Db) (o : Option (A × Tables)) (k : A → B)
      → C d.tables
      → ((a : A) (t : Tables) → o ≡ some (a, t) → C t)
      → C
          (after
            (elim (elim o as (λ _. Outcome A) [
              | none ↦ err constraint (tick d)
              | some (a, t) ↦ ok a (record d { tables = t; clock = suc d.clock })
            ])
              as (λ _. Outcome B) [ ok a d' ↦ ok (k a) d' | err e d' ↦ err e d' ])).tables
  landing d none k before rest = before
  landing d (some (a, t)) k before rest = rest a t refl

  pub after-statement :
      {A B : Type 0} (run : Tables → Option (A × Tables)) (k : A → B) (d : Db)
      → C d.tables
      → ((a : A) (t : Tables) → run d.tables ≡ some (a, t) → C t)
      → C (after ((statement run >>= λ a. pure (k a)) d)).tables
  after-statement run k d before rest =
      split (d.fails d.clock) (err engine (tick d)) _ (λ a. pure (k a)) before
        (landing d (run d.tables) k before rest)
