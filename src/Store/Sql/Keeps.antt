-- ===== src/Store/Sql/Keeps.antt =====
-- A predicate of the tables that a store method keeps, on every branch and whatever statement fails.
use network_enumerator.Common.{
  suc, Bool, true, false, Option, none, some, if◌then◌else◌, Bool-cases, inl, inr,
}
use network_enumerator.Store.Schema.{Tables}
use network_enumerator.Store.Sql.{
  Db, M, Error, Outcome, ok, err, ◌>>=◌, ◌>>◌, pure, fail, query, exec, statement, after,
}

module _ (P : Tables → Type 0) where
  unfoldable pub Keeps : {A : Type 0} → M A → Type 0
  Keeps m = (d : Db) → P d.tables → P (after (m d)).tables

  pub Keeps-pure : {A : Type 0} (a : A) → Keeps (pure a)
  unfolding Keeps
  Keeps-pure a d h = h

  pub Keeps-fail : (A : Type 0) (e : Error) → Keeps (fail {A = A} e)
  unfolding Keeps
  Keeps-fail A e d h = h

  pub Keeps-query : {A : Type 0} (f : Tables → A) → Keeps (query f)
  unfolding Keeps
  Keeps-query f d h = elim (Bool-cases (d.fails d.clock)) [ inl e ↦ rw e h | inr e ↦ rw e h ]

  pub Keeps-exec : (f : Tables → Tables) → ((t : Tables) → P t → P (f t)) → Keeps (exec f)
  unfolding Keeps
  Keeps-exec f k d h = elim (Bool-cases (d.fails d.clock)) [
    | inl e ↦ rw e h
    | inr e ↦ rw e (k d.tables h)
  ]

  -- What a statement leaves, if it takes effect.
  abbrev pub Lands : {A : Type 0} → Option (A × Tables) → Type 0
  Lands none = Unit
  Lands (some (a, t)) = P t

  pub Lands-if :
      {A : Type 0} (b : Bool) (a : A) (t : Tables) → P t → Lands (if b then some (a, t) else none)
  Lands-if true a t p = p
  Lands-if false a t p = tt

  pub Lands-unless :
      {A : Type 0} (b : Bool) (a : A) (t : Tables) → P t → Lands (if b then none else some (a, t))
  Lands-unless true a t p = tt
  Lands-unless false a t p = p

  pub Keeps-statement :
      {A : Type 0} (run : Tables → Option (A × Tables))
      → ((t : Tables) → P t → Lands (run t))
      → Keeps (statement run)
  unfolding Keeps
  Keeps-statement {A} run k d h = elim (Bool-cases (d.fails d.clock)) [
    | inl e ↦ rw e h
    | inr e ↦ rw e (go (run d.tables) (k d.tables h))
  ]
    where
      go :
          (r : Option (A × Tables))
          → Lands r
          → P
              (after (elim r [
                | none ↦ err Error.constraint (record d { clock = suc d.clock })
                | some (a, t) ↦ ok a (record d { tables = t; clock = suc d.clock })
              ])).tables
      go none l = h
      go (some (a, t)) l = l

  bound :
      {A B : Type 0} (o : Outcome A) (f : A → M B)
      → P (after o).tables
      → ((a : A) (d : Db) → P d.tables → P (after (f a d)).tables)
      → P (after (elim o [ ok a d' ↦ f a d' | err e d' ↦ err e d' ])).tables
  bound (ok a d) f h k = k a d h
  bound (err e d) f h k = h

  pub Keeps->>= :
      {A B : Type 0} (m : M A) (f : A → M B) → Keeps m → ((a : A) → Keeps (f a)) → Keeps (m >>= f)
  unfolding Keeps
  Keeps->>= m f h k d p = bound (m d) f (h d p) k

  pub Keeps->> : {A B : Type 0} (m : M A) (k : M B) → Keeps m → Keeps k → Keeps (m >> k)
  unfolding Keeps
  Keeps->> m k h g d p = bound (m d) (λ _. k) (h d p) (λ _. g)

  pub Keeps-if :
      {A : Type 0} (b : Bool) (m k : M A) → Keeps m → Keeps k → Keeps (if b then m else k)
  Keeps-if true m k h g = h
  Keeps-if false m k h g = g
