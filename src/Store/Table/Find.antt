-- ===== src/Store/Table/Find.antt =====
-- SELECTs of one row after an UPDATE.
use network_enumerator.Common.{
  not, keep, subst, Bool-cases, inl, inr, ℕ, ◌<◌, ◌≡◌, refl, Bool, true, false, Option, none, some,
  List, [], ◌∷◌, map, any, find_if, arith, All, ==_refl,
}
use network_enumerator.Store.Table.{Row, is_id, where_do}
use network_enumerator.Store.Table.Laws.{Below, All-imp}

module _ {R : Type 0} where
  abbrev pub map_option : (R → R) → Option R → Option R
  map_option f none = none
  map_option f (some r) = some (f r)

  pub find_if-map :
      (q : R → Bool) (f : R → R) (rows : List R)
      → ((r : R) → q (f r) ≡ q r)
      → find_if q (map f rows) ≡ map_option f (find_if q rows)
  find_if-map q f [] h = refl
  find_if-map q f (r ∷ rows) h = ground (arith, h r, find_if-map q f rows h)

  pub any_of_find_none : (q : R → Bool) (rows : List R) → find_if q rows ≡ none → any q rows ≡ false
  any_of_find_none q [] h = refl
  any_of_find_none q (r ∷ rows) h = ground (arith, any_of_find_none q rows)

  pub find_if-holds : (q : R → Bool) (rows : List R) {r : R} → find_if q rows ≡ some r → q r ≡ true
  find_if-holds q [] h = cc
  find_if-holds q (s ∷ rows) {r = r} h = ground (arith, find_if-holds q rows {r = r})

  pub find_if-any :
      (q : R → Bool) (rows : List R) {r : R} → find_if q rows ≡ some r → any q rows ≡ true
  find_if-any q [] h = cc
  find_if-any q (s ∷ rows) {r = r} h = ground (arith, find_if-any q rows {r = r})

  -- A row that passes a test is still there after an UPDATE that keeps what passes it.
  pub any-map :
      (test p : R → Bool) (f : R → R) (rows : List R)
      → ((r : R) → test r ≡ true → test (f r) ≡ true)
      → any test rows ≡ true
      → any test (map (where_do p f) rows) ≡ true
  any-map test p f [] kept found = found
  any-map test p f (r ∷ rows) kept found = ground (arith, kept r, any-map test p f rows kept)

  -- A SELECT that finds a row shows that every test it passes finds one.
  pub any_of_found :
      (q test : R → Bool) (rows : List R) {r : R}
      → find_if q rows ≡ some r
      → test r ≡ true
      → any test rows ≡ true
  any_of_found q test [] found passes = cc
  any_of_found q test (s ∷ rows) {r = r} found passes =
      ground (arith, any_of_found q test rows {r = r})

module _ {R : Type 0} (P : R → Type 0) where
  pub All-both :
      (Q : R → Type 0) (rows : List R) → All P rows → All Q rows → All (λ r. P r × Q r) rows
  All-both Q [] a b = tt
  All-both Q (r ∷ rows) (p, a) (q, b) = ((p, q), All-both Q rows a b)

  -- What all rows have, the row has that a SELECT finds.
  pub All-find_if :
      (q : R → Bool) (rows : List R) {r : R} → find_if q rows ≡ some r → All P rows → P r
  All-find_if q [] e a = cc e
  All-find_if q (s ∷ rows) {r = r} e (p, a) = elim (Bool-cases (q s)) [
    | inl c ↦ let same : some s ≡ some r = rw c at e in let is_s : s ≡ r = cc same in subst P is_s p
    | inr c ↦ All-find_if q rows {r = r} (rw c at e) a
  ]

module _ {R : Type 0} ⦃row : Row R⦄ where
  find_if-below :
      (q : R → Bool) (n : ℕ) (rows : List R) (r : R)
      → Below n rows
      → find_if q rows ≡ some r
      → row.id_of r < n
  find_if-below q n [] r b h = cc
  find_if-below q n (s ∷ rows) r b h = ground (arith, find_if-below q (row.id_of s) rows r b.1)

  -- A row that some SELECT finds is the one that `WHERE id = ?` finds.
  pub find_if-id :
      (q : R → Bool) (n : ℕ) (rows : List R) (r : R)
      → Below n rows
      → find_if q rows ≡ some r
      → find_if (is_id (row.id_of r)) rows ≡ some r
  find_if-id q n [] r b h = cc
  find_if-id q n (s ∷ rows) r b h =
      ground
        (arith, find_if-below q (row.id_of s) rows r b.1, find_if-id q (row.id_of s) rows r b.1)

  All-below : (n : ℕ) (rows : List R) → Below n rows → All (λ r. row.id_of r < n) rows
  All-below n [] b = tt
  All-below n (r ∷ rows) (low, b) = (
    low,
    All-imp (λ s. row.id_of s < row.id_of r) (λ s. row.id_of s < n) rows (λ s h. omega arith)
        (All-below (row.id_of r) rows b),
  )

  found_behind :
      (r : R) (rows later : List R)
      → All (λ s. row.id_of s < row.id_of r) later
      → All (λ s. find_if (is_id (row.id_of s)) rows ≡ some s) later
      → All (λ s. find_if (is_id (row.id_of s)) (r ∷ rows) ≡ some s) later
  found_behind r rows [] low found = tt
  found_behind r rows (s ∷ later) (low, lows) (found, founds) =
      (ground arith, found_behind r rows later lows founds)

  -- `WHERE id = ?` finds every row by its id.
  pub All-found :
      (n : ℕ) (rows : List R)
      → Below n rows
      → All (λ r. find_if (is_id (row.id_of r)) rows ≡ some r) rows
  All-found n [] b = tt
  All-found n (r ∷ rows) (low, b) =
      let self = ==_refl (row.id_of r) in
      (
        rw self refl,
        found_behind r rows rows (All-below (row.id_of r) rows b) (All-found (row.id_of r) rows b),
      )

module _ {R : Type 0} (test p : R → Bool) where
  -- An UPDATE passes over the rows that the test holds of.
  pub any-skip :
      (f : R → R) (rows : List R)
      → ((r : R) → test r ≡ true → p r ≡ false)
      → any test rows ≡ true
      → any test (map (where_do p f) rows) ≡ true
  any-skip f [] other found = found
  any-skip f (r ∷ rows) other found = ground (arith, other r, any-skip f rows other)

  -- A DELETE spares the rows that the test holds of.
  pub any-spare :
      (rows : List R)
      → ((r : R) → test r ≡ true → p r ≡ false)
      → any test rows ≡ true
      → any test (keep (λ r. not (p r)) rows) ≡ true
  any-spare [] other found = found
  any-spare (r ∷ rows) other found = ground (arith, other r, any-spare rows other)
