-- ===== src/Store/Table/Batch.antt =====
-- Rows that are read first and then updated one by one by id, as `SweepMissingHosts` and
-- `SweepClosedPorts` do: the updates together are one change of the table.
use network_enumerator.Common.{
  ℕ, suc, ◌≡◌, refl, ap, ◌∙◌, Bool, true, false, List, [], ◌∷◌, map, ◌==◌, keep, arith, Bool-cases,
  inl, inr,
}
use network_enumerator.Store.Table.{Row, is_id, where_do}
use network_enumerator.Store.Table.Laws.{Below, Below-mono, Below-keep}

-- The statement counter after one statement for each row.
abbrev pub ticks : {R : Type 0} → ℕ → List R → ℕ
ticks c [] = c
ticks c (r ∷ rows) = ticks (suc c) rows

module _ {R : Type 0} ⦃row : Row R⦄ where
  -- `UPDATE … WHERE id = r.id` for each row `r` that was read.
  abbrev pub update_each : (R → R → R) → List R → List R → List R
  update_each f [] rows = rows
  update_each f (r ∷ old) rows = update_each f old (map (where_do (is_id (row.id_of r)) (f r)) rows)

  map-above :
      (n : ℕ) (g : R → R) (rows : List R) → Below n rows → map (where_do (is_id n) g) rows ≡ rows
  map-above n g [] b = refl
  map-above n g (r ∷ rows) b =
      ground
        (arith, map-above n g rows (Below-mono {m = row.id_of r} {n = n} rows (omega arith) b.1))

  update_each-head :
      (f : R → R → R) (h : R) (old rows : List R)
      → Below (row.id_of h) old
      → update_each f old (h ∷ rows) ≡ h ∷ update_each f old rows
  update_each-head f h [] rows b = refl
  update_each-head f h (r ∷ old) rows b =
      let other : (row.id_of h == row.id_of r) ≡ false = ground arith in
      rw other (
        update_each-head f h old (map (where_do (is_id (row.id_of r)) (f r)) rows)
          (Below-mono {m = row.id_of r} {n = row.id_of h} old (omega arith) b.1))

  update_each-cons :
      (f : R → R → R) (r : R) (old rows : List R)
      → ((s : R) → row.id_of (f r s) ≡ row.id_of s)
      → Below (row.id_of r) old
      → Below (row.id_of r) rows
      → update_each f (r ∷ old) (r ∷ rows) ≡ f r r ∷ update_each f old rows
  update_each-cons f r old rows same_id b c =
      let self : (row.id_of r == row.id_of r) ≡ true = ground arith in
      rw (self, map-above (row.id_of r) (f r) rows c)
        (update_each-head f (f r r) old rows (rw (same_id r) b))

  pub update_each-keep :
      (f : R → R → R) (p : R → Bool) (n : ℕ) (rows : List R)
      → ((r s : R) → row.id_of (f r s) ≡ row.id_of s)
      → Below n rows
      → update_each f (keep p rows) rows ≡ map (where_do p (λ r. f r r)) rows
  update_each-keep f p n [] same_id b = refl
  update_each-keep f p n (r ∷ rows) same_id b = elim (Bool-cases (p r)) [
    | inr e ↦ rw e (
        update_each-head f r (keep p rows) rows (Below-keep (row.id_of r) p rows b.1)
        ∙ ap (◌∷◌ r) (update_each-keep f p (row.id_of r) rows same_id b.1))
    | inl e ↦ rw e (
        update_each-cons f r (keep p rows) rows (same_id r) (Below-keep (row.id_of r) p rows b.1)
          b.1
        ∙ ap (◌∷◌ (f r r)) (update_each-keep f p (row.id_of r) rows same_id b.1))
  ]
