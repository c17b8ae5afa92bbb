-- ===== src/Store/Table/Laws.antt =====
-- Tables under UPDATE, DELETE and INSERT: what the constraints of `schema` say of the rows.
use network_enumerator.Common.{
  ℕ, ◌<◌, ◌≤◌, ◌≡◌, refl, ◌∙◌, Bool, true, false, not, List, [], ◌∷◌, map, ◌==◌, any, keep, All,
  arith, Bool-cases, inl, inr,
}
use network_enumerator.Store.Table.{Row, is_id, has_id, where_do}

-- No two rows have the same key.
abbrev pub Distinct : {R : Type 0} → (R → R → Bool) → List R → Type 0
Distinct same [] = Unit
Distinct same (r ∷ rows) = (any (same r) rows ≡ false) × Distinct same rows

-- Neither side of a key test sees the change.
abbrev pub Respects : {R : Type 0} → (R → R → Bool) → (R → R) → Type 0
Respects {R} same f = (r s : R) → (same (f r) s ≡ same r s) × (same r (f s) ≡ same r s)

module _ {R : Type 0} (P Q : R → Type 0) where
  pub All-imp : (rows : List R) → ((r : R) → P r → Q r) → All P rows → All Q rows
  All-imp [] h a = tt
  All-imp (r ∷ rows) h a = (h r a.0, All-imp rows h a.1)

  pub All-map :
      (f : R → R) (rows : List R) → ((r : R) → P r → Q (f r)) → All P rows → All Q (map f rows)
  All-map f [] h a = tt
  All-map f (r ∷ rows) h a = (h r a.0, All-map f rows h a.1)

  pub All-keep :
      (p : R → Bool) (rows : List R)
      → ((r : R) → p r ≡ true → P r → Q r)
      → All P rows
      → All Q (keep p rows)
  All-keep p [] h a = tt
  All-keep p (r ∷ rows) h a = elim (Bool-cases (p r)) [
    | inl e ↦ rw e (h r e a.0, All-keep p rows h a.1)
    | inr e ↦ rw e (All-keep p rows h a.1)
  ]

module _ {R : Type 0} where
  pub any-keep : (q p : R → Bool) (rows : List R) → any q rows ≡ false → any q (keep p rows) ≡ false
  any-keep q p [] h = refl
  any-keep q p (r ∷ rows) h = ground (arith, any-keep q p rows)

  pub Distinct-keep :
      (same : R → R → Bool) (p : R → Bool) (rows : List R)
      → Distinct same rows
      → Distinct same (keep p rows)
  Distinct-keep same p [] h = tt
  Distinct-keep same p (r ∷ rows) h = elim (Bool-cases (p r)) [
    | inl e ↦ rw e (any-keep (same r) p rows h.0, Distinct-keep same p rows h.1)
    | inr e ↦ rw e (Distinct-keep same p rows h.1)
  ]

  any-map :
      (same : R → R → Bool) (f : R → R) (r : R) (rows : List R)
      → Respects same f
      → any (same (f r)) (map f rows) ≡ any (same r) rows
  any-map same f r [] h = refl
  any-map same f r (s ∷ rows) h = ground (arith, (h r (f s)).0, (h r s).1, any-map same f r rows h)

  pub Distinct-map :
      (same : R → R → Bool) (f : R → R) (rows : List R)
      → Respects same f
      → Distinct same rows
      → Distinct same (map f rows)
  Distinct-map same f [] h d = tt
  Distinct-map same f (r ∷ rows) h d =
      (any-map same f r rows h ∙ d.0, Distinct-map same f rows h d.1)

  pub where_do-Respects :
      (same : R → R → Bool) (p : R → Bool) (f : R → R)
      → Respects same f
      → Respects same (where_do p f)
  where_do-Respects same p f h r s = ground (arith, (h r s).0, (h r s).1)

-- The ids fall along the rows and lie below the next one, so they are distinct.
abbrev pub Below : {R : Type 0} ⦃row : Row R⦄ → ℕ → List R → Type 0
Below n [] = Unit {0}
Below ⦃row⦄ n (r ∷ rows) = (row.id_of r < n) × Below (row.id_of r) rows

module _ {R : Type 0} ⦃row : Row R⦄ where
  pub Below-mono : {m n : ℕ} (rows : List R) → m ≤ n → Below m rows → Below n rows
  Below-mono [] h b = tt
  Below-mono (r ∷ rows) h b = (omega arith, b.1)

  pub Below-keep : (n : ℕ) (p : R → Bool) (rows : List R) → Below n rows → Below n (keep p rows)
  Below-keep n p [] b = tt
  Below-keep n p (r ∷ rows) b = elim (Bool-cases (p r)) [
    | inl e ↦ rw e (b.0, Below-keep (row.id_of r) p rows b.1)
    | inr e ↦ rw e (
        Below-mono {m = row.id_of r} {n = n} (keep p rows) (omega arith)
          (Below-keep (row.id_of r) p rows b.1))
  ]

  pub Below-map :
      (n : ℕ) (f : R → R) (rows : List R)
      → ((r : R) → row.id_of (f r) ≡ row.id_of r)
      → Below n rows
      → Below n (map f rows)
  Below-map n f [] h b = tt
  Below-map n f (r ∷ rows) h b = rw (h r) (b.0, Below-map (row.id_of r) f rows h b.1)

  pub where_do-id :
      (p : R → Bool) (f : R → R)
      → ((r : R) → row.id_of (f r) ≡ row.id_of r)
      → (r : R) → row.id_of (where_do p f r) ≡ row.id_of r
  where_do-id p f h r = ground (arith, h r)

  pub has_id-map :
      (i : ℕ) (f : R → R) (rows : List R)
      → ((r : R) → row.id_of (f r) ≡ row.id_of r)
      → has_id i (map f rows) ≡ has_id i rows
  has_id-map i f [] h = refl
  has_id-map i f (r ∷ rows) h = rw (h r, has_id-map i f rows h)

  -- An id that is not among the deleted rows is among those that stay.
  pub has_id-keep-not :
      (i : ℕ) (p : R → Bool) (rows : List R)
      → has_id i rows ≡ true
      → has_id i (keep p rows) ≡ false
      → has_id i (keep (λ r. not (p r)) rows) ≡ true
  has_id-keep-not i p [] h g = h
  has_id-keep-not i p (r ∷ rows) h g = ground (arith, has_id-keep-not i p rows)

  pub has_id-keep_ne :
      (i j : ℕ) (rows : List R)
      → has_id i rows ≡ true
      → (i == j) ≡ false
      → has_id i (keep (λ r. not (is_id j r)) rows) ≡ true
  has_id-keep_ne i j [] h g = h
  has_id-keep_ne i j (r ∷ rows) h g = ground (arith, has_id-keep_ne i j rows)
