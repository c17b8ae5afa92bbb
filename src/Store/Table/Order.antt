-- ===== src/Store/Table/Order.antt =====
-- ORDER BY keeps the rows.
use network_enumerator.Common.{
  ◌≡◌, true, any, arith, Bool, List, [], ◌∷◌, All, Bool-cases, inl, inr,
}
use network_enumerator.Store.Table.{insert_by, order_by}

module _ {R : Type 0} (P : R → Type 0) (before : R → R → Bool) where
  All-insert_by : (r : R) (rows : List R) → P r → All P rows → All P (insert_by before r rows)
  unfolding insert_by
  All-insert_by r [] p a = (p, tt)
  All-insert_by r (s ∷ rows) p (q, a) = elim (Bool-cases (before s r)) [
    | inl c ↦ rw c (q, All-insert_by r rows p a)
    | inr c ↦ rw c (p, (q, a))
  ]

  pub All-order_by : (rows : List R) → All P rows → All P (order_by before rows)
  unfolding order_by
  All-order_by [] a = tt
  All-order_by (r ∷ rows) (p, a) = All-insert_by r (order_by before rows) p (All-order_by rows a)

module _ {R : Type 0} (p : R → Bool) (before : R → R → Bool) where
  any-insert_by :
      (r : R) (rows : List R) → any p (r ∷ rows) ≡ true → any p (insert_by before r rows) ≡ true
  unfolding insert_by
  any-insert_by r [] found = found
  any-insert_by r (s ∷ rows) found = ground (arith, any-insert_by r rows)

  -- What a test finds, it still finds after the rows are ordered.
  pub any-order_by : (rows : List R) → any p rows ≡ true → any p (order_by before rows) ≡ true
  unfolding order_by
  any-order_by [] found = found
  any-order_by (r ∷ rows) found =
      any-insert_by r (order_by before rows) (ground (arith, any-order_by rows))
