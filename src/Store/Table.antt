-- ===== src/Store/Table.antt =====
-- SQLite tables with an AUTOINCREMENT id, as the statements of internal/store/*.go use them. A
-- table holds its rows, newest first, and the id that the next row gets.
pub mod Laws
pub mod Batch
pub mod Find
pub mod Order
use network_enumerator.Common.{
  ℕ, suc, ◌+◌, ◌<◌, ◌≡◌, refl, Bool, true, false, ◌&&◌, not, Option, none, some, List, [], ◌∷◌, map,
  ◌==◌, if◌then◌else◌, any, keep, find_if, count_if, arith,
}

pub record Row (R : Type 0) : Type 0 where
  pub id_of : R → ℕ

pub record Table (R : Type 0) : Type 0 where
  pub rows : List R
  pub next : ℕ

abbrev pub empty : {R : Type 0} → Table R
empty = record { rows = []; next = 1 }

-- The row function of `UPDATE … WHERE p`.
abbrev pub where_do : {R : Type 0} → (R → Bool) → (R → R) → R → R
where_do p f r = if p r then f r else r

module _ {R : Type 0} where
  -- `UPDATE t SET f WHERE p`.
  abbrev pub update_where : (R → Bool) → (R → R) → Table R → Table R
  update_where p f t = record t { rows = map (where_do p f) t.rows }

  -- `DELETE FROM t WHERE p`.
  abbrev pub delete_where : (R → Bool) → Table R → Table R
  delete_where p t = record t { rows = keep (λ r. not (p r)) t.rows }

  -- `INSERT INTO t`: the row takes the next id, which no earlier row ever had.
  abbrev pub add : (ℕ → R) → Table R → Table R
  add make t = record { rows = make t.next ∷ t.rows; next = suc t.next }

  -- `SELECT … WHERE p`, of one row.
  abbrev pub select_row : (R → Bool) → Table R → Option R
  select_row p t = find_if p t.rows

  -- `SELECT … ORDER BY`: insertion into an ordered list.
  unfoldable pub insert_by : (R → R → Bool) → R → List R → List R
  insert_by before r [] = r ∷ []
  insert_by before r (s ∷ rest) =
      let deeper = insert_by before r rest in if before s r then s ∷ deeper else r ∷ s ∷ rest

  unfoldable pub order_by : (R → R → Bool) → List R → List R
  unfolding insert_by
  order_by before [] = []
  order_by before (r ∷ rest) = insert_by before r (order_by before rest)

module _ {R : Type 0} ⦃row : Row R⦄ where
  -- `WHERE id = ?`.
  abbrev pub is_id : ℕ → R → Bool
  is_id i r = row.id_of r == i

  abbrev pub has_id : ℕ → List R → Bool
  has_id i rows = any (is_id i) rows
