-- ===== src/Store/Rows.antt =====
-- `SELECT`, `UPDATE … WHERE`, `COUNT`, `ORDER BY` and `LIMIT` on the rows of one table.
use library_of_context.Prelude.{
  ℕ, ◌+◌, Bool, false, ◌||◌, Option, none, some, List, [], ◌∷◌, if◌then◌else◌,
}

module _ {ℓ} {A : Type ℓ} where
  unfoldable pub update_where : (A → Bool) → (A → A) → List A → List A
  update_where p f [] = []
  update_where p f (r ∷ rows) = (if p r then f r else r) ∷ update_where p f rows

  unfoldable pub count_where : (A → Bool) → List A → ℕ
  count_where p [] = 0
  count_where p (r ∷ rows) = (if p r then 1 else 0) + count_where p rows

  unfoldable pub find_where : (A → Bool) → List A → Option A
  find_where p [] = none
  find_where p (r ∷ rows) = if p r then some r else find_where p rows

  unfoldable pub exists_where : (A → Bool) → List A → Bool
  exists_where p [] = false
  exists_where p (r ∷ rows) = p r || exists_where p rows

  unfoldable pub insert_ordered : (A → A → Bool) → A → List A → List A
  insert_ordered before r [] = r ∷ []
  insert_ordered before r (q ∷ rows) =
      let rest = insert_ordered before r rows in if before q r then q ∷ rest else r ∷ q ∷ rows

  -- `ORDER BY`. SQLite leaves the order of rows that compare equal open; here it is that of the
  -- insertion sort.
  unfoldable pub order_by : (A → A → Bool) → List A → List A
  unfolding insert_ordered
  order_by before [] = []
  order_by before (r ∷ rows) = insert_ordered before r (order_by before rows)
