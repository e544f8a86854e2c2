-- ===== src/Sql.antt =====
-- The parts of SQL that the statements of store/session_store.py use: ORDER BY, LIMIT, UPDATE with
-- a WHERE clause and its row count. A table is the list of its rows.
pub mod Laws
use master_control.Prelude.{
  ℕ, Bool, Option, none, some, List, [], ◌∷◌, map, filter, take, if◌then◌else◌,
}

module _ {ℓ} {A : Type ℓ} where
  unfoldable pub insert_by : (A → A → Bool) → A → List A → List A
  insert_by le x [] = x ∷ []
  insert_by le x (y ∷ ys) = if le x y then x ∷ y ∷ ys else y ∷ insert_by le x ys

  -- `sorted` by a key, and ORDER BY: stable, `le` compares the keys.
  unfoldable pub order_by : (A → A → Bool) → List A → List A
  unfolding insert_by
  order_by le [] = []
  order_by le (x ∷ xs) = insert_by le x (order_by le xs)

  abbrev pub first : List A → Option A
  first [] = none
  first (x ∷ xs) = some x

  -- SELECT … WHERE p ORDER BY le LIMIT 1
  unfoldable pub first_row : (A → A → Bool) → (A → Bool) → List A → Option A
  unfolding order_by
  first_row le p rows = first (order_by le (filter p rows))

  -- SELECT … WHERE p ORDER BY le LIMIT n
  unfoldable pub select : (A → A → Bool) → (A → Bool) → ℕ → List A → List A
  unfolding order_by
  select le p limit rows = take limit (order_by le (filter p rows))

  -- UPDATE … SET f WHERE p
  unfoldable pub update_where : (A → Bool) → (A → A) → List A → List A
  update_where p f rows = map (λ r. if p r then f r else r) rows
