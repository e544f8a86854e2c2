-- ===== src/Approvals/Lookup.antt =====
-- Rows found by their id, before and after an UPDATE.
use mathlib.Core.Option
use master_control.Prelude.{
  ℕ, ◌<◌, ◌≡◌, refl, inl, inr, Bool, true, some, List, [], ◌∷◌, map, Pairwise, Bool-cases, arith,
  find, count_by,
}
use master_control.Sql.Laws.{Member, at_member}
use master_control.Approvals.Rows.{Row, Table, has_id, select_row}
use master_control.Approvals.Methods.{update_rows}
use master_control.Approvals.Invariant.{IsConsistent, IsUpdate, changed}

-- The only row with its id is the row that a SELECT by the id finds.
find_unique :
    (rows : List Row) (r : Row)
    → Pairwise (λ a b. a.id < b.id) rows
    → Member r rows
    → find (has_id r.id) rows ≡ some r
unfolding has_id
find_unique [] r p m = absurd m
find_unique (x ∷ rows) r p (inl e) = rw (← e) (ground arith)
find_unique (x ∷ rows) r (h, p) (inr m) =
    ground (arith, at_member (λ y. x.id < y.id) r rows h m, find_unique rows r p m)

pub select_row-Member :
    (t : Table) (r : Row) → IsConsistent t → Member r t.rows → select_row r.id t ≡ some r
unfolding select_row
select_row-Member t r c m = find_unique t.rows r c.ascending m

-- A row count above zero: some row passes the WHERE clause.
pub Member-count_by :
    (p : Row → Bool) (rows : List Row)
    → 0 < count_by p rows
    → (r : Row) × Member r rows × (p r ≡ true)
Member-count_by p [] h = absurd (omega arith)
Member-count_by p (x ∷ rows) h = elim (Bool-cases (p x)) [
  | inl e ↦ (x, inl refl, e)
  | inr e ↦ let (r, m, q) = Member-count_by p rows (rw e at h) in (r, inr m, q)
]

find_id : (n : ℕ) (rows : List Row) (r : Row) → find (has_id n) rows ≡ some r → r.id ≡ n
unfolding has_id
find_id n [] r h = cc
find_id n (x ∷ rows) r h = ground (arith, find_id n rows r)

pub select_row-id : (n : ℕ) (t : Table) (r : Row) → select_row n t ≡ some r → r.id ≡ n
unfolding select_row
select_row-id n t = find_id n t.rows

module _ (p : Row → Bool) (f : Row → Row) (u : IsUpdate p f) (n : ℕ) where
  find-changed :
      (rows : List Row)
      → find (has_id n) (map (changed p f u) rows)
        ≡ Option.map (changed p f u) (find (has_id n) rows)
  unfolding has_id
  find-changed [] = refl
  find-changed (x ∷ rows) = ground (arith, u.same_id x, find-changed rows)

  -- A SELECT by id after an UPDATE finds the row that it found before, changed.
  pub select_row-update_rows :
      (t : Table) → select_row n (update_rows p f t) ≡ Option.map (changed p f u) (select_row n t)
  unfolding select_row update_rows
  select_row-update_rows t = find-changed t.rows
