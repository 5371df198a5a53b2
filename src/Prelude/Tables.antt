-- ===== src/Prelude/Tables.antt =====
-- A table of the database is the list of its rows. Each query of the source is a filter, a
-- projection, an update or a deletion by a test on rows.
use Prim.Native.Nat.{ℕ, ◌+◌}
use mathlib.Core.Bool.{Bool}
use mathlib.Core.Option.{Option, none, some}
use mathlib.Core.List.{List, [], ◌∷◌, ◌++◌}
use augur_node.Prelude.Tests.{if◌then◌else◌}

module _ {ℓ} {R : Type ℓ} where
  -- `.where(p)`
  unfoldable pub select_where : (R → Bool) → List R → List R
  select_where p [] = []
  select_where p (r ∷ rows) = let rest = select_where p rows in if p r then r ∷ rest else rest

  -- `.first().where(p)`
  unfoldable pub first_where : (R → Bool) → List R → Option R
  first_where p [] = none
  first_where p (r ∷ rows) = if p r then some r else first_where p rows

  -- `.update(f).where(p)`
  unfoldable pub update_where : (R → Bool) → (R → R) → List R → List R
  update_where p f [] = []
  update_where p f (r ∷ rows) = (if p r then f r else r) ∷ update_where p f rows

  -- `.delete().where(p)`
  unfoldable pub delete_where : (R → Bool) → List R → List R
  delete_where p [] = []
  delete_where p (r ∷ rows) = let rest = delete_where p rows in if p r then rest else r ∷ rest

  -- `count(*)` under `.where(p)`
  unfoldable pub count_where : (R → Bool) → List R → ℕ
  count_where p [] = 0
  count_where p (r ∷ rows) = (if p r then 1 else 0) + count_where p rows

  -- `db.insert(row).into(table)`: rows stand in the order of their insertion.
  unfoldable pub insert_row : R → List R → List R
  insert_row r rows = rows ++ r ∷ []
