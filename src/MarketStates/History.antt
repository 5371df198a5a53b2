-- ===== src/MarketStates/History.antt =====
-- A rollback gives back the history that a market had (src/blockchain/log-processors/database.ts).
use augur_node.Prelude.{
  ℕ, suc, ◌<◌, ◌≡◌, refl, sym, ap, ap₂, ◌∙◌, true, false, ◌&&◌, Option, none, some, List, [], ◌∷◌,
  arith, ◌==◌, ==_refl, if◌then◌else◌, Bool-cases, inl, inr, ok, err,
}
use augur_node.Prelude.Tables.{first_where, update_where, delete_where, count_where, insert_row}
use augur_node.Prelude.TableLaws.{delete-insert, delete_none, count_where-insert}
use augur_node.Database.{
  World, MarketRow, MarketStateRow, ReportingState, ◌>>◌, market_state_not_current,
}
use augur_node.MarketStates.{
  query_current_market_state_id, is_market, set_state_id, is_current, same_state, max_id,
  state_code, set_market_state_to_latest, update_market_state, rollback_market_state,
}

-- The database has given all ids of the rows.
unfoldable pub IsNumbered : ℕ → List MarketStateRow → Type 0
IsNumbered next [] = Unit {0}
IsNumbered next (r ∷ rows) = (r.market_state_id < next) × IsNumbered next rows

-- The market names the latest of its rows.
unfoldable pub NamesLatest : {N : Type 0} → ℕ → List MarketStateRow → List (MarketRow N) → Type 0
NamesLatest market_id states [] = Unit {0}
NamesLatest market_id states (r ∷ rows) =
    (is_market market_id r ≡ true
      → r.market_state_id ≡ query_current_market_state_id market_id states)
    × NamesLatest market_id states rows

abbrev pub state_row : ℕ → ℕ → ReportingState → ℕ → MarketStateRow
state_row id market_id st block_number = record {
  market_state_id = id;
  market_id = market_id;
  reporting_state = st;
  block_number = block_number;
}

max_id_below : (a n : ℕ) → a < n → max_id a (some n) ≡ some n
max_id_below a n h = ground arith

-- A row that is inserted is the latest of its market.
pub current-insert :
    (m n b : ℕ) (st : ReportingState) (rows : List MarketStateRow)
    → IsNumbered n rows
    → query_current_market_state_id m (insert_row (state_row n m st b) rows) ≡ some n
unfolding query_current_market_state_id insert_row IsNumbered
current-insert m n b st [] k = rw (==_refl m) refl
current-insert m n b st (r ∷ rows) k = elim (Bool-cases (r.market_id == m)) [
  | inl e ↦
      rw e (ap (max_id r.market_state_id) (current-insert m n b st rows k.1) ∙ max_id_below _ n k.0)
  | inr e ↦ rw e (current-insert m n b st rows k.1)
]

not_current : (a n c d : ℕ) → a < n → ((a == n) && (c == d)) ≡ false
not_current a n c d h = ground arith

none_current :
    (n : ℕ) (st : ReportingState) (rows : List MarketStateRow)
    → IsNumbered n rows
    → (first_where (is_current (some n) st) rows ≡ none)
      × (count_where (is_current (some n) st) rows ≡ 0)
unfolding first_where count_where IsNumbered
none_current n st [] k = (refl, refl)
none_current n st (r ∷ rows) k =
    rw (not_current r.market_state_id n (state_code r.reporting_state) (state_code st) k.0)
      ((none_current n st rows k.1).0, omega (arith, (none_current n st rows k.1).1))

both_refl : (a b : ℕ) → ((a == a) && (b == b)) ≡ true
both_refl a b = ground arith

-- The row that was inserted, as the rollback finds it.
module _ (n m b : ℕ) (st : ReportingState) (rows : List MarketStateRow)
    (k : IsNumbered n rows) where
  inserted_counts : count_where (is_current (some n) st) (insert_row (state_row n m st b) rows) ≡ 1
  inserted_counts =
      count_where-insert (is_current (some n) st) (state_row n m st b) rows
      ∙ rw ((none_current n st rows k).1, both_refl n (state_code st)) refl

  inserted_deleted :
      delete_where (is_current (some n) st) (insert_row (state_row n m st b) rows) ≡ rows
  inserted_deleted =
      delete-insert (is_current (some n) st) (state_row n m st b) rows (both_refl n (state_code st))
      ∙ delete_none (is_current (some n) st) rows (none_current n st rows k).0

  inserted_counts_as :
      (expected : ReportingState)
      → count_where (is_current (some n) expected) (insert_row (state_row n m st b) rows)
        ≡ (if same_state st expected then 1 else 0)
  inserted_counts_as expected =
      count_where-insert (is_current (some n) expected) (state_row n m st b) rows
      ∙ rw ((none_current n expected rows k).1, ==_refl n)
          (elim (Bool-cases (same_state st expected)) [ inl e ↦ rw e refl | inr e ↦ rw e refl ])

-- Setting the id of a market back to the one it had.
set_back :
    {N : Type 0} (m : ℕ) (id : Option ℕ) (states : List MarketStateRow)
    (markets : List (MarketRow N))
    → NamesLatest m states markets
    → update_where
        (is_market m)
        (set_state_id (query_current_market_state_id m states))
        (update_where (is_market m) (set_state_id id) markets)
      ≡ markets
unfolding update_where NamesLatest
set_back m id states [] k = refl
set_back m id states (r ∷ rows) k = elim (Bool-cases (is_market m r)) [
  | inl e ↦
      rw e
        (rw e (ap₂ ◌∷◌ (ap (λ i. set_state_id i r) (sym (k.0 e))) (set_back m id states rows k.1)))
  | inr e ↦ rw e (rw e (ap (◌∷◌ r) (set_back m id states rows k.1)))
]

module _ {N : Type 0} where
  -- A state that a market was given is rolled back: where the database has given all ids and the
  -- market names its latest state, giving it a state and rolling that state back returns and
  -- leaves every table as it was but for the id that was used up; rolling back an expected state
  -- returns if it is the one that was given, and throws that it is not the most current otherwise.
  pub rollback-update :
      (m b : ℕ) (st expected : ReportingState) (w : World N)
      → IsNumbered w.db.next_market_state_id w.db.market_states
      → NamesLatest m w.db.market_states w.db.markets
      → ((update_market_state m b st >> rollback_market_state m st) w ≡ (
        ok tt,
        record w { db = record (w.db) { next_market_state_id = suc w.db.next_market_state_id } },
      ))
        × (((update_market_state m b st >> rollback_market_state m expected) w).0
            ≡ (if same_state st expected then ok tt else err market_state_not_current))
  unfolding update_market_state rollback_market_state set_market_state_to_latest
  rollback-update m b st expected w k l = (
    rw (current-insert m w.db.next_market_state_id b st w.db.market_states k) (
        rw
          (
            inserted_counts w.db.next_market_state_id m b st w.db.market_states k,
            inserted_deleted w.db.next_market_state_id m b st w.db.market_states k,
          )
          (ap
            (λ markets. (
              ok tt,
              record w {
                db = record (w.db) {
                  markets = markets;
                  next_market_state_id = suc w.db.next_market_state_id;
                };
              },
            ))
            (set_back m (some w.db.next_market_state_id) w.db.market_states w.db.markets l))),
    rw (current-insert m w.db.next_market_state_id b st w.db.market_states k) (
        rw (inserted_counts_as w.db.next_market_state_id m b st w.db.market_states k expected)
          (elim (Bool-cases (same_state st expected)) [ inl e ↦ rw e refl | inr e ↦ rw e refl ])),
  )

  -- Rolling back where the last row that was inserted is of the market.
  pub rollback_inserted :
      (n m b : ℕ) (st expected : ReportingState) (rows : List MarketStateRow) (w : World N)
      → IsNumbered n rows
      → w.db.market_states ≡ insert_row (state_row n m st b) rows
      → ((rollback_market_state m expected w).0
          ≡ (if same_state st expected then ok tt else err market_state_not_current))
        × ((rollback_market_state m st w).1.db.market_states ≡ rows)
  unfolding rollback_market_state set_market_state_to_latest
  rollback_inserted n m b st expected rows w k e = (
    rw (e, current-insert m n b st rows k)
        (rw (inserted_counts_as n m b st rows k expected)
          (elim (Bool-cases (same_state st expected)) [ inl e ↦ rw e refl | inr e ↦ rw e refl ])),
    rw (e, current-insert m n b st rows k)
        (rw (inserted_counts n m b st rows k, inserted_deleted n m b st rows k) refl),
  )
