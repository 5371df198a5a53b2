-- ===== src/Reporting/CreatedKeep.antt =====
-- A market that is created names its first state, and a market that is taken back leaves no state
-- (src/blockchain/log-processors/market-created.ts).
use augur_node.Prelude.{
  ℕ, suc, ◌≤◌, ◌≡◌, refl, sym, ap, ◌∙◌, Bool, true, false, some, List, [], ◌∷◌, arith, ◌==◌, ==_iff,
  Bool-cases, inl, inr,
}
use augur_node.Prelude.Tables.{first_where, delete_where, insert_row, count_where}
use augur_node.BigNumber.{BigNumber}
use augur_node.Database.{
  World, MarketRow, MarketStateRow, ReportingState, or_throw, ◌>>◌, pre_reporting,
  rep_balance_not_found,
}
use augur_node.MarketStates.{query_current_market_state_id, is_market, max_id, insert_market_state}
use augur_node.MarketStates.History.{state_row, IsNumbered, current-insert}
use augur_node.MarketStates.Ordered.{
  IsOrdered, AllLatest, IsConsistent, IsOrdered-insert, IsOrdered-delete, query-insert_other,
  ==_sym,
}
use augur_node.MarketStates.Keeping.{
  Keeps, IsKept, KeepsReturned, KeepsReturned-bind, Keeps-KeepsReturned, or_throw-Keeps,
}
use augur_node.Reporting.{FormattedEventLog, Chain}
use augur_node.Reporting.Markets.{create_category_if_not_exists}
use augur_node.Reporting.Created.{
  insert_if, create_outcomes, create_market, market_row, is_rep_balance, process_market_created_log,
  process_market_created_log_removal,
}

IsOrdered-bound : (low n : ℕ) (rows : List MarketStateRow) → IsOrdered low n rows → low ≤ n
unfolding IsOrdered
IsOrdered-bound low n [] o = o
IsOrdered-bound low n (r ∷ rows) o =
    omega (arith, o.0, IsOrdered-bound (suc r.market_state_id) n rows o.1)

IsOrdered-IsNumbered :
    (low n : ℕ) (rows : List MarketStateRow) → IsOrdered low n rows → IsNumbered n rows
unfolding IsOrdered IsNumbered
IsOrdered-IsNumbered low n [] o = tt
IsOrdered-IsNumbered low n (r ∷ rows) o =
    (IsOrdered-bound (suc r.market_state_id) n rows o.1, IsOrdered-IsNumbered _ n rows o.1)

-- The latest states of the other markets after the states of one are deleted.
query-delete_states :
    (m m' : ℕ) (rows : List MarketStateRow)
    → (m' == m) ≡ false
    → query_current_market_state_id m' (delete_where (λ r. r.market_id == m) rows)
      ≡ query_current_market_state_id m' rows
unfolding query_current_market_state_id delete_where
query-delete_states m m' [] h = refl
query-delete_states m m' (r ∷ rows) h = elim (Bool-cases (r.market_id == m)) [
  | inl e ↦ rw e (rw (other r.market_id e) (query-delete_states m m' rows h))
  | inr e ↦ rw e (elim (Bool-cases (r.market_id == m')) [
    | inl k ↦ rw k (ap (max_id r.market_state_id) (query-delete_states m m' rows h))
    | inr k ↦ rw k (query-delete_states m m' rows h)
  ])
]
  where
    other : (a : ℕ) → (a == m) ≡ true → (a == m') ≡ false
    other a e = ground (arith, h, e)

module _ {N : Type 0} where
  AllLatest-delete :
      (m : ℕ) (states : List MarketStateRow) (markets : List (MarketRow N))
      → AllLatest states markets
      → AllLatest (delete_where (λ r. r.market_id == m) states) (delete_where (is_market m) markets)
  unfolding AllLatest delete_where
  AllLatest-delete m states [] all = tt
  AllLatest-delete m states (r ∷ rows) all = elim (Bool-cases (is_market m r)) [
    | inl e ↦ rw e (AllLatest-delete m states rows all.1)
    | inr e ↦ rw e (
      all.0 ∙ sym (query-delete_states m r.market_id states e),
      AllLatest-delete m states rows all.1,
    )
  ]

  -- A market that the table does not have, with the row that is inserted for it.
  AllLatest-insert :
      (row : MarketRow N) (n b : ℕ) (st : ReportingState) (states : List MarketStateRow)
      (markets : List (MarketRow N))
      → IsNumbered n states
      → row.market_state_id ≡ some n
      → count_where (is_market row.market_id) markets ≡ 0
      → AllLatest states markets
      → AllLatest (insert_row (state_row n row.market_id st b) states) (insert_row row markets)
  unfolding AllLatest insert_row count_where
  AllLatest-insert row n b st states [] k e none_yet all =
      (e ∙ sym (current-insert row.market_id n b st states k), tt)
  AllLatest-insert row n b st states (r ∷ rows) k e none_yet all =
      elim (Bool-cases (is_market row.market_id r)) [
        | inl h ↦ absurd (omega (arith, rw h at none_yet))
        | inr h ↦ (
          all.0
              ∙ sym (
                  query-insert_other r.market_id n row.market_id b st states
                    (==_sym row.market_id r.market_id ∙ h)),
          AllLatest-insert row n b st states rows k e (omega (arith, rw h at none_yet)) all.1,
        )
      ]

  pub market_created_removal-Keeps :
      (ether : ℕ) (log : FormattedEventLog N) → Keeps (process_market_created_log_removal ether log)
  unfolding process_market_created_log_removal
  market_created_removal-Keeps ether log w v = (
    IsOrdered-delete _ 0 _ w.db.market_states v.0,
    AllLatest-delete log.market w.db.market_states w.db.markets v.1,
  )

module _ (bn : BigNumber) where
  open bn use {Num}

  module _ (ether : ℕ) (chain : Chain Num) (log : FormattedEventLog Num) where
    inserted-IsKept :
        (w : World Num) (is_new : Bool)
        → (count_where (is_market log.market) w.db.markets == 0) ≡ is_new
        → IsConsistent w.db
        → IsKept (
            (insert_if is_new (market_row bn chain log w.db.next_market_state_id)
                >> create_outcomes bn ether chain log)
              (record w {
                db = insert_market_state log.market log.block_number pre_reporting w.db;
              }))
    unfolding create_category_if_not_exists
    inserted-IsKept w true e v = (
      IsOrdered-insert 0 w.db.next_market_state_id log.market log.block_number pre_reporting
          w.db.market_states v.0,
      AllLatest-insert (market_row bn chain log w.db.next_market_state_id) w.db.next_market_state_id
          log.block_number pre_reporting w.db.market_states w.db.markets
          (IsOrdered-IsNumbered 0 _ w.db.market_states v.0) refl ((==_iff _ 0).0 e) v.1,
    )
    inserted-IsKept w false e v = tt

    create_market-KeepsReturned : KeepsReturned (create_market bn ether chain log)
    create_market-KeepsReturned w v = inserted-IsKept w _ refl v

    pub market_created-KeepsReturned : KeepsReturned (process_market_created_log bn ether chain log)
    unfolding process_market_created_log
    market_created-KeepsReturned w v =
        KeepsReturned-bind
          (or_throw (first_where (is_rep_balance w.db log.market) w.db.balances)
            rep_balance_not_found)
          (λ row. create_market bn ether chain log)
          (Keeps-KeepsReturned (or_throw _ rep_balance_not_found)
            (or_throw-Keeps _ rep_balance_not_found))
          (λ row. create_market-KeepsReturned) w v
