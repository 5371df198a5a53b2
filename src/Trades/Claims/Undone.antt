-- ===== src/Trades/Claims/Undone.antt =====
-- A claim of trading proceeds and its removal, on the rows of profit and loss
-- (src/blockchain/log-processors/profit-loss/update-profit-loss.ts).
use augur_node.Prelude.{
  ℕ, ◌+◌, ◌≡◌, refl, ap, ◌∙◌, Bool, true, false, Option, none, some, List, [], ◌∷◌, ◌==◌, ==_refl,
  if◌then◌else◌, Result, ok, err,
}
use augur_node.Prelude.Tables.{first_where, select_where, count_where, insert_row}
use augur_node.Prelude.TableLaws.{delete-insert, delete_none, count_zero-first}
use augur_node.BigNumber.{BigNumber, is_zero}
use augur_node.Database.{
  World, Action, Error, MarketRow, ProfitLossRow, PayoutRow, pure, or_throw, lift, modify, ◌>>=◌,
  payout_not_found, market_not_found,
}
use augur_node.Blocks.{get_current_time}
use augur_node.Orders.{OrderNumbers}
use augur_node.Tokens.{update_profit_loss_remove_row}
use augur_node.ProfitLoss.{
  NextColumns, next_columns, next_row, TradeData, insert_next_row, update_profit_loss, is_row_of,
  latest_row, column_or_zero,
}
use augur_node.Trades.{tick_size_of}
use augur_node.Trades.Claims.{
  payout_and_market, outcome_values_of, total_from, close_position, claim_outcome, claim_outcomes,
  update_profit_loss_claim_proceeds,
}

module _ (bn : BigNumber) (transaction_hash : ℕ) where
  open bn use {Num, zero_bn, negated}

  -- Removing the rows of the transaction takes back all that an action wrote.
  abbrev pub IsRemovable : {A : Type 0} → Action Num A → Type 0
  IsRemovable m =
      (w : World Num)
      → update_profit_loss_remove_row bn transaction_hash (m w).1
        ≡ update_profit_loss_remove_row bn transaction_hash w

  pub IsRemovable-bind :
      {A B : Type 0} (m : Action Num A) (f : A → Action Num B)
      → IsRemovable m
      → ((a : A) → IsRemovable (f a))
      → IsRemovable (m >>= f)
  IsRemovable-bind {A} {B} m f km kf w = go (m w) (km w)
    where
      go :
          (p : Result Error A × World Num)
          → update_profit_loss_remove_row bn transaction_hash p.1
            ≡ update_profit_loss_remove_row bn transaction_hash w
          → update_profit_loss_remove_row bn transaction_hash (
              let q : Result Error B × World Num = elim p.0 [
                | ok a ↦ f a p.1
                | err e ↦ (err e, p.1)
              ] in
              q.1)
            ≡ update_profit_loss_remove_row bn transaction_hash w
      go (ok a, w') c = kf a w' ∙ c
      go (err e, w') c = c

  or_throw-IsRemovable : {A : Type 0} (o : Option A) (e : Error) → IsRemovable (or_throw o e)
  or_throw-IsRemovable none e w = refl
  or_throw-IsRemovable (some a) e w = refl

  if-IsRemovable :
      {A : Type 0} (b : Bool) (m k : Action Num A)
      → IsRemovable m
      → IsRemovable k
      → IsRemovable (if b then m else k)
  if-IsRemovable true m k km kk = km
  if-IsRemovable false m k km kk = kk

  after_rows : World Num → List (ProfitLossRow Num) → Result Error (Unit {0}) × World Num
  after_rows w rows = (ok tt, record w { db = record (w.db) { profit_loss = rows } })

  insert-IsRemovable :
      (r : ProfitLossRow Num)
      → (r.transaction_hash == transaction_hash) ≡ true
      → IsRemovable (modify (λ db. record db { profit_loss = insert_row r db.profit_loss }))
  unfolding update_profit_loss_remove_row after_rows
  insert-IsRemovable r own w =
      ap (after_rows w)
        (delete-insert (λ x. x.transaction_hash == transaction_hash) r w.db.profit_loss own)

  module _ (market_id account block_number log_index outcome : ℕ) where
    next_row-IsRemovable :
        (delta trade_price : Num) (trade_data : Option (TradeData Num)) (timestamp : ℕ)
        (market : MarketRow Num) (prev : Option (ProfitLossRow Num))
        → IsRemovable (
            insert_next_row bn market_id delta account outcome trade_price transaction_hash
              block_number log_index trade_data timestamp market prev)
    unfolding insert_next_row
    next_row-IsRemovable delta trade_price trade_data timestamp market prev =
        IsRemovable-bind (lift (next_columns bn account delta trade_price trade_data market prev))
          (λ c.
            modify
              (λ db. record db { profit_loss = insert_row (the_row timestamp c) db.profit_loss }))
          (λ w. refl) (λ c. insert-IsRemovable (the_row timestamp c) (==_refl transaction_hash))
      where
        the_row : ℕ → NextColumns Num → ProfitLossRow Num
        the_row timestamp c =
            next_row bn market_id account outcome transaction_hash block_number log_index timestamp
              c

    update-IsRemovable :
        (delta trade_price : Num) (trade_data : Option (TradeData Num))
        → IsRemovable (
            update_profit_loss bn market_id delta account outcome trade_price transaction_hash
              block_number log_index trade_data)
    unfolding update_profit_loss
    update-IsRemovable delta trade_price trade_data =
        if-IsRemovable (is_zero bn delta) (pure tt)
          (λ w. with_market (get_current_time w) (found w) w) (λ w. refl)
          (λ w. with_market-IsRemovable (get_current_time w) (found w) w)
      where
        found : World Num → Option (MarketRow Num)
        found w = first_where (λ m. m.market_id == market_id) w.db.markets

        inserting : ℕ → MarketRow Num → Action Num (Unit {0})
        inserting time market w =
            insert_next_row bn market_id delta account outcome trade_price transaction_hash
              block_number log_index trade_data time market
              (latest_row bn
                (select_where (is_row_of bn account market_id outcome) w.db.profit_loss))
              w

        with_market : ℕ → Option (MarketRow Num) → Action Num (Unit {0})
        with_market time o = or_throw o market_not_found >>= inserting time

        with_market-IsRemovable :
            (time : ℕ) (o : Option (MarketRow Num)) → IsRemovable (with_market time o)
        with_market-IsRemovable time o =
            IsRemovable-bind (or_throw o market_not_found) (inserting time)
              (or_throw-IsRemovable o market_not_found)
              (λ market w. next_row-IsRemovable delta trade_price trade_data time market _ w)

  module _ (market_id account block_number log_index : ℕ) where
    close-IsRemovable :
        (outcome : ℕ) (last_position total_payout : Num) (value : Option Num)
        → IsRemovable (
            close_position bn market_id account transaction_hash block_number log_index outcome
              last_position total_payout value)
    close-IsRemovable outcome last_position total_payout none = λ w. refl
    close-IsRemovable outcome last_position total_payout (some value) =
        update-IsRemovable market_id account block_number log_index outcome _ _ none

    outcome-IsRemovable :
        (total_payout : Num) (outcome : ℕ) (value : Option Num)
        → IsRemovable (
            claim_outcome bn market_id account transaction_hash block_number log_index total_payout
              outcome value)
    outcome-IsRemovable total_payout outcome value w =
        let last_position =
          column_or_zero bn (λ r. r.position)
            (latest_row bn
              (select_where (is_row_of bn account market_id outcome) w.db.profit_loss)) in
        if-IsRemovable (is_zero bn last_position) (pure tt)
          (close_position bn market_id account transaction_hash block_number log_index outcome
            last_position total_payout value)
          (λ w. refl) (close-IsRemovable outcome last_position total_payout value) w

    outcomes-IsRemovable :
        (total_payout : Num) (values : List Num) (outcome : ℕ)
        → IsRemovable (
            claim_outcomes bn market_id account transaction_hash block_number log_index total_payout
              values outcome)
    unfolding claim_outcomes
    outcomes-IsRemovable total_payout [] outcome = outcome-IsRemovable total_payout outcome none
    outcomes-IsRemovable total_payout (value ∷ values) outcome =
        IsRemovable-bind
          (claim_outcome bn market_id account transaction_hash block_number log_index total_payout
            outcome (some value))
          (λ done.
            claim_outcomes bn market_id account transaction_hash block_number log_index total_payout
              values (outcome + 1))
          (outcome-IsRemovable total_payout outcome (some value))
          (λ done. outcomes-IsRemovable total_payout values (outcome + 1))

    pub claim-IsRemovable :
        (on : OrderNumbers Num)
        → IsRemovable (
            update_profit_loss_claim_proceeds bn market_id account transaction_hash block_number
              log_index on)
    unfolding update_profit_loss_claim_proceeds
    claim-IsRemovable on w =
        IsRemovable-bind (or_throw (payout_and_market bn market_id w.db) payout_not_found)
          (λ found.
            claim_outcomes bn market_id account transaction_hash block_number log_index
              (total_from bn zero_bn (values found)) (values found) 0)
          (or_throw-IsRemovable _ _) (λ found. outcomes-IsRemovable _ (values found) 0) w
      where
        values : PayoutRow Num × MarketRow Num → List Num
        values found =
            outcome_values_of bn (tick_size_of bn on found.1) found.1.min_price found.0.payout

    -- Where no row of profit and loss is of the transaction, removing its rows after the claim of an
    -- account's proceeds leaves the tables, the events and the clock as they were before the claim,
    -- however many outcomes it closed, and also where it threw after some of them.
    pub claim_removed :
        (on : OrderNumbers Num) (w : World Num)
        → count_where (λ r. r.transaction_hash == transaction_hash) w.db.profit_loss ≡ 0
        → update_profit_loss_remove_row bn transaction_hash (
            (update_profit_loss_claim_proceeds bn market_id account transaction_hash block_number
              log_index on w).1)
          ≡ (ok tt, w)
    unfolding update_profit_loss_remove_row after_rows
    claim_removed on w fresh =
        claim-IsRemovable on w
        ∙ ap (after_rows w) (
            delete_none (λ r. r.transaction_hash == transaction_hash) w.db.profit_loss
              (count_zero-first (λ r. r.transaction_hash == transaction_hash) w.db.profit_loss
                fresh))
