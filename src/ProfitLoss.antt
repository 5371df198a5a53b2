-- ===== src/ProfitLoss.antt =====
-- Profit and loss of an account in an outcome: frozen funds and the rows of
-- wcl_profit_loss_timeseries (src/blockchain/log-processors/profit-loss/frozen-funds.ts,
-- update-profit-loss.ts).
pub mod Rows
pub mod Frozen
mod Tests
use augur_node.Prelude.{
  ℕ, Bool, true, false, ◌&&◌, ◌||◌, Option, none, some, List, [], ◌∷◌, ◌==◌, ltb, if◌then◌else◌,
  Result, ok, err,
}
use augur_node.Prelude.Tables.{first_where, insert_row, select_where}
use augur_node.BigNumber.{BigNumber, is_zero}
use augur_node.Quantity.{Quantity, QuantityError, new_quantity, shares, price, tokens}
use augur_node.FinancialMath.{
  get_trade_price_minus_min_price, get_trade_quantity_opened, get_next_net_position,
  get_next_realized_profit, get_next_realized_cost, get_next_average_trade_price,
  get_trade_realized_profit_delta,
}
use augur_node.Database.{
  Db, World, Action, ProfitLossRow, MarketRow, OrderType, buy, sell, Error, dimension_error,
  market_not_found, not_a_trader, pure, throw, gets, or_throw, modify, lift, ◌>>=◌, ◌>>◌,
}
use augur_node.Blocks.{get_current_time}
unfoldable pub use Rows.*

module _ (bn : BigNumber) where
  open bn use {Num}

  abbrev pub now : Action Num ℕ
  now w = (ok (get_current_time w), w)

  -- `nextProfitLossInsert`
  abbrev pub next_row : ℕ → ℕ → ℕ → ℕ → ℕ → ℕ → ℕ → NextColumns Num → ProfitLossRow Num
  next_row market_id account outcome transaction_hash block_number log_index timestamp c = record {
    account = account;
    market_id = market_id;
    outcome = outcome;
    price = c.price;
    position = c.position;
    quantity_opened = c.quantity_opened;
    profit = c.profit;
    transaction_hash = transaction_hash;
    timestamp = timestamp;
    block_number = block_number;
    log_index = log_index;
    frozen_funds = c.frozen_funds;
    realized_cost = c.realized_cost;
  }

  -- What `updateProfitLoss` does for a position that changes, with the row before it.
  unfoldable pub insert_next_row :
      ℕ
      → Num
      → ℕ
      → ℕ
      → Num
      → ℕ
      → ℕ
      → ℕ
      → Option (TradeData Num)
      → ℕ
      → MarketRow Num
      → Option (ProfitLossRow Num)
      → Action Num (Unit {0})
  insert_next_row market_id delta account outcome trade_price transaction_hash block_number
        log_index trade_data timestamp market prev =
      do
        columns ← lift (next_columns bn account delta trade_price trade_data market prev)
        modify (λ db. record db {
          profit_loss =
              insert_row
                (next_row market_id account outcome transaction_hash block_number log_index
                  timestamp columns)
                db.profit_loss;
        })

  unfoldable pub update_profit_loss :
      ℕ → Num → ℕ → ℕ → Num → ℕ → ℕ → ℕ → Option (TradeData Num) → Action Num (Unit {0})
  update_profit_loss market_id delta account outcome trade_price transaction_hash block_number
        log_index trade_data =
      if is_zero bn delta then pure tt else (do
        timestamp ← now
        found ← gets (λ db. first_where (λ m. m.market_id == market_id) db.markets)
        market ← or_throw found market_not_found
        prev ← gets (λ db.
            latest_row bn (select_where (is_row_of bn account market_id outcome) db.profit_loss))
        insert_next_row market_id delta account outcome trade_price transaction_hash block_number
            log_index trade_data timestamp market prev)
