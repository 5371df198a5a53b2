-- ===== src/Trades/Proceeds.antt =====
-- Claims of trading proceeds (src/blockchain/log-processors/trading-proceeds-claimed.ts).
pub mod Undone
pub mod Keeping
mod Tests
use augur_node.Prelude.{ℕ, Bool, ◌==◌, ◌&&◌, ==_refl, Result, ok, err}
use augur_node.Prelude.Tables.{delete_where, count_where, insert_row}
use augur_node.BigNumber.{BigNumber}
use augur_node.Database.{
  Db, World, Action, Error, TradingProceedsRow, ProfitLossRow, modify, emit, ◌>>=◌, ◌>>◌, log_event,
  trading_proceeds_claimed,
}
use augur_node.Orders.{OrderNumbers}
use augur_node.Tokens.{update_profit_loss_remove_row}
use augur_node.Trades.Claims.{update_profit_loss_claim_proceeds}

-- The fields of a TradingProceedsClaimed log.
pub record TradingProceedsLog (N : Type 0) : Type 0 where
  pub market : ℕ
  pub share_token : ℕ
  pub sender : ℕ
  pub num_shares : N
  pub num_payout_tokens : N
  pub block_number : ℕ
  pub transaction_hash : ℕ
  pub transaction_index : ℕ
  pub log_index : ℕ

module _ (bn : BigNumber) where
  open bn use {Num}

  abbrev pub proceeds_row : TradingProceedsLog Num → TradingProceedsRow Num
  proceeds_row log = record {
    market_id = log.market;
    share_token = log.share_token;
    account = log.sender;
    num_shares = log.num_shares;
    num_payout_tokens = log.num_payout_tokens;
    block_number = log.block_number;
    transaction_hash = log.transaction_hash;
    log_index = log.log_index;
  }

  abbrev pub is_claim : TradingProceedsLog Num → TradingProceedsRow Num → Bool
  is_claim log r = r.transaction_hash == log.transaction_hash && r.log_index == log.log_index

  unfoldable pub process_trading_proceeds_claimed_log :
      OrderNumbers Num → TradingProceedsLog Num → Action Num (Unit {0})
  process_trading_proceeds_claimed_log on log = do
    modify
        (λ db. record db { trading_proceeds = insert_row (proceeds_row log) db.trading_proceeds })
    update_profit_loss_claim_proceeds bn log.market log.sender log.transaction_hash log.block_number
        log.transaction_index on
    emit (log_event trading_proceeds_claimed log.transaction_hash log.log_index)

  -- The rows of profit and loss are deleted twice.
  unfoldable pub process_trading_proceeds_claimed_log_removal :
      TradingProceedsLog Num → Action Num (Unit {0})
  process_trading_proceeds_claimed_log_removal log = do
    modify (λ db. record db { trading_proceeds = delete_where (is_claim log) db.trading_proceeds })
    modify (λ db. record db {
      profit_loss = delete_where (λ r. r.transaction_hash == log.transaction_hash) db.profit_loss;
    })
    update_profit_loss_remove_row bn log.transaction_hash
    emit (log_event trading_proceeds_claimed log.transaction_hash log.log_index)
