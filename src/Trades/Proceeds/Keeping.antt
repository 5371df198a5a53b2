-- ===== src/Trades/Proceeds/Keeping.antt =====
-- Claims of proceeds keep every market naming the latest state of its history
-- (src/blockchain/log-processors/trading-proceeds-claimed.ts).
use augur_node.Prelude.{sym, subst, [], ◌∷◌}
use augur_node.Prelude.Tables.{insert_row}
use augur_node.BigNumber.{BigNumber}
use augur_node.Database.{modify, emit, log_event, trading_proceeds_claimed}
use augur_node.MarketStates.Ordered.{IsConsistent}
use augur_node.MarketStates.Keeping.{Keeps, sequence-Keeps}
use augur_node.Orders.{OrderNumbers}
use augur_node.Tokens.{update_profit_loss_remove_row}
use augur_node.Trades.Claims.{update_profit_loss_claim_proceeds}
use augur_node.Trades.Claims.Undone.{claim-IsRemovable}
use augur_node.Trades.Proceeds.{
  TradingProceedsLog, proceeds_row, process_trading_proceeds_claimed_log,
  process_trading_proceeds_claimed_log_removal,
}

module _ (bn : BigNumber) (log : TradingProceedsLog (bn.Num)) where
  open bn use {Num}

  -- What only writes rows of profit and loss does not reach the markets and their states.
  claim-Keeps :
      (on : OrderNumbers Num)
      → Keeps (
          update_profit_loss_claim_proceeds bn log.market log.sender log.transaction_hash
            log.block_number log.transaction_index on)
  unfolding update_profit_loss_remove_row
  claim-Keeps on w v =
      subst (λ q. IsConsistent q.1.db)
        (sym (
          claim-IsRemovable bn log.transaction_hash log.market log.sender log.block_number
            log.transaction_index on w))
        v

  pub proceeds-Keeps :
      (on : OrderNumbers Num) → Keeps (process_trading_proceeds_claimed_log bn on log)
  unfolding process_trading_proceeds_claimed_log
  proceeds-Keeps on =
      sequence-Keeps
        (modify (λ db. record db {
          trading_proceeds = insert_row (proceeds_row bn log) db.trading_proceeds;
        })
          ∷ update_profit_loss_claim_proceeds bn log.market log.sender log.transaction_hash
              log.block_number log.transaction_index on
          ∷ emit (log_event trading_proceeds_claimed log.transaction_hash log.log_index)
          ∷ [])
        ((λ w v. v), (claim-Keeps on, (λ w v. v)))

  pub proceeds_removal-Keeps : Keeps (process_trading_proceeds_claimed_log_removal bn log)
  unfolding process_trading_proceeds_claimed_log_removal update_profit_loss_remove_row
  proceeds_removal-Keeps w v = v
