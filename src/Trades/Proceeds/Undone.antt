-- ===== src/Trades/Proceeds/Undone.antt =====
-- A claim of trading proceeds and the removal of its log
-- (src/blockchain/log-processors/trading-proceeds-claimed.ts).
use augur_node.Prelude.{ℕ, ◌≡◌, refl, ap, ap₂, ◌∙◌, true, List, ◌==◌, ◌&&◌, arith, Result, ok, err}
use augur_node.Prelude.Tables.{delete_where, count_where, insert_row}
use augur_node.Prelude.TableLaws.{delete-insert, delete_none, count_zero-first}
use augur_node.BigNumber.{BigNumber}
use augur_node.Database.{
  Db, World, Error, TradingProceedsRow, ProfitLossRow, emit, log_event, trading_proceeds_claimed,
}
use augur_node.Orders.{OrderNumbers}
use augur_node.Tokens.{update_profit_loss_remove_row}
use augur_node.Trades.Claims.{update_profit_loss_claim_proceeds}
use augur_node.Trades.Claims.Undone.{claim_removed}
use augur_node.Trades.Proceeds.{
  TradingProceedsLog, proceeds_row, is_claim, process_trading_proceeds_claimed_log,
  process_trading_proceeds_claimed_log_removal,
}

module _ (bn : BigNumber) (log : TradingProceedsLog (bn.Num)) where
  open bn use {Num}

  delete_claim : Db Num → Db Num
  delete_claim db = record db {
    trading_proceeds = delete_where (is_claim bn log) db.trading_proceeds;
    profit_loss = delete_where (λ r. r.transaction_hash == log.transaction_hash) db.profit_loss;
  }

  after_claim : Result Error (Unit {0}) × World Num → World Num
  after_claim p =
      let q : Result Error (Unit {0}) × World Num = elim p.0 [
        | ok a ↦ emit (log_event trading_proceeds_claimed log.transaction_hash log.log_index) p.1
        | err e ↦ (err e, p.1)
      ] in
      q.1

  removal_lem :
      (p : Result Error (Unit {0}) × World Num)
      → (process_trading_proceeds_claimed_log_removal bn log (after_claim p)).1.db
        ≡ delete_claim ((update_profit_loss_remove_row bn log.transaction_hash p.1).1.db)
  unfolding process_trading_proceeds_claimed_log_removal update_profit_loss_remove_row after_claim
      delete_claim
  removal_lem (ok a, w) = refl
  removal_lem (err e, w) = refl

  own_claim : is_claim bn log (proceeds_row bn log) ≡ true
  own_claim = both_same log.transaction_hash log.log_index
    where
      both_same : (a b : ℕ) → ((a == a) && (b == b)) ≡ true
      both_same a b = ground arith

  -- Where neither the log nor its transaction has rows in the tables of proceeds and of profit and
  -- loss, the removal of a TradingProceedsClaimed log leaves the tables as they were before the log
  -- was processed, whether its processing returned or threw.
  pub claim_log_removed :
      (on : OrderNumbers Num) (w : World Num)
      → count_where (is_claim bn log) w.db.trading_proceeds ≡ 0
      → count_where (λ r. r.transaction_hash == log.transaction_hash) w.db.profit_loss ≡ 0
      → (process_trading_proceeds_claimed_log_removal bn log
          ((process_trading_proceeds_claimed_log bn on log w).1)).1.db
        ≡ w.db
  unfolding process_trading_proceeds_claimed_log after_claim delete_claim
  claim_log_removed on w no_claim no_row =
      removal_lem (
        update_profit_loss_claim_proceeds bn log.market log.sender log.transaction_hash
          log.block_number log.transaction_index on (inserted w))
      ∙ ap (λ (q : Result Error (Unit {0}) × World Num). delete_claim q.1.db)
          (claim_removed bn log.transaction_hash log.market log.sender log.block_number
            log.transaction_index on (inserted w) no_row)
      ∙ ap₂ (the_tables w)
          (delete-insert (is_claim bn log) (proceeds_row bn log) w.db.trading_proceeds own_claim
            ∙ delete_none (is_claim bn log) w.db.trading_proceeds
                (count_zero-first (is_claim bn log) w.db.trading_proceeds no_claim))
          (delete_none (λ r. r.transaction_hash == log.transaction_hash) w.db.profit_loss
            (count_zero-first (λ r. r.transaction_hash == log.transaction_hash) w.db.profit_loss
              no_row))
    where
      inserted : World Num → World Num
      inserted w = record w {
        db = record (w.db) {
          trading_proceeds = insert_row (proceeds_row bn log) w.db.trading_proceeds;
        };
      }

      the_tables : World Num → List (TradingProceedsRow Num) → List (ProfitLossRow Num) → Db Num
      the_tables w ts rs = record (w.db) { trading_proceeds = ts; profit_loss = rs }
