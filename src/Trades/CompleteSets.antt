-- ===== src/Trades/CompleteSets.antt =====
-- Complete sets that are purchased or sold (src/blockchain/log-processors/completesets.ts).
use augur_node.Prelude.{ℕ, Bool, ◌&&◌, ◌==◌, if◌then◌else◌}
use augur_node.Prelude.Tables.{first_where, delete_where, insert_row}
use augur_node.BigNumber.{BigNumber}
use augur_node.Database.{
  Action, MarketRow, CompleteSetsRow, gets, or_throw, modify, emit, ◌>>=◌, ◌>>◌, log_event,
  complete_sets_purchased, complete_sets_sold, EventName, market_not_found,
}
use augur_node.MarketStates.{is_market}
use augur_node.Orders.{OrderNumbers}
use augur_node.Trades.{tick_size_of, update_market_open_interest}

-- The fields of a CompleteSetsPurchased or CompleteSetsSold log.
pub record CompleteSetsLog (N : Type 0) : Type 0 where
  pub market : ℕ
  pub account : ℕ
  pub universe : ℕ
  pub is_purchase : Bool
  pub num_complete_sets : N
  pub block_number : ℕ
  pub transaction_hash : ℕ
  pub log_index : ℕ

abbrev pub sets_event : Bool → EventName
sets_event is_purchase = if is_purchase then complete_sets_purchased else complete_sets_sold

module _ (bn : BigNumber) where
  open bn use {Num}

  abbrev pub complete_sets_row :
      OrderNumbers Num → CompleteSetsLog Num → MarketRow Num → CompleteSetsRow Num
  complete_sets_row on log m =
      let sets =
        on.convert_on_chain_amount_to_display_amount log.num_complete_sets (tick_size_of bn on m) in
      record {
        market_id = log.market;
        account = log.account;
        block_number = log.block_number;
        universe = log.universe;
        is_purchase = log.is_purchase;
        transaction_hash = log.transaction_hash;
        log_index = log.log_index;
        num_complete_sets = sets;
        num_purchased_or_sold = sets;
      }

  unfoldable pub process_complete_sets_purchased_or_sold_log :
      OrderNumbers Num → CompleteSetsLog Num → Action Num (Unit {0})
  process_complete_sets_purchased_or_sold_log on log = do
    market ← gets (λ db. first_where (is_market log.market) db.markets)
    m ← or_throw market market_not_found
    modify (λ db. record db {
      complete_sets = insert_row (complete_sets_row on log m) db.complete_sets;
    })
    emit (log_event (sets_event log.is_purchase) log.transaction_hash log.log_index)
    update_market_open_interest bn on log.market

  unfoldable pub process_complete_sets_purchased_or_sold_log_removal :
      OrderNumbers Num → CompleteSetsLog Num → Action Num (Unit {0})
  process_complete_sets_purchased_or_sold_log_removal on log = do
    modify (λ db. record db {
      complete_sets =
          delete_where
            (λ r. r.transaction_hash == log.transaction_hash && r.log_index == log.log_index)
            db.complete_sets;
    })
    emit (log_event (sets_event log.is_purchase) log.transaction_hash log.log_index)
    update_market_open_interest bn on log.market
