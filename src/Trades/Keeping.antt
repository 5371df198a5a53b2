-- ===== src/Trades/Keeping.antt =====
-- Complete sets keep every market naming the latest state of its history: open interest is written
-- beside the states.
use augur_node.Prelude.{ℕ, refl, Bool, Option, [], ◌∷◌, ◌==◌, ◌&&◌}
use augur_node.Prelude.Tables.{first_where, update_where, delete_where, insert_row}
use augur_node.BigNumber.{BigNumber}
use augur_node.Database.{
  Action, MarketRow, SupplyRow, modify, emit, or_throw, ◌>>◌, log_event, market_not_found,
  supply_not_found, category_not_found,
}
use augur_node.MarketStates.{is_market}
use augur_node.MarketStates.Ordered.{update-AllLatest}
use augur_node.MarketStates.Keeping.{Keeps, Keeps-bind, Keeps-then, or_throw-Keeps, sequence-Keeps}
use augur_node.Orders.{OrderNumbers}
use augur_node.Reporting.Markets.{in_category, named_category}
use augur_node.Trades.{
  set_open_interest, change_category, update_market_open_interest,
  update_category_aggregations_on_market_open_interest_changed,
}
use augur_node.Trades.OpenInterest.{with_supply, with_found, new_open_interest}
use augur_node.Trades.CompleteSets.{
  CompleteSetsLog, complete_sets_row, sets_event, process_complete_sets_purchased_or_sold_log,
  process_complete_sets_purchased_or_sold_log_removal,
}

module _ (bn : BigNumber) where
  open bn use {Num, plus, minus}

  category-Keeps :
      (name : Option ℕ) (new old : Num) (is_finalized : Bool)
      → Keeps (
          update_category_aggregations_on_market_open_interest_changed bn name new old is_finalized)
  unfolding update_category_aggregations_on_market_open_interest_changed
  category-Keeps name new old is_finalized w v =
      Keeps-bind (or_throw (named_category bn name w.db.categories) category_not_found)
        (λ row. modify (λ db. record db {
          categories =
              update_where (in_category row.category)
                (change_category bn is_finalized (minus new old) row) db.categories;
        }))
        (or_throw-Keeps _ _) (λ row w' v'. v') w v

  module _ (on : OrderNumbers Num) where
    supply-Keeps :
        (market_id : ℕ) (m : MarketRow Num) (is_finalized : Bool) (row : Option (SupplyRow Num))
        → Keeps (with_supply bn on market_id m is_finalized row)
    supply-Keeps market_id m is_finalized row =
        Keeps-bind (or_throw row supply_not_found)
          (λ s.
            modify (λ db. record db {
              markets =
                  update_where (is_market market_id)
                    (set_open_interest bn (new_open_interest bn on m s)) db.markets;
            })
            >> update_category_aggregations_on_market_open_interest_changed bn m.category
                (new_open_interest bn on m s) m.open_interest is_finalized)
          (or_throw-Keeps _ _)
          (λ s.
            Keeps-then
              (modify (λ db. record db {
                markets =
                    update_where (is_market market_id)
                      (set_open_interest bn (new_open_interest bn on m s)) db.markets;
              }))
              (update_category_aggregations_on_market_open_interest_changed bn m.category
                (new_open_interest bn on m s) m.open_interest is_finalized)
              (λ w v. (v.0, update-AllLatest _ _ _ _ (λ r. (refl, refl)) v.1))
              (category-Keeps m.category _ m.open_interest is_finalized))

    open_interest-Keeps : (market_id : ℕ) → Keeps (update_market_open_interest bn on market_id)
    unfolding update_market_open_interest
    open_interest-Keeps market_id w v =
        Keeps-bind (or_throw (first_where (is_market market_id) w.db.markets) market_not_found)
          (with_found bn on market_id) (or_throw-Keeps _ _)
          (λ m w' v'. supply-Keeps market_id m _ _ w' v') w v

    module _ (log : CompleteSetsLog Num) where
      -- What follows the look at the market.
      abbrev record_sets : MarketRow Num → Action Num (Unit {0})
      record_sets m = do
        modify (λ db. record db {
          complete_sets = insert_row (complete_sets_row bn on log m) db.complete_sets;
        })
        emit (log_event (sets_event log.is_purchase) log.transaction_hash log.log_index)
        update_market_open_interest bn on log.market

      pub complete_sets-Keeps : Keeps (process_complete_sets_purchased_or_sold_log bn on log)
      unfolding process_complete_sets_purchased_or_sold_log
      complete_sets-Keeps w v =
          Keeps-bind (or_throw (first_where (is_market log.market) w.db.markets) market_not_found)
            record_sets (or_throw-Keeps _ _)
            (λ m.
              sequence-Keeps
                (modify (λ db. record db {
                  complete_sets = insert_row (complete_sets_row bn on log m) db.complete_sets;
                })
                  ∷ emit (log_event (sets_event log.is_purchase) log.transaction_hash log.log_index)
                  ∷ update_market_open_interest bn on log.market
                  ∷ [])
                ((λ w' v'. v'), ((λ w' v'. v'), open_interest-Keeps log.market)))
            w v

      pub complete_sets_removal-Keeps :
          Keeps (process_complete_sets_purchased_or_sold_log_removal bn on log)
      unfolding process_complete_sets_purchased_or_sold_log_removal
      complete_sets_removal-Keeps =
          sequence-Keeps
            (modify (λ db. record db {
              complete_sets =
                  delete_where
                    (λ r.
                      r.transaction_hash == log.transaction_hash && r.log_index == log.log_index)
                    db.complete_sets;
            })
              ∷ emit (log_event (sets_event log.is_purchase) log.transaction_hash log.log_index)
              ∷ update_market_open_interest bn on log.market
              ∷ [])
            ((λ w' v'. v'), ((λ w' v'. v'), open_interest-Keeps log.market))
