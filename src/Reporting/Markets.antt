-- ===== src/Reporting/Markets.antt =====
-- The end of a market, its migration to another universe and its disavowal
-- (src/blockchain/log-processors/market-finalized.ts, market-migrated.ts,
-- market-participants-disavowed.ts, reporting-participant-disavowed.ts, market-mailbox-transferred.ts,
-- category-aggregations.ts, profit-loss/update-outcome-value.ts).
use augur_node.Prelude.{
  ℕ, ◌+◌, Bool, true, ◌&&◌, not, Option, none, some, List, [], ◌∷◌, ◌++◌, ◌==◌, if◌then◌else◌, ok,
}
use augur_node.Prelude.Int.{ℤ, pos, ◌+ℤ◌, ◌-ℤ◌}
use augur_node.Prelude.Tables.{first_where, update_where, delete_where, insert_row, count_where}
use augur_node.BigNumber.{BigNumber}
use augur_node.Database.{
  Action, MarketRow, MarketStateRow, CrowdsourcerRow, InitialReportRow, CategoryRow,
  OutcomeValueRow, finalized, awaiting_fork_migration, awaiting_next_window, open_reporting, pure,
  throw, gets, or_throw, modify, emit, ◌>>=◌, ◌>>◌, log_event, reporting_participant_disavowed,
  market_not_found, prior_state_not_found, category_not_found, payout_not_found,
  reporting_participant_not_found,
}
use augur_node.MarketStates.{is_market, same_state, update_market_state, rollback_market_state}
use augur_node.Blocks.{named_row, get_current_time}
use augur_node.Orders.{OrderNumbers, num_ticks_to_tick_size}
use augur_node.Reporting.{
  FormattedEventLog, Chain, in_market, update_market_fee_window, refresh_market_mailbox_eth_balance,
}
use augur_node.Reporting.Universes.{change_markets}

abbrev pub plus_one : ℤ → ℤ
plus_one n = n +ℤ pos 1

abbrev pub minus_one : ℤ → ℤ
minus_one n = n -ℤ pos 1

module _ {N : Type 0} where
  abbrev pub change_disavowals : ℕ → (ℤ → ℤ) → Action N (Unit {0})
  change_disavowals market_id f = modify (λ db. record db {
    crowdsourcers =
        update_where (in_market market_id) (λ c. record c { disavowed = f c.disavowed })
          db.crowdsourcers;
  })

  abbrev pub change_needs_disavowal : (ℤ → ℤ) → MarketRow N → MarketRow N
  change_needs_disavowal f m = record m { needs_disavowal = f m.needs_disavowal }

  unfoldable pub process_market_participants_disavowed_log :
      FormattedEventLog N → Action N (Unit {0})
  process_market_participants_disavowed_log log = do
    change_markets (is_market log.market) (change_needs_disavowal minus_one)
    change_disavowals log.market plus_one

  unfoldable pub process_market_participants_disavowed_log_removal :
      FormattedEventLog N → Action N (Unit {0})
  process_market_participants_disavowed_log_removal log = do
    change_markets (is_market log.market) (change_needs_disavowal plus_one)
    change_disavowals log.market minus_one

  abbrev pub is_reporter : ℕ → InitialReportRow N → Bool
  is_reporter participant r = r.initial_reporter == participant

  abbrev pub is_source : ℕ → CrowdsourcerRow N → Bool
  is_source participant c = c.crowdsourcer_id == participant

  -- The two updates, and the numbers of rows that they changed.
  unfoldable pub disavow : ℕ → ℕ → ℤ → ℕ → ℕ → Action N (Unit {0})
  disavow participant of_report of_crowdsourcer transaction_hash log_index = do
    initial_reporter ← gets (λ db. count_where (is_reporter participant) db.initial_reports)
    modify (λ db. record db {
      initial_reports =
          update_where (is_reporter participant) (λ r. record r { disavowed = of_report })
            db.initial_reports;
    })
    crowdsourcer ← gets (λ db. count_where (is_source participant) db.crowdsourcers)
    modify (λ db. record db {
      crowdsourcers =
          update_where (is_source participant) (λ c. record c { disavowed = of_crowdsourcer })
            db.crowdsourcers;
    })
    (if initial_reporter == 1
        then emit (log_event reporting_participant_disavowed transaction_hash log_index)
        else (if crowdsourcer == 1
            then emit (log_event reporting_participant_disavowed transaction_hash log_index)
            else throw reporting_participant_not_found))

  unfoldable pub process_reporting_participant_disavowed_log :
      FormattedEventLog N → Action N (Unit {0})
  process_reporting_participant_disavowed_log log =
      disavow log.reporting_participant 1 (pos 1) log.transaction_hash log.log_index

  unfoldable pub process_reporting_participant_disavowed_log_removal :
      FormattedEventLog N → Action N (Unit {0})
  process_reporting_participant_disavowed_log_removal log =
      disavow log.reporting_participant 0 (pos 0) log.transaction_hash log.log_index

  abbrev pub set_mailbox_owner : ℕ → MarketRow N → MarketRow N
  set_mailbox_owner owner m = record m { market_creator_mailbox_owner = owner }

  unfoldable pub process_market_mailbox_transferred_log : FormattedEventLog N → Action N (Unit {0})
  process_market_mailbox_transferred_log log =
      change_markets (is_market log.market) (set_mailbox_owner log.to_address)

  unfoldable pub process_market_mailbox_transferred_log_removal :
      FormattedEventLog N → Action N (Unit {0})
  process_market_mailbox_transferred_log_removal log =
      change_markets (is_market log.market) (set_mailbox_owner log.from_address)

  abbrev pub migrate : ℕ → (ℤ → ℤ) → MarketRow N → MarketRow N
  migrate universe f m = record m {
    universe = universe;
    needs_migration = f m.needs_migration;
    needs_disavowal = f m.needs_disavowal;
  }

  -- The state that a market has; a market whose state is not found has none.
  abbrev pub state_or_skip : ℕ → ℕ → ℕ → Option MarketStateRow → Action N (Unit {0})
  state_or_skip market_id block_number fee_window none = pure tt
  state_or_skip market_id block_number fee_window (some r) =
      if same_state r.reporting_state awaiting_fork_migration
      then update_market_state market_id block_number
          (if fee_window == 0 then open_reporting else awaiting_next_window)
      else pure tt

  -- The address of no fee window is 0.
  unfoldable pub advance_to_awaiting_next_window : ℕ → ℕ → Action N (Unit {0})
  advance_to_awaiting_next_window market_id block_number = do
    row ← gets (λ db. first_where (is_market market_id) db.markets)
    market ← or_throw row prior_state_not_found
    state ← gets (λ db. named_row market.market_state_id db.market_states)
    state_or_skip market_id block_number market.fee_window state

  abbrev pub in_category : ℕ → CategoryRow N → Bool
  in_category category r = r.category == category

module _ (bn : BigNumber) where
  open bn use {Num, plus, minus, multiplied_by, zero_bn}

  abbrev pub create_category : ℕ → ℕ → List (CategoryRow Num) → List (CategoryRow Num)
  create_category universe category rows =
      if count_where (λ r. r.category == category && r.universe == universe) rows == 0
      then insert_row
          (record {
            category = category;
            universe = universe;
            open_interest = zero_bn;
            non_finalized_open_interest = zero_bn;
          })
          rows
      else rows

  unfoldable pub create_category_if_not_exists : ℕ → ℕ → Action Num (Unit {0})
  create_category_if_not_exists universe category =
      modify (λ db. record db { categories = create_category universe category db.categories })

  abbrev pub category_of : Option (MarketRow Num) → Option ℕ
  category_of none = none
  category_of (some m) = m.category

  abbrev pub create_if_named : ℕ → Option ℕ → Action Num (Unit {0})
  create_if_named universe none = pure tt
  create_if_named universe (some category) = create_category_if_not_exists universe category

  unfoldable pub process_market_migrated_log :
      Chain Num → FormattedEventLog Num → Action Num (Unit {0})
  process_market_migrated_log chain log = do
    advance_to_awaiting_next_window log.market log.block_number
    update_market_fee_window chain log.new_universe log.market true
    change_markets (is_market log.market) (migrate log.new_universe minus_one)
    change_disavowals log.market plus_one
    row ← gets (λ db. first_where (is_market log.market) db.markets)
    create_if_named log.new_universe (category_of row)

  unfoldable pub process_market_migrated_log_removal : FormattedEventLog Num → Action Num (Unit {0})
  process_market_migrated_log_removal log = do
    rollback_market_state log.market awaiting_next_window
    change_markets (is_market log.market) (migrate log.original_universe plus_one)
    change_disavowals log.market minus_one

  abbrev pub needs_one_more : MarketRow Num → MarketRow Num
  needs_one_more m = record m { needs_migration = plus_one m.needs_migration }

  abbrev pub is_other_market : ℕ → ℕ → MarketRow Num → Bool
  is_other_market universe market_id m = m.universe == universe && not (m.market_id == market_id)

  unfoldable pub flag_markets_needing_migration : ℕ → ℕ → Action Num (Unit {0})
  flag_markets_needing_migration finalized_market_id universe = do
    row ← gets (λ db. first_where (is_market finalized_market_id) db.markets)
    market ← or_throw row market_not_found
    (if market.forking == 1
        then change_markets (is_other_market universe finalized_market_id) needs_one_more
        else pure tt)

  abbrev pub set_finalization : Option ℕ → MarketRow Num → MarketRow Num
  set_finalization block_number m = record m { finalization_block_number = block_number }

  abbrev pub clear_migration : MarketRow Num → MarketRow Num
  clear_migration m = record m { needs_migration = pos 0 }

  -- The values of the payout's columns, from an outcome on.
  unfoldable pub outcome_rows :
      FormattedEventLog Num → ℕ → Num → Num → ℕ → List (Option Num) → List (OutcomeValueRow Num)
  outcome_rows log timestamp tick_size min_price outcome [] = []
  outcome_rows log timestamp tick_size min_price outcome (none ∷ columns) =
      outcome_rows log timestamp tick_size min_price (outcome + 1) columns
  outcome_rows log timestamp tick_size min_price outcome (some v ∷ columns) =
      record {
        market_id = log.market;
        transaction_hash = log.transaction_hash;
        block_number = log.block_number;
        log_index = log.log_index;
        outcome = outcome;
        value = plus (multiplied_by v tick_size) min_price;
        timestamp = timestamp;
      }
      ∷ outcome_rows log timestamp tick_size min_price (outcome + 1) columns

  abbrev pub current_time : Action Num ℕ
  current_time w = (ok (get_current_time w), w)

  -- The market's first payout, joined with the market.
  unfoldable pub update_outcome_values_from_finalization :
      OrderNumbers Num → FormattedEventLog Num → Action Num (Unit {0})
  update_outcome_values_from_finalization on log = do
    payout_row ← gets (λ db. first_where (λ p. p.market_id == log.market) db.payouts)
    payout ← or_throw payout_row payout_not_found
    market_row ← gets (λ db. first_where (is_market log.market) db.markets)
    market ← or_throw market_row payout_not_found
    timestamp ← current_time
    modify (λ db. record db {
      outcome_values =
          db.outcome_values
          ++ outcome_rows log timestamp
              (num_ticks_to_tick_size bn on market.num_ticks market.min_price market.max_price)
              market.min_price 0 payout.payout;
    })

  unfoldable pub remove_outcome_value : ℕ → Action Num (Unit {0})
  remove_outcome_value transaction_hash = modify (λ db. record db {
    outcome_values = delete_where (λ r. r.transaction_hash == transaction_hash) db.outcome_values;
  })

  abbrev pub named_category : Option ℕ → List (CategoryRow Num) → Option (CategoryRow Num)
  named_category none rows = none
  named_category (some category) rows = first_where (in_category category) rows

  abbrev pub set_non_finalized : Num → CategoryRow Num → CategoryRow Num
  set_non_finalized n r = record r { non_finalized_open_interest = n }

  -- `marketFinalizedHelper` and the update by the two callers; the category of a market, if it has
  -- none, is not found.
  unfoldable pub change_non_finalized : (Num → Num → Num) → ℕ → Action Num (Unit {0})
  change_non_finalized f market_id = do
    market_row ← gets (λ db. first_where (is_market market_id) db.markets)
    market ← or_throw market_row market_not_found
    category_row ← gets (λ db. named_category market.category db.categories)
    category ← or_throw category_row category_not_found
    modify (λ db. record db {
      categories =
          update_where (in_category category.category)
            (set_non_finalized (f category.non_finalized_open_interest market.open_interest))
            db.categories;
    })

  unfoldable pub update_category_aggregations_on_market_finalized : ℕ → Action Num (Unit {0})
  update_category_aggregations_on_market_finalized market_id = change_non_finalized minus market_id

  unfoldable pub update_category_aggregations_on_market_finalized_rollback :
      ℕ → Action Num (Unit {0})
  update_category_aggregations_on_market_finalized_rollback market_id =
      change_non_finalized plus market_id

  unfoldable pub process_market_finalized_log :
      OrderNumbers Num → Chain Num → FormattedEventLog Num → Action Num (Unit {0})
  process_market_finalized_log on chain log = do
    update_market_state log.market log.block_number finalized
    change_markets (is_market log.market) (set_finalization (some log.block_number))
    flag_markets_needing_migration log.market log.universe
    refresh_market_mailbox_eth_balance chain log.market
    update_outcome_values_from_finalization on log
    update_category_aggregations_on_market_finalized log.market

  unfoldable pub process_market_finalized_log_removal :
      Chain Num → FormattedEventLog Num → Action Num (Unit {0})
  process_market_finalized_log_removal chain log = do
    rollback_market_state log.market finalized
    change_markets (is_market log.market) (set_finalization none)
    change_markets (λ m. m.universe == log.universe) clear_migration
    refresh_market_mailbox_eth_balance chain log.market
    remove_outcome_value log.transaction_hash
    update_category_aggregations_on_market_finalized_rollback log.market
