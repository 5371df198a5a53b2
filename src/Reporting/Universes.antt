-- ===== src/Reporting/Universes.antt =====
-- Universes and their fee windows (src/blockchain/log-processors/universe-created.ts,
-- universe-forked.ts, fee-window-created.ts, fee-window-redeemed.ts).
use augur_node.Prelude.{ℕ, Bool, true, false, ◌&&◌, ◌||◌, not, Option, none, some, List, map, ◌==◌}
use augur_node.Prelude.Int.{pos, ◌+ℤ◌, ◌-ℤ◌}
use augur_node.Prelude.Tables.{
  select_where, first_where, update_where, delete_where, insert_row, count_where,
}
use augur_node.BigNumber.{BigNumber}
use augur_node.Database.{
  Action, Db, MarketRow, UniverseRow, FeeWindowRow, PayoutRow, RedeemedRow, TokenRow, TokenSymbol,
  rep, participation_token, fee_token, future, awaiting_finalization, crowdsourcing_dispute,
  awaiting_next_window, awaiting_fork_migration, forking, gets, or_throw, modify, emit, ◌>>=◌, ◌>>◌,
  log_event, market_state_event, universe_created, fee_window_created, fee_window_redeemed,
  forking_market_not_found,
}
use augur_node.MarketStates.{is_market, is_among, update_market_state}
use augur_node.Blocks.{has_state, each, get_current_time, advance_fee_window_active}
use augur_node.Reporting.{FormattedEventLog, Chain, insert_payout}

abbrev pub set_forked : Bool → UniverseRow → UniverseRow
set_forked forked u = record u { forked = forked }

abbrev pub token_row : ℕ → Option ℕ → TokenSymbol → TokenRow
token_row contract_address fee_window symbol = record {
  contract_address = contract_address;
  market_id = none;
  outcome = 0;
  fee_window = fee_window;
  symbol = symbol;
}

abbrev pub is_of_window : ℕ → TokenRow → Bool
is_of_window fee_window t =
    t.contract_address == fee_window
    || elim t.fee_window [ none ↦ false | some a ↦ a == fee_window ]

module _ {N : Type 0} where
  abbrev pub change_markets :
      (MarketRow N → Bool) → (MarketRow N → MarketRow N) → Action N (Unit {0})
  change_markets p f = modify (λ db. record db { markets = update_where p f db.markets })

  abbrev pub change_universes :
      (UniverseRow → Bool) → (UniverseRow → UniverseRow) → Action N (Unit {0})
  change_universes p f = modify (λ db. record db { universes = update_where p f db.universes })

  abbrev pub set_forking : ℕ → MarketRow N → MarketRow N
  set_forking n m = record m { forking = n }

  abbrev pub add_disavowal : MarketRow N → MarketRow N
  add_disavowal m = record m { needs_disavowal = m.needs_disavowal +ℤ pos 1 }

  abbrev pub drop_disavowal : MarketRow N → MarketRow N
  drop_disavowal m = record m { needs_disavowal = m.needs_disavowal -ℤ pos 1 }

  abbrev pub rounds : Option ℕ → MarketRow N → MarketRow N
  rounds n m = record m { dispute_rounds = n }

  -- The other markets of the universe.
  abbrev pub is_other : ℕ → ℕ → MarketRow N → Bool
  is_other universe forking_market m = m.universe == universe && not (m.market_id == forking_market)

  -- The states that a fork takes back.
  abbrev pub is_reverted : ℕ → Db N → MarketRow N → Bool
  is_reverted universe db m =
      m.universe == universe
      && (has_state awaiting_finalization db.market_states m
          || (has_state crowdsourcing_dispute db.market_states m
              || has_state awaiting_next_window db.market_states m))

  abbrev pub clear_payout : PayoutRow N → PayoutRow N
  clear_payout p = record p { winning = none; tentative_winning = 0 }

  -- A payout that an initial report names.
  abbrev pub set_tentative : PayoutRow N → PayoutRow N
  set_tentative p = record p { tentative_winning = 1 }

  -- An update that Knex builds has no join, so the second update of the payouts takes all of the
  -- market's.
  unfoldable pub revert_market : ℕ → ℕ → ℕ → Action N (Unit {0})
  revert_market universe block_number market_id = do
    update_market_state market_id block_number awaiting_fork_migration
    emit (market_state_event universe market_id awaiting_fork_migration)
    modify (λ db. record db {
      payouts = update_where (λ p. p.market_id == market_id) clear_payout db.payouts;
    })
    modify (λ db. record db {
      payouts = update_where (λ p. p.market_id == market_id) set_tentative db.payouts;
    })

  abbrev pub has_report : Db N → MarketRow N → Bool
  has_report db m = not (count_where (λ r. r.market_id == m.market_id) db.initial_reports == 0)

  abbrev pub ids_of : List (MarketRow N) → List ℕ
  ids_of markets = map (λ m. m.market_id) markets

  unfoldable pub uncomplete_nonforking_crowdsourcers : ℕ → ℕ → Action N (Unit {0})
  uncomplete_nonforking_crowdsourcers universe forking_market = do
    modify (λ db. record db {
      crowdsourcers =
          update_where
            (λ c.
              is_among c.market_id
                (ids_of (select_where (is_other universe forking_market) db.markets)))
            (λ c. record c { completed = some false }) db.crowdsourcers;
    })
    change_markets (is_other universe forking_market) (rounds none)
    modify (λ db. record db {
      markets =
          update_where (λ m. is_other universe forking_market m && has_report db m)
            (rounds (some 0)) db.markets;
    })

  unfoldable pub process_universe_forked_log : Chain N → FormattedEventLog N → Action N (Unit {0})
  process_universe_forked_log chain log = do
    forking_market ← or_throw (chain.forking_market log.universe) forking_market_not_found
    change_markets (is_market forking_market) (set_forking 1)
    update_market_state forking_market log.block_number forking
    emit (market_state_event log.universe forking_market forking)
    change_markets (is_other log.universe forking_market) add_disavowal
    change_universes (λ u. u.universe == log.universe) (set_forked true)
    markets_to_revert ← gets (λ db. ids_of (select_where (is_reverted log.universe db) db.markets))
    each markets_to_revert (revert_market log.universe log.block_number)
    uncomplete_nonforking_crowdsourcers log.universe forking_market

  unfoldable pub process_universe_forked_log_removal : FormattedEventLog N → Action N (Unit {0})
  process_universe_forked_log_removal log = do
    row ← gets (λ db. first_where (λ m. m.forking == 1 && m.universe == log.universe) db.markets)
    market ← or_throw row forking_market_not_found
    change_markets (is_market market.market_id) (set_forking 0)
    emit (market_state_event log.universe market.market_id crowdsourcing_dispute)
    change_markets (is_other log.universe market.market_id) drop_disavowal
    change_universes (λ u. u.universe == log.universe) (set_forked false)

  abbrev pub window_row : Chain N → FormattedEventLog N → FeeWindowRow
  window_row chain log = record {
    fee_window = log.fee_window;
    universe = log.universe;
    start_time = log.start_time;
    end_time = log.end_time;
    state = future;
    fee_token = chain.fee_token log.fee_window;
  }

  unfoldable pub process_fee_window_created_log :
      Chain N → FormattedEventLog N → Action N (Unit {0})
  process_fee_window_created_log chain log = do
    emit (log_event fee_window_created log.transaction_hash log.log_index)
    modify (λ db. record db { fee_windows = insert_row (window_row chain log) db.fee_windows })
    modify (λ db. record db {
      tokens =
          insert_row (token_row (chain.fee_token log.fee_window) (some log.fee_window) fee_token)
            (insert_row (token_row log.fee_window none participation_token) db.tokens);
    })
    (λ w. advance_fee_window_active log.block_number (get_current_time w) w)

  unfoldable pub process_fee_window_created_log_removal : FormattedEventLog N → Action N (Unit {0})
  process_fee_window_created_log_removal log = do
    emit (log_event fee_window_created log.transaction_hash log.log_index)
    modify (λ db. record db {
      fee_windows = delete_where (λ r. r.fee_window == log.fee_window) db.fee_windows;
    })
    modify (λ db. record db { tokens = delete_where (is_of_window log.fee_window) db.tokens })

  abbrev pub participation_redeemed_row : FormattedEventLog N → RedeemedRow N
  participation_redeemed_row log = record {
    reporter = log.reporter;
    redeemed_from = log.fee_window;
    amount_redeemed = log.amount_redeemed;
    rep_received = none;
    reporting_fees_received = log.reporting_fees_received;
    block_number = log.block_number;
    transaction_hash = log.transaction_hash;
    log_index = log.log_index;
  }

  unfoldable pub process_fee_window_redeemed_log : FormattedEventLog N → Action N (Unit {0})
  process_fee_window_redeemed_log log = do
    modify (λ db. record db {
      participation_token_redeemed =
          insert_row (participation_redeemed_row log) db.participation_token_redeemed;
    })
    emit (log_event fee_window_redeemed log.transaction_hash log.log_index)

  unfoldable pub process_fee_window_redeemed_log_removal : FormattedEventLog N → Action N (Unit {0})
  process_fee_window_redeemed_log_removal log = do
    modify (λ db. record db {
      participation_token_redeemed =
          delete_where
            (λ r. r.transaction_hash == log.transaction_hash && r.log_index == log.log_index)
            db.participation_token_redeemed;
    })
    emit (log_event fee_window_redeemed log.transaction_hash log.log_index)

module _ (bn : BigNumber) where
  open bn use {Num}

  unfoldable pub process_universe_created_log :
      Chain Num → FormattedEventLog Num → Action Num (Unit {0})
  process_universe_created_log chain log = do
    payout_id ← insert_payout bn log.child_universe log.payout_numerators log.invalid true
    modify (λ db. record db {
      universes =
          insert_row
            (record {
              universe = log.child_universe;
              parent_universe = some log.parent_universe;
              payout_id = payout_id;
              reputation_token = chain.reputation_token log.child_universe;
              forked = false;
            })
            db.universes;
    })
    emit (log_event universe_created log.transaction_hash log.log_index)
    modify (λ db. record db {
      tokens =
          insert_row (token_row (chain.reputation_token log.child_universe) none rep) db.tokens;
    })

  unfoldable pub process_universe_created_log_removal :
      FormattedEventLog Num → Action Num (Unit {0})
  process_universe_created_log_removal log = do
    modify (λ db. record db {
      universes = delete_where (λ u. u.universe == log.child_universe) db.universes;
    })
    emit (log_event universe_created log.transaction_hash log.log_index)
