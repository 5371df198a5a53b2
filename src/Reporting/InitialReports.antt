-- ===== src/Reporting/InitialReports.antt =====
-- Initial reports (src/blockchain/log-processors/initial-report-submitted.ts,
-- initial-report-redeemed.ts, initial-report-transferred.ts).
use augur_node.Prelude.{ℕ, Bool, true, false, Option, none, some, ◌==◌, if◌then◌else◌}
use augur_node.Prelude.Tables.{first_where, update_where, delete_where, insert_row}
use augur_node.BigNumber.{BigNumber}
use augur_node.Database.{
  Action, MarketRow, InitialReportRow, UniverseRow, ReportingState, awaiting_next_window,
  awaiting_fork_migration, gets, or_throw, modify, emit, ◌>>=◌, ◌>>◌, log_event,
  initial_report_submitted, initial_reporter_redeemed, initial_reporter_transferred,
  universe_not_found,
}
use augur_node.MarketStates.{is_market, update_market_state, rollback_market_state}
use augur_node.Reporting.{
  FormattedEventLog, Chain, insert_payout, update_market_fee_window, update_dispute_round,
  refresh_market_mailbox_eth_balance,
}

abbrev pub report_of : {N : Type 0} → ℕ → InitialReportRow N → Bool
report_of market_id r = r.market_id == market_id

abbrev pub set_report_size : {N : Type 0} → Option N → MarketRow N → MarketRow N
set_report_size size r = record r { initial_report_size = size }

-- The state after a report, by whether the universe has forked.
abbrev pub state_after : Bool → ReportingState
state_after forked = if forked then awaiting_fork_migration else awaiting_next_window

module _ (bn : BigNumber) where
  open bn use {Num}

  abbrev pub report_row : FormattedEventLog Num → ℕ → ℕ → InitialReportRow Num
  report_row log initial_reporter payout_id = record {
    market_id = log.market;
    initial_reporter = initial_reporter;
    reporter = log.reporter;
    is_designated_reporter = log.is_designated_reporter;
    amount_staked = log.amount_staked;
    payout_id = payout_id;
    redeemed = false;
    disavowed = 0;
    block_number = log.block_number;
    transaction_hash = log.transaction_hash;
    log_index = log.log_index;
  }

  unfoldable pub set_initial_report_size : ℕ → Option Num → Action Num (Unit {0})
  set_initial_report_size market_id size = modify (λ db. record db {
    markets = update_where (is_market market_id) (set_report_size size) db.markets;
  })

  abbrev pub insert_report : InitialReportRow Num → Action Num (Unit {0})
  insert_report r = modify (λ db. record db { initial_reports = insert_row r db.initial_reports })

  abbrev pub delete_reports : ℕ → Action Num (Unit {0})
  delete_reports market_id =
      modify (λ db. record db {
        initial_reports = delete_where (report_of market_id) db.initial_reports;
      })

  -- What follows the state of the market and the payout.
  abbrev pub add_report : Chain Num → FormattedEventLog Num → ℕ → Action Num (Unit {0})
  add_report chain log payout_id = do
    insert_report (report_row log (chain.initial_reporter log.market) payout_id)
    set_initial_report_size log.market (some log.amount_staked)
    update_market_fee_window chain log.universe log.market true
    update_dispute_round log.market
    refresh_market_mailbox_eth_balance chain log.market
    emit (log_event initial_report_submitted log.transaction_hash log.log_index)

  -- What follows the look at the universe.
  abbrev pub submit_report : Chain Num → FormattedEventLog Num → UniverseRow → Action Num (Unit {0})
  submit_report chain log universe = do
    update_market_state log.market log.block_number (state_after universe.forked)
    payout_id ← insert_payout bn log.market log.payout_numerators log.invalid true
    add_report chain log payout_id

  unfoldable pub process_initial_report_submitted_log :
      Chain Num → FormattedEventLog Num → Action Num (Unit {0})
  process_initial_report_submitted_log chain log = do
    row ← gets (λ db. first_where (λ u. u.universe == log.universe) db.universes)
    universe ← or_throw row universe_not_found
    submit_report chain log universe

  unfoldable pub process_initial_report_submitted_log_removal :
      Chain Num → FormattedEventLog Num → Action Num (Unit {0})
  process_initial_report_submitted_log_removal chain log = do
    rollback_market_state log.market awaiting_next_window
    delete_reports log.market
    set_initial_report_size log.market none
    update_market_fee_window chain log.universe log.market false
    refresh_market_mailbox_eth_balance chain log.market
    emit (log_event initial_report_submitted log.transaction_hash log.log_index)

  abbrev pub update_report :
      ℕ → (InitialReportRow Num → InitialReportRow Num) → Action Num (Unit {0})
  update_report market_id f = modify (λ db. record db {
    initial_reports = update_where (report_of market_id) f db.initial_reports;
  })

  abbrev pub set_redeemed : Bool → InitialReportRow Num → InitialReportRow Num
  set_redeemed redeemed r = record r { redeemed = redeemed }

  unfoldable pub process_initial_reporter_redeemed_log :
      FormattedEventLog Num → Action Num (Unit {0})
  process_initial_reporter_redeemed_log log = do
    update_report log.market (set_redeemed true)
    emit (log_event initial_reporter_redeemed log.transaction_hash log.log_index)

  unfoldable pub process_initial_reporter_redeemed_log_removal :
      FormattedEventLog Num → Action Num (Unit {0})
  process_initial_reporter_redeemed_log_removal log = do
    update_report log.market (set_redeemed false)
    emit (log_event initial_reporter_redeemed log.transaction_hash log.log_index)

  abbrev pub set_reporter : ℕ → InitialReportRow Num → InitialReportRow Num
  set_reporter reporter r = record r { reporter = reporter }

  unfoldable pub process_initial_reporter_transferred_log :
      FormattedEventLog Num → Action Num (Unit {0})
  process_initial_reporter_transferred_log log = do
    update_report log.market (set_reporter log.to_address)
    emit (log_event initial_reporter_transferred log.transaction_hash log.log_index)

  unfoldable pub process_initial_reporter_transferred_log_removal :
      FormattedEventLog Num → Action Num (Unit {0})
  process_initial_reporter_transferred_log_removal log = do
    update_report log.market (set_reporter log.from_address)
    emit (log_event initial_reporter_transferred log.transaction_hash log.log_index)
