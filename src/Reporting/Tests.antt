-- ===== src/Reporting/Tests.antt =====
-- Reporting at concrete tables.
use augur_node.Prelude.{
  ℕ, ◌≡◌, refl, arith, Bool, true, false, Option, none, some, [], ◌∷◌, ◌==◌, ok, err,
}
use augur_node.Prelude.Int.{ℤ, pos}
use augur_node.Prelude.Tables.{first_where, update_where, insert_row, count_where}
use augur_node.BigNumber.{integers}
use augur_node.Database.{
  World, empty_db, PayoutRow, CrowdsourcerRow, InitialReportRow, open_reporting, ◌>>◌, log_event,
  dispute_crowdsourcer_contribution, market_state_not_current,
}
use augur_node.MarketStates.{
  update_market_state, set_market_state_to_latest, query_current_market_state_id,
}
use augur_node.MarketStates.History.{IsNumbered}
use augur_node.Reporting.{
  insert_payout, update_market_fee_window, get_fee_window, update_dispute_round,
  refresh_market_mailbox_eth_balance,
}
use augur_node.Reporting.InitialReports.{
  set_initial_report_size, process_initial_report_submitted_log,
  process_initial_report_submitted_log_removal,
}
use augur_node.Reporting.Crowdsourcers.{
  is_crowdsourcer, is_dispute, process_dispute_crowdsourcer_contribution_log,
  process_dispute_crowdsourcer_contribution_log_removal,
}
use augur_node.Reporting.Stakes.{market_stakes, update_tentative_winning_payout}
use augur_node.Reporting.MostStaked.{IsChosen, update_tentative_winning_payout_lem}
use augur_node.Reporting.Submitted.{initial_report_removed}
use augur_node.Reporting.Contributions.{contribution_withdrawn}
use augur_node.Reporting.Samples.{chain, log_in, market_five}

abbrev payout_of : ℕ → ℕ → PayoutRow ℤ
payout_of payout_id market_id = record {
  payout_id = payout_id;
  market_id = market_id;
  is_invalid = false;
  payout = [];
  tentative_winning = 1;
  winning = none;
}

abbrev crowdsourcer_of : ℕ → ℕ → Option Bool → ℤ → CrowdsourcerRow ℤ
crowdsourcer_of crowdsourcer_id payout_id completed amount = record {
  crowdsourcer_id = crowdsourcer_id;
  market_id = 5;
  fee_window = 70;
  size = amount;
  payout_id = payout_id;
  completed = completed;
  disavowed = pos 0;
  amount_staked = amount;
  block_number = 100;
  transaction_hash = 71;
  log_index = crowdsourcer_id;
}

abbrev report_of_five : InitialReportRow ℤ
report_of_five = record {
  market_id = 5;
  initial_reporter = 72;
  reporter = 73;
  is_designated_reporter = true;
  amount_staked = pos 3;
  payout_id = 1;
  redeemed = false;
  disavowed = 0;
  block_number = 99;
  transaction_hash = 74;
  log_index = 0;
}

-- A report on payout 1, a completed crowdsourcer on payout 2 and one that is not.
abbrev disputed : World ℤ
disputed = record {
  db = record (empty_db) {
    payouts = payout_of 1 5 ∷ payout_of 2 5 ∷ payout_of 3 6 ∷ [];
    crowdsourcers =
        crowdsourcer_of 80 2 (some true) (pos 7) ∷ crowdsourcer_of 81 1 none (pos 9) ∷ [];
    initial_reports = report_of_five ∷ [];
  };
  emitted = [];
  override_timestamps = [];
  block_head_timestamp = 10;
}

update_tentative_winning_payout_lem_example :
    IsChosen integers 5
      (market_stakes integers 5 disputed.db)
      disputed.db.payouts
      (update_tentative_winning_payout integers 5 disputed).1.db.payouts
update_tentative_winning_payout_lem_example =
    update_tentative_winning_payout_lem integers 5 disputed

-- Market 5 is in open reporting, and its universe has forked.
abbrev forked_world : World ℤ
forked_world = record {
  db = record (empty_db) {
    markets = market_five ∷ [];
    market_states =
        record {
          market_state_id = 1;
          market_id = 5;
          reporting_state = open_reporting;
          block_number = 90;
        }
        ∷ [];
    next_market_state_id = 2;
    universes =
        record {
          universe = 1;
          parent_universe = none;
          payout_id = 1;
          reputation_token = 41;
          forked = true;
        }
        ∷ [];
  };
  emitted = [];
  override_timestamps = [];
  block_head_timestamp = 10;
}

abbrev submitted_world : World ℤ
submitted_world = (process_initial_report_submitted_log integers chain (log_in 100) forked_world).1

submitted_returns :
    process_initial_report_submitted_log integers chain (log_in 100) forked_world
    ≡ (ok tt, submitted_world)
unfolding process_initial_report_submitted_log update_market_state set_market_state_to_latest
    query_current_market_state_id insert_payout set_initial_report_size update_market_fee_window
    get_fee_window update_dispute_round refresh_market_mailbox_eth_balance first_where update_where
    insert_row count_where
submitted_returns = refl

forked_world-IsNumbered : IsNumbered 2 forked_world.db.market_states
unfolding IsNumbered
forked_world-IsNumbered = (omega arith, tt)

found_universe :
    first_where (λ r. r.universe == 1) forked_world.db.universes
    ≡ some (record {
      universe = 1;
      parent_universe = none;
      payout_id = 1;
      reputation_token = 41;
      forked = true;
    })
unfolding first_where
found_universe = refl

initial_report_removed_example :
    (true ≡ false
      → (process_initial_report_submitted_log_removal integers chain
          (log_in 100)
          submitted_world).1.db.market_states
        ≡ forked_world.db.market_states)
    × (true ≡ true
        → (process_initial_report_submitted_log_removal integers chain
            (log_in 100)
            submitted_world).0
          ≡ err market_state_not_current)
initial_report_removed_example =
    initial_report_removed integers chain (log_in 100) forked_world submitted_world
      (record {
        universe = 1;
        parent_universe = none;
        payout_id = 1;
        reputation_token = 41;
        forked = true;
      })
      found_universe forked_world-IsNumbered submitted_returns

-- Crowdsourcer 71 of the log.
abbrev open_world : World ℤ
open_world = record (disputed) {
  db = record (disputed.db) { crowdsourcers = crowdsourcer_of 71 2 none (pos 7) ∷ [] };
}

only_crowdsourcer :
    (first_where (is_crowdsourcer integers 71) open_world.db.crowdsourcers
      ≡ some (crowdsourcer_of 71 2 none (pos 7)))
    × (count_where (is_crowdsourcer integers 71) open_world.db.crowdsourcers ≡ 1)
    × (count_where (is_dispute integers (log_in 100)) open_world.db.disputes ≡ 0)
unfolding first_where count_where
only_crowdsourcer = (refl, refl, refl)

contribution_withdrawn_example :
    (process_dispute_crowdsourcer_contribution_log integers (log_in 100)
        >> process_dispute_crowdsourcer_contribution_log_removal integers (log_in 100))
      open_world
    ≡ (
      ok tt,
      record (open_world) {
        emitted =
            log_event dispute_crowdsourcer_contribution 70 0
            ∷ log_event dispute_crowdsourcer_contribution 70 0
            ∷ [];
      },
    )
contribution_withdrawn_example =
    contribution_withdrawn integers (log_in 100) open_world (crowdsourcer_of 71 2 none (pos 7))
      only_crowdsourcer.0 only_crowdsourcer.1 only_crowdsourcer.2
