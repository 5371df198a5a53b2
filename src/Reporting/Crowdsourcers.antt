-- ===== src/Reporting/Crowdsourcers.antt =====
-- Dispute crowdsourcers (src/blockchain/log-processors/crowdsourcer.ts).
use augur_node.Prelude.{ℕ, Bool, true, false, ◌&&◌, not, Option, none, some, List, [], ◌∷◌, ◌==◌}
use augur_node.Prelude.Int.{pos, ◌+ℤ◌, ◌-ℤ◌}
use augur_node.Prelude.Tables.{select_where, first_where, update_where, delete_where, insert_row}
use augur_node.BigNumber.{BigNumber}
use augur_node.Database.{
  Action, CrowdsourcerRow, DisputeRow, RedeemedRow, TokenRow, crowdsourcer, awaiting_next_window,
  gets, or_throw, modify, emit, ◌>>=◌, ◌>>◌, log_event, dispute_crowdsourcer_created,
  dispute_crowdsourcer_contribution, dispute_crowdsourcer_completed,
  dispute_crowdsourcer_redeemed_log, fee_window_redeemed, fee_window_not_found,
  crowdsourcer_not_found,
}
use augur_node.MarketStates.{
  is_among, is_current_window, update_market_state, rollback_market_state,
}
use augur_node.Reporting.Stakes.{update_tentative_winning_payout}
use augur_node.Reporting.{
  FormattedEventLog, Chain, insert_payout, update_market_fee_window, update_dispute_round,
  in_market,
}

abbrev pub is_incomplete_row : {N : Type 0} → CrowdsourcerRow N → Bool
is_incomplete_row c = elim c.completed [ none ↦ true | some b ↦ false ]

-- `completed = 0`
abbrev pub is_failed : {N : Type 0} → CrowdsourcerRow N → Bool
is_failed c = elim c.completed [ none ↦ false | some b ↦ not b ]

module _ (bn : BigNumber) where
  open bn use {Num, plus, minus, zero_bn}

  abbrev pub fail_row : CrowdsourcerRow Num → CrowdsourcerRow Num
  fail_row c = record c { completed = some false; disavowed = c.disavowed +ℤ pos 1 }

  abbrev pub revive_row : CrowdsourcerRow Num → CrowdsourcerRow Num
  revive_row c = record c { completed = none; disavowed = c.disavowed -ℤ pos 1 }

  abbrev pub set_completed : Option Bool → CrowdsourcerRow Num → CrowdsourcerRow Num
  set_completed completed c = record c { completed = completed }

  abbrev pub is_crowdsourcer : ℕ → CrowdsourcerRow Num → Bool
  is_crowdsourcer id c = c.crowdsourcer_id == id

  abbrev pub change_crowdsourcers :
      (CrowdsourcerRow Num → Bool)
      → (CrowdsourcerRow Num → CrowdsourcerRow Num)
      → Action Num (Unit {0})
  change_crowdsourcers p f =
      modify (λ db. record db { crowdsourcers = update_where p f db.crowdsourcers })

  unfoldable pub update_incomplete_crowdsourcers : ℕ → Action Num (Unit {0})
  update_incomplete_crowdsourcers market_id =
      change_crowdsourcers (λ c. in_market market_id c && is_incomplete_row c) fail_row

  unfoldable pub rollback_incomplete_crowdsourcers : ℕ → Action Num (Unit {0})
  rollback_incomplete_crowdsourcers market_id =
      change_crowdsourcers (λ c. in_market market_id c && is_failed c) revive_row

  unfoldable pub windows_of : List (CrowdsourcerRow Num) → List ℕ
  windows_of [] = []
  windows_of (c ∷ rest) = c.fee_window ∷ windows_of rest

  abbrev pub is_in_windows : ℕ → List ℕ → CrowdsourcerRow Num → Bool
  is_in_windows market_id windows c = in_market market_id c && is_among c.fee_window windows

  unfoldable pub rollback_crowdsourcer_completion : ℕ → ℕ → Action Num (Unit {0})
  rollback_crowdsourcer_completion crowdsourcer_id market_id = do
    windows ←
        gets (λ db. windows_of (select_where (is_crowdsourcer crowdsourcer_id) db.crowdsourcers))
    change_crowdsourcers (is_in_windows market_id windows) (set_completed none)

  abbrev pub crowdsourcer_row : FormattedEventLog Num → ℕ → ℕ → CrowdsourcerRow Num
  crowdsourcer_row log fee_window payout_id = record {
    crowdsourcer_id = log.dispute_crowdsourcer;
    market_id = log.market;
    fee_window = fee_window;
    size = log.size;
    payout_id = payout_id;
    completed = none;
    disavowed = pos 0;
    amount_staked = zero_bn;
    block_number = log.block_number;
    transaction_hash = log.transaction_hash;
    log_index = log.log_index;
  }

  abbrev pub crowdsourcer_token : FormattedEventLog Num → TokenRow
  crowdsourcer_token log = record {
    contract_address = log.dispute_crowdsourcer;
    market_id = some log.market;
    outcome = 0;
    fee_window = none;
    symbol = crowdsourcer;
  }

  unfoldable pub process_dispute_crowdsourcer_created_log :
      FormattedEventLog Num → Action Num (Unit {0})
  process_dispute_crowdsourcer_created_log log = do
    payout_id ← insert_payout bn log.market log.payout_numerators log.invalid false
    row ← gets (λ db.
        first_where (λ r. is_current_window r.state && r.universe == log.universe) db.fee_windows)
    window ← or_throw row fee_window_not_found
    modify (λ db. record db {
      crowdsourcers =
          insert_row (crowdsourcer_row log window.fee_window payout_id) db.crowdsourcers;
    })
    emit (log_event dispute_crowdsourcer_created log.transaction_hash log.log_index)
    modify (λ db. record db { tokens = insert_row (crowdsourcer_token log) db.tokens })

  unfoldable pub process_dispute_crowdsourcer_created_log_removal :
      FormattedEventLog Num → Action Num (Unit {0})
  process_dispute_crowdsourcer_created_log_removal log = do
    modify (λ db. record db {
      crowdsourcers = delete_where (is_crowdsourcer log.dispute_crowdsourcer) db.crowdsourcers;
    })
    emit (log_event dispute_crowdsourcer_created log.transaction_hash log.log_index)
    modify (λ db. record db {
      tokens = delete_where (λ r. r.contract_address == log.dispute_crowdsourcer) db.tokens;
    })

  abbrev pub dispute_row : FormattedEventLog Num → DisputeRow Num
  dispute_row log = record {
    crowdsourcer_id = log.dispute_crowdsourcer;
    reporter = log.reporter;
    amount_staked = log.amount_staked;
    block_number = log.block_number;
    transaction_hash = log.transaction_hash;
    log_index = log.log_index;
  }

  abbrev pub is_dispute : FormattedEventLog Num → DisputeRow Num → Bool
  is_dispute log d = d.transaction_hash == log.transaction_hash && d.log_index == log.log_index

  abbrev pub set_amount_staked : Num → CrowdsourcerRow Num → CrowdsourcerRow Num
  set_amount_staked amount c = record c { amount_staked = amount }

  -- Reading the stake of a crowdsourcer and writing it changed.
  unfoldable pub change_stake : (Num → Num) → ℕ → Action Num (Unit {0})
  change_stake f id = do
    row ← gets (λ db. first_where (is_crowdsourcer id) db.crowdsourcers)
    result ← or_throw row crowdsourcer_not_found
    change_crowdsourcers (is_crowdsourcer id) (set_amount_staked (f result.amount_staked))

  unfoldable pub process_dispute_crowdsourcer_contribution_log :
      FormattedEventLog Num → Action Num (Unit {0})
  process_dispute_crowdsourcer_contribution_log log = do
    modify (λ db. record db { disputes = insert_row (dispute_row log) db.disputes })
    change_stake (λ staked. plus staked log.amount_staked) log.dispute_crowdsourcer
    emit (log_event dispute_crowdsourcer_contribution log.transaction_hash log.log_index)

  unfoldable pub process_dispute_crowdsourcer_contribution_log_removal :
      FormattedEventLog Num → Action Num (Unit {0})
  process_dispute_crowdsourcer_contribution_log_removal log = do
    modify (λ db. record db { disputes = delete_where (is_dispute log) db.disputes })
    change_stake (λ staked. minus staked log.amount_staked) log.dispute_crowdsourcer
    emit (log_event dispute_crowdsourcer_contribution log.transaction_hash log.log_index)

  unfoldable pub process_dispute_crowdsourcer_completed_log :
      Chain Num → FormattedEventLog Num → Action Num (Unit {0})
  process_dispute_crowdsourcer_completed_log chain log = do
    change_crowdsourcers (is_crowdsourcer log.dispute_crowdsourcer) (set_completed (some true))
    update_market_state log.market log.block_number awaiting_next_window
    update_dispute_round log.market
    update_market_fee_window chain log.universe log.market true
    update_incomplete_crowdsourcers log.market
    update_tentative_winning_payout bn log.market
    emit (log_event dispute_crowdsourcer_completed log.transaction_hash log.log_index)

  unfoldable pub process_dispute_crowdsourcer_completed_log_removal :
      Chain Num → FormattedEventLog Num → Action Num (Unit {0})
  process_dispute_crowdsourcer_completed_log_removal chain log = do
    rollback_crowdsourcer_completion log.dispute_crowdsourcer log.market
    rollback_market_state log.market awaiting_next_window
    update_dispute_round log.market
    update_market_fee_window chain log.universe log.market false
    rollback_incomplete_crowdsourcers log.market
    update_tentative_winning_payout bn log.market
    emit (log_event dispute_crowdsourcer_completed log.transaction_hash log.log_index)

  abbrev pub redeemed_row : FormattedEventLog Num → RedeemedRow Num
  redeemed_row log = record {
    reporter = log.reporter;
    redeemed_from = log.dispute_crowdsourcer;
    amount_redeemed = log.amount_redeemed;
    rep_received = some log.rep_received;
    reporting_fees_received = log.reporting_fees_received;
    block_number = log.block_number;
    transaction_hash = log.transaction_hash;
    log_index = log.log_index;
  }

  abbrev pub is_redeemed : FormattedEventLog Num → RedeemedRow Num → Bool
  is_redeemed log r = r.transaction_hash == log.transaction_hash && r.log_index == log.log_index

  unfoldable pub process_dispute_crowdsourcer_redeemed_log :
      FormattedEventLog Num → Action Num (Unit {0})
  process_dispute_crowdsourcer_redeemed_log log = do
    modify (λ db. record db {
      crowdsourcer_redeemed = insert_row (redeemed_row log) db.crowdsourcer_redeemed;
    })
    emit (log_event dispute_crowdsourcer_redeemed_log log.transaction_hash log.log_index)

  unfoldable pub process_dispute_crowdsourcer_redeemed_log_removal :
      FormattedEventLog Num → Action Num (Unit {0})
  process_dispute_crowdsourcer_redeemed_log_removal log = do
    modify (λ db. record db {
      crowdsourcer_redeemed = delete_where (is_redeemed log) db.crowdsourcer_redeemed;
    })
    emit (log_event fee_window_redeemed log.transaction_hash log.log_index)
