-- ===== src/Reporting/LogsKeep.antt =====
-- Crowdsourcers, universes, migration, disavowal and the end of markets keep every market naming the
-- latest state of its history.
use augur_node.Prelude.{ℕ, true, false, ◌&&◌, some, [], ◌∷◌, ◌==◌}
use augur_node.Prelude.Tables.{first_where, insert_row}
use augur_node.BigNumber.{BigNumber}
use augur_node.Database.{
  Action, FeeWindowRow, modify, emit, or_throw, ◌>>=◌, ◌>>◌, log_event, awaiting_next_window,
  dispute_crowdsourcer_completed, fee_window_not_found, crowdsourcer_not_found,
  dispute_crowdsourcer_created,
}
use augur_node.MarketStates.{is_current_window, update_market_state, rollback_market_state}
use augur_node.MarketStates.Keeping.{
  Keeps, Keeps-bind, Keeps-then, or_throw-Keeps, sequence-Keeps, update_market_state-Keeps,
  rollback_market_state-Keeps,
}
use augur_node.Reporting.{
  FormattedEventLog, Chain, update_market_fee_window, update_dispute_round, insert_payout,
}
use augur_node.Reporting.Stakes.{update_tentative_winning_payout}
use augur_node.Reporting.Crowdsourcers.{
  is_crowdsourcer, set_completed, set_amount_staked, change_crowdsourcers,
  update_incomplete_crowdsourcers, rollback_incomplete_crowdsourcers,
  rollback_crowdsourcer_completion, crowdsourcer_row, crowdsourcer_token, change_stake,
  process_dispute_crowdsourcer_created_log, process_dispute_crowdsourcer_created_log_removal,
  process_dispute_crowdsourcer_contribution_log,
  process_dispute_crowdsourcer_contribution_log_removal, process_dispute_crowdsourcer_completed_log,
  process_dispute_crowdsourcer_completed_log_removal, process_dispute_crowdsourcer_redeemed_log,
  process_dispute_crowdsourcer_redeemed_log_removal,
}
use augur_node.Reporting.Keeping.{fee_window-Keeps, dispute_round-Keeps, insert_payout-Keeps}

module _ (bn : BigNumber) where
  open bn use {Num, plus, minus}

  module _ (chain : Chain Num) (log : FormattedEventLog Num) where
    add_crowdsourcer : ℕ → FeeWindowRow → Action Num (Unit {0})
    add_crowdsourcer payout_id window = do
      modify (λ db. record db {
        crowdsourcers =
            insert_row (crowdsourcer_row bn log window.fee_window payout_id) db.crowdsourcers;
      })
      emit (log_event dispute_crowdsourcer_created log.transaction_hash log.log_index)
      modify (λ db. record db { tokens = insert_row (crowdsourcer_token bn log) db.tokens })

    find_window : ℕ → Action Num (Unit {0})
    find_window payout_id w =
        (or_throw
              (first_where (λ r. is_current_window r.state && r.universe == log.universe)
                w.db.fee_windows)
              fee_window_not_found
            >>= add_crowdsourcer payout_id)
          w

    pub created-Keeps : Keeps (process_dispute_crowdsourcer_created_log bn log)
    unfolding process_dispute_crowdsourcer_created_log find_window add_crowdsourcer
    created-Keeps =
        Keeps-bind (insert_payout bn log.market log.payout_numerators log.invalid false) find_window
          (insert_payout-Keeps bn log.market log.payout_numerators log.invalid false)
          (λ payout_id w v.
            Keeps-bind
              (or_throw
                (first_where (λ r. is_current_window r.state && r.universe == log.universe)
                  w.db.fee_windows)
                fee_window_not_found)
              (add_crowdsourcer payout_id) (or_throw-Keeps _ _) (λ window w' v'. v') w v)

    pub created_removal-Keeps : Keeps (process_dispute_crowdsourcer_created_log_removal bn log)
    unfolding process_dispute_crowdsourcer_created_log_removal
    created_removal-Keeps w v = v

    stake-Keeps : (f : Num → Num) (id : ℕ) → Keeps (change_stake bn f id)
    unfolding change_stake
    stake-Keeps f id w v =
        Keeps-bind
          (or_throw (first_where (is_crowdsourcer bn id) w.db.crowdsourcers) crowdsourcer_not_found)
          (λ c.
            change_crowdsourcers bn (is_crowdsourcer bn id)
              (set_amount_staked bn (f c.amount_staked)))
          (or_throw-Keeps _ _) (λ c w' v'. v') w v

    pub contribution-Keeps : Keeps (process_dispute_crowdsourcer_contribution_log bn log)
    unfolding process_dispute_crowdsourcer_contribution_log
    contribution-Keeps w v =
        Keeps-then (change_stake bn (λ s. plus s log.amount_staked) log.dispute_crowdsourcer)
          (emit _) (stake-Keeps _ _) (λ w' v'. v') _ v

    pub contribution_removal-Keeps :
        Keeps (process_dispute_crowdsourcer_contribution_log_removal bn log)
    unfolding process_dispute_crowdsourcer_contribution_log_removal
    contribution_removal-Keeps w v =
        Keeps-then (change_stake bn (λ s. minus s log.amount_staked) log.dispute_crowdsourcer)
          (emit _) (stake-Keeps _ _) (λ w' v'. v') _ v

    tentative-Keeps : Keeps (update_tentative_winning_payout bn log.market)
    unfolding update_tentative_winning_payout
    tentative-Keeps w v = v

    pub completed-Keeps : Keeps (process_dispute_crowdsourcer_completed_log bn chain log)
    unfolding process_dispute_crowdsourcer_completed_log update_incomplete_crowdsourcers
    completed-Keeps =
        sequence-Keeps
          (change_crowdsourcers bn (is_crowdsourcer bn log.dispute_crowdsourcer)
              (set_completed bn (some true))
            ∷ update_market_state log.market log.block_number awaiting_next_window
            ∷ update_dispute_round log.market
            ∷ update_market_fee_window chain log.universe log.market true
            ∷ update_incomplete_crowdsourcers bn log.market
            ∷ update_tentative_winning_payout bn log.market
            ∷ emit (log_event dispute_crowdsourcer_completed log.transaction_hash log.log_index)
            ∷ [])
          (
            (λ w v. v),
            (
              update_market_state-Keeps log.market log.block_number awaiting_next_window,
              (
                dispute_round-Keeps log.market,
                (
                  fee_window-Keeps chain log.universe log.market true,
                  ((λ w v. v), (tentative-Keeps, λ w v. v)),
                ),
              ),
            ),
          )

    pub completed_removal-Keeps :
        Keeps (process_dispute_crowdsourcer_completed_log_removal bn chain log)
    unfolding process_dispute_crowdsourcer_completed_log_removal rollback_incomplete_crowdsourcers
        rollback_crowdsourcer_completion
    completed_removal-Keeps =
        sequence-Keeps
          (rollback_crowdsourcer_completion bn log.dispute_crowdsourcer log.market
            ∷ rollback_market_state log.market awaiting_next_window
            ∷ update_dispute_round log.market
            ∷ update_market_fee_window chain log.universe log.market false
            ∷ rollback_incomplete_crowdsourcers bn log.market
            ∷ update_tentative_winning_payout bn log.market
            ∷ emit (log_event dispute_crowdsourcer_completed log.transaction_hash log.log_index)
            ∷ [])
          (
            (λ w v. v),
            (
              rollback_market_state-Keeps log.market awaiting_next_window,
              (
                dispute_round-Keeps log.market,
                (
                  fee_window-Keeps chain log.universe log.market false,
                  ((λ w v. v), (tentative-Keeps, λ w v. v)),
                ),
              ),
            ),
          )

    pub redeemed-Keeps : Keeps (process_dispute_crowdsourcer_redeemed_log bn log)
    unfolding process_dispute_crowdsourcer_redeemed_log
    redeemed-Keeps w v = v

    pub redeemed_removal-Keeps : Keeps (process_dispute_crowdsourcer_redeemed_log_removal bn log)
    unfolding process_dispute_crowdsourcer_redeemed_log_removal
    redeemed_removal-Keeps w v = v
