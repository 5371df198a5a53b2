-- ===== src/Reporting/Keeping.antt =====
-- Reporting logs and their removals keep every market naming the latest state of its history.
use augur_node.Prelude.{ℕ, refl, Bool, true, false, Option, none, some, List, [], ◌∷◌, ◌==◌}
use augur_node.Prelude.Tables.{first_where, update_where}
use augur_node.BigNumber.{BigNumber}
use augur_node.Database.{
  Action, PayoutRow, MarketRow, modify, emit, or_throw, ◌>>=◌, log_event, awaiting_next_window,
  universe_not_found, initial_report_submitted, mailbox_not_found, mailbox_balance_failed,
}
use augur_node.MarketStates.{is_market, update_market_state, rollback_market_state}
use augur_node.MarketStates.Ordered.{update-AllLatest}
use augur_node.MarketStates.Keeping.{
  Keeps, Keeps-bind, Keeps-then, or_throw-Keeps, sequence-Keeps, update_market_state-Keeps,
  rollback_market_state-Keeps,
}
use augur_node.Reporting.{
  FormattedEventLog, Chain, get_fee_window, update_market_fee_window, update_dispute_round,
  refresh_market_mailbox_eth_balance, set_creator_fees, insert_payout, payout_or_insert,
}
use augur_node.Reporting.InitialReports.{
  state_after, set_initial_report_size, insert_report, delete_reports, add_report, submit_report,
  process_initial_reporter_redeemed_log, process_initial_reporter_redeemed_log_removal,
  process_initial_reporter_transferred_log, process_initial_reporter_transferred_log_removal,
  report_row, process_initial_report_submitted_log, process_initial_report_submitted_log_removal,
}

module _ {N : Type 0} where
  pub fee_window-Keeps :
      (chain : Chain N) (universe market_id : ℕ) (next : Bool)
      → Keeps (update_market_fee_window chain universe market_id next)
  unfolding update_market_fee_window get_fee_window
  fee_window-Keeps chain universe market_id next w v =
      (v.0, update-AllLatest _ _ _ _ (λ r. (refl, refl)) v.1)

  pub dispute_round-Keeps : (market_id : ℕ) → Keeps (update_dispute_round {N = N} market_id)
  unfolding update_dispute_round
  dispute_round-Keeps market_id w v = (v.0, update-AllLatest _ _ _ _ (λ r. (refl, refl)) v.1)

  abbrev pub mailbox_row : Chain N → ℕ → MarketRow N → Action N (Unit {0})
  mailbox_row chain market_id market = do
    balance ← or_throw (chain.balance market.market_creator_mailbox) mailbox_balance_failed
    modify (λ db. record db {
      markets = update_where (is_market market_id) (set_creator_fees balance) db.markets;
    })

  pub mailbox-Keeps :
      (chain : Chain N) (market_id : ℕ) → Keeps (refresh_market_mailbox_eth_balance chain market_id)
  unfolding refresh_market_mailbox_eth_balance
  mailbox-Keeps chain market_id w v =
      Keeps-bind (or_throw (first_where (is_market market_id) w.db.markets) mailbox_not_found)
        (mailbox_row chain market_id) (or_throw-Keeps _ _)
        (λ market.
          Keeps-bind (or_throw (chain.balance market.market_creator_mailbox) mailbox_balance_failed)
            (λ balance. modify (λ db. record db {
              markets = update_where (is_market market_id) (set_creator_fees balance) db.markets;
            }))
            (or_throw-Keeps _ _)
            (λ balance w' v'. (v'.0, update-AllLatest _ _ _ _ (λ r. (refl, refl)) v'.1)))
        w v

module _ (bn : BigNumber) where
  open bn use {Num}

  payout_or_insert-Keeps :
      (m : ℕ) (ns : List (Option Num)) (i t : Bool) (row : Option (PayoutRow Num))
      → Keeps (payout_or_insert bn m ns i t row)
  payout_or_insert-Keeps m ns i t none w v = v
  payout_or_insert-Keeps m ns i t (some p) w v = v

  pub insert_payout-Keeps :
      (m : ℕ) (ns : List (Option Num)) (i t : Bool) → Keeps (insert_payout bn m ns i t)
  unfolding insert_payout
  insert_payout-Keeps m ns i t w v = payout_or_insert-Keeps m ns i t _ w v

  report_size-Keeps : (m : ℕ) (size : Option Num) → Keeps (set_initial_report_size bn m size)
  unfolding set_initial_report_size
  report_size-Keeps m size w v = (v.0, update-AllLatest _ _ _ _ (λ r. (refl, refl)) v.1)

  module _ (chain : Chain Num) (log : FormattedEventLog Num) where
    add_report-Keeps : (payout_id : ℕ) → Keeps (add_report bn chain log payout_id)
    add_report-Keeps payout_id =
        sequence-Keeps
          (insert_report bn (report_row bn log (chain.initial_reporter log.market) payout_id)
            ∷ set_initial_report_size bn log.market (some log.amount_staked)
            ∷ update_market_fee_window chain log.universe log.market true
            ∷ update_dispute_round log.market
            ∷ refresh_market_mailbox_eth_balance chain log.market
            ∷ emit (log_event initial_report_submitted log.transaction_hash log.log_index)
            ∷ [])
          (
            (λ w v. v),
            (
              report_size-Keeps log.market (some log.amount_staked),
              (
                fee_window-Keeps chain log.universe log.market true,
                (dispute_round-Keeps log.market, (mailbox-Keeps chain log.market, λ w v. v)),
              ),
            ),
          )

    pub submitted-Keeps : Keeps (process_initial_report_submitted_log bn chain log)
    unfolding process_initial_report_submitted_log
    submitted-Keeps w v =
        Keeps-bind
          (or_throw (first_where (λ u. u.universe == log.universe) w.db.universes)
            universe_not_found)
          (submit_report bn chain log) (or_throw-Keeps _ _)
          (λ universe.
            Keeps-then
              (update_market_state log.market log.block_number (state_after universe.forked))
              (insert_payout bn log.market log.payout_numerators log.invalid true
                >>= add_report bn chain log)
              (update_market_state-Keeps log.market log.block_number _)
              (Keeps-bind (insert_payout bn log.market log.payout_numerators log.invalid true)
                (add_report bn chain log)
                (insert_payout-Keeps log.market log.payout_numerators log.invalid true)
                add_report-Keeps))
          w v

    pub submitted_removal-Keeps : Keeps (process_initial_report_submitted_log_removal bn chain log)
    unfolding process_initial_report_submitted_log_removal
    submitted_removal-Keeps =
        sequence-Keeps
          (rollback_market_state log.market awaiting_next_window
            ∷ delete_reports bn log.market
            ∷ set_initial_report_size bn log.market none
            ∷ update_market_fee_window chain log.universe log.market false
            ∷ refresh_market_mailbox_eth_balance chain log.market
            ∷ emit (log_event initial_report_submitted log.transaction_hash log.log_index)
            ∷ [])
          (
            rollback_market_state-Keeps log.market awaiting_next_window,
            (
              (λ w v. v),
              (
                report_size-Keeps log.market none,
                (
                  fee_window-Keeps chain log.universe log.market false,
                  (mailbox-Keeps chain log.market, λ w v. v),
                ),
              ),
            ),
          )

  module _ (log : FormattedEventLog Num) where
    pub reporter_redeemed-Keeps : Keeps (process_initial_reporter_redeemed_log bn log)
    unfolding process_initial_reporter_redeemed_log
    reporter_redeemed-Keeps w v = v

    pub reporter_redeemed_removal-Keeps :
        Keeps (process_initial_reporter_redeemed_log_removal bn log)
    unfolding process_initial_reporter_redeemed_log_removal
    reporter_redeemed_removal-Keeps w v = v

    pub reporter_transferred-Keeps : Keeps (process_initial_reporter_transferred_log bn log)
    unfolding process_initial_reporter_transferred_log
    reporter_transferred-Keeps w v = v

    pub reporter_transferred_removal-Keeps :
        Keeps (process_initial_reporter_transferred_log_removal bn log)
    unfolding process_initial_reporter_transferred_log_removal
    reporter_transferred_removal-Keeps w v = v
