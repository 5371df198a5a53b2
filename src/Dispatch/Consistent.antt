-- ===== src/Dispatch/Consistent.antt =====
-- Blocks and their logs keep every market naming the latest state of its history
-- (src/blockchain/process-block.ts, src/blockchain/process-logs.ts).
use augur_node.Prelude.{
  ℕ, ◌≡◌, subst, sym, arith, Bool, true, false, Option, none, some, List, [], ◌∷◌,
}
use augur_node.BigNumber.{BigNumber}
use augur_node.Database.{
  Action, World, empty_db, EventName, approval, trading_proceeds_claimed, pure, or_throw,
  block_without_timestamp, ◌>>◌,
}
use augur_node.BlockQueue.{BlockDetail, BlockDirection}
use augur_node.MarketStates.Ordered.{IsConsistent, IsOrdered, AllLatest}
use augur_node.MarketStates.Keeping.{
  Keeps, KeepsReturned, Keeps-bind, Keeps-then, Keeps-KeepsReturned, if-Keeps, or_throw-Keeps,
}
use augur_node.Blocks.{each, process_block_and_logs}
use augur_node.Blocks.Keeping.{
  each-Keeps, process_timestamp_set_log-Keeps, process_timestamp_set_log_removal-Keeps, AllReturned,
  process_block_and_logs-Keeps,
}
use augur_node.Tokens.{TokenLog}
use augur_node.Tokens.Keeping.{
  mint-Keeps, mint_removal-Keeps, burn-Keeps, burn_removal-Keeps, transferred-Keeps,
  transferred_removal-Keeps, approval-Keeps, approval_removal-Keeps,
}
use augur_node.Reporting.{FormattedEventLog}
use augur_node.Reporting.Keeping.{
  submitted-Keeps, submitted_removal-Keeps, reporter_redeemed-Keeps,
  reporter_redeemed_removal-Keeps, reporter_transferred-Keeps, reporter_transferred_removal-Keeps,
}
use augur_node.Reporting.LogsKeep.{
  created-Keeps, created_removal-Keeps, contribution-Keeps, contribution_removal-Keeps,
  completed-Keeps, completed_removal-Keeps, redeemed-Keeps, redeemed_removal-Keeps,
}
use augur_node.Reporting.UniversesKeep.{
  forked-Keeps, forked_removal-Keeps, window_created-Keeps, window_created_removal-Keeps,
  window_redeemed-Keeps, window_redeemed_removal-Keeps, universe_created-Keeps,
  universe_created_removal-Keeps,
}
use augur_node.Reporting.MarketsKeep.{
  participants_disavowed-Keeps, participants_disavowed_removal-Keeps, disavowed-Keeps,
  disavowed_removal-Keeps, mailbox_transferred-Keeps, mailbox_transferred_removal-Keeps,
  migrated-Keeps, migrated_removal-Keeps, finalized-Keeps, finalized_removal-Keeps,
}
use augur_node.Trades.CompleteSets.{sets_event}
use augur_node.Trades.Proceeds.Keeping.{proceeds-Keeps, proceeds_removal-Keeps}
use augur_node.Trades.Keeping.{complete_sets-Keeps, complete_sets_removal-Keeps}
use augur_node.Reporting.CreatedKeep.{market_created-KeepsReturned, market_created_removal-Keeps}
use augur_node.Dispatch.{
  AugurEvent, fee_window_created_log, initial_report_submitted_log, initial_reporter_redeemed_log,
  initial_reporter_transferred_log, market_created_log, market_mailbox_transferred_log,
  market_migrated_log, market_finalized_log, dispute_crowdsourcer_created_log,
  dispute_crowdsourcer_contribution_log, dispute_crowdsourcer_completed_log,
  reporting_participant_disavowed_log, universe_created_log, universe_forked_log,
  fee_window_redeemed_log, dispute_crowdsourcer_redeemed_event, market_participants_disavowed_log,
  timestamp_set_log, TokenEvent, tokens_burned_log, tokens_minted_log, tokens_transferred_log,
  cash_transfer_log, cash_mint_log, cash_burn_log, EventLog, augur_log, token_log,
  cash_approval_log, complete_sets_log, trading_proceeds_log, legacy_log, unknown_log, ReceivedLog,
  EventLogProcessor, Network, emission, subscription_event_name, legacy_event_name, event_of,
  augur_processor, token_processor, log_processors, process_log, write_or_nothing, auto_emit,
  announce, process_log_by_name, write_functions, process_block,
}

-- A processor whose writes keep the tables consistent where they return.
abbrev IsSafe : {N : Type 0} → EventLogProcessor N → Type 0
IsSafe p = KeepsReturned p.add_log × KeepsReturned p.remove_log

module _ {N : Type 0} where
  safe :
      (add_log remove_log : Action N (Unit {0})) (no_auto_emit : Bool)
      → Keeps add_log
      → Keeps remove_log
      → IsSafe (record { add_log = add_log; remove_log = remove_log; no_auto_emit = no_auto_emit })
  safe a r e ka kr = (Keeps-KeepsReturned a ka, Keeps-KeepsReturned r kr)

  emission-Keeps : (name : Option EventName) (t i : ℕ) → Keeps (emission {N = N} name t i)
  emission-Keeps none t i = λ w v. v
  emission-Keeps (some e) t i = λ w v. v

  event-Keeps : (log : EventLog N) → Keeps (event_of log)
  event-Keeps (augur_log e log) =
      emission-Keeps (subscription_event_name e) log.transaction_hash log.log_index
  event-Keeps (token_log e log) = emission-Keeps none log.transaction_hash log.log_index
  event-Keeps (cash_approval_log log) =
      emission-Keeps (some approval) log.transaction_hash log.log_index
  event-Keeps (complete_sets_log log) =
      emission-Keeps (some (sets_event log.is_purchase)) log.transaction_hash log.log_index
  event-Keeps (trading_proceeds_log log) =
      emission-Keeps (some trading_proceeds_claimed) log.transaction_hash log.log_index
  event-Keeps (legacy_log e log) =
      emission-Keeps (legacy_event_name e) log.transaction_hash log.log_index
  event-Keeps (unknown_log log) = λ w v. v

module _ (bn : BigNumber) where
  open bn use {Num}

  module _ (net : Network Num) where
    augur_processor-IsSafe :
        (e : AugurEvent) (log : FormattedEventLog Num) → IsSafe (augur_processor bn net e log)
    unfolding augur_processor
    augur_processor-IsSafe fee_window_created_log log =
        safe _ _ true (window_created-Keeps net.chain log) (window_created_removal-Keeps log)
    augur_processor-IsSafe initial_report_submitted_log log =
        safe _ _ true (submitted-Keeps bn net.chain log) (submitted_removal-Keeps bn net.chain log)
    augur_processor-IsSafe initial_reporter_redeemed_log log =
        safe _ _ true (reporter_redeemed-Keeps bn log) (reporter_redeemed_removal-Keeps bn log)
    augur_processor-IsSafe initial_reporter_transferred_log log =
        safe _ _ true (reporter_transferred-Keeps bn log)
          (reporter_transferred_removal-Keeps bn log)
    augur_processor-IsSafe market_created_log log = (
      market_created-KeepsReturned bn net.ether net.chain log,
      Keeps-KeepsReturned _ (market_created_removal-Keeps net.ether log),
    )
    augur_processor-IsSafe market_mailbox_transferred_log log =
        safe _ _ false (mailbox_transferred-Keeps log) (mailbox_transferred_removal-Keeps log)
    augur_processor-IsSafe market_migrated_log log =
        safe _ _ false (migrated-Keeps bn net.numbers net.chain log)
          (migrated_removal-Keeps bn net.numbers net.chain log)
    augur_processor-IsSafe market_finalized_log log =
        safe _ _ false (finalized-Keeps bn net.numbers net.chain log)
          (finalized_removal-Keeps bn net.numbers net.chain log)
    augur_processor-IsSafe dispute_crowdsourcer_created_log log =
        safe _ _ true (created-Keeps bn net.chain log) (created_removal-Keeps bn net.chain log)
    augur_processor-IsSafe dispute_crowdsourcer_contribution_log log =
        safe _ _ true (contribution-Keeps bn net.chain log)
          (contribution_removal-Keeps bn net.chain log)
    augur_processor-IsSafe dispute_crowdsourcer_completed_log log =
        safe _ _ true (completed-Keeps bn net.chain log) (completed_removal-Keeps bn net.chain log)
    augur_processor-IsSafe reporting_participant_disavowed_log log =
        safe _ _ true (disavowed-Keeps log) (disavowed_removal-Keeps log)
    augur_processor-IsSafe universe_created_log log =
        safe _ _ true (universe_created-Keeps bn net.chain log)
          (universe_created_removal-Keeps bn net.chain log)
    augur_processor-IsSafe universe_forked_log log =
        safe _ _ false (forked-Keeps net.chain log) (forked_removal-Keeps log)
    augur_processor-IsSafe fee_window_redeemed_log log =
        safe _ _ true (window_redeemed-Keeps log) (window_redeemed_removal-Keeps log)
    augur_processor-IsSafe dispute_crowdsourcer_redeemed_event log =
        safe _ _ true (redeemed-Keeps bn net.chain log) (redeemed_removal-Keeps bn net.chain log)
    augur_processor-IsSafe market_participants_disavowed_log log =
        safe _ _ false (participants_disavowed-Keeps log) (participants_disavowed_removal-Keeps log)
    augur_processor-IsSafe timestamp_set_log log =
        safe _ _ false (process_timestamp_set_log-Keeps log.block_number log.new_timestamp)
          (process_timestamp_set_log_removal-Keeps log.block_number log.new_timestamp)

    token_processor-IsSafe :
        (e : TokenEvent) (log : TokenLog Num) → IsSafe (token_processor bn net e log)
    unfolding token_processor
    token_processor-IsSafe tokens_burned_log log =
        safe _ _ true (burn-Keeps bn _ log) (burn_removal-Keeps bn _ log)
    token_processor-IsSafe tokens_minted_log log =
        safe _ _ false (mint-Keeps bn _ log) (mint_removal-Keeps bn _ log)
    token_processor-IsSafe tokens_transferred_log log =
        safe _ _ true (transferred-Keeps bn _ log) (transferred_removal-Keeps bn _ log)
    token_processor-IsSafe cash_transfer_log log =
        safe _ _ false (transferred-Keeps bn _ log) (transferred_removal-Keeps bn _ log)
    token_processor-IsSafe cash_mint_log log =
        safe _ _ false (mint-Keeps bn _ log) (mint_removal-Keeps bn _ log)
    token_processor-IsSafe cash_burn_log log =
        safe _ _ true (burn-Keeps bn _ log) (burn_removal-Keeps bn _ log)

    one_of-KeepsReturned :
        (removed : Bool) (p : EventLogProcessor Num)
        → IsSafe p
        → KeepsReturned (process_log bn net removed p)
    unfolding process_log
    one_of-KeepsReturned true p s = s.1
    one_of-KeepsReturned false p s = s.0

    by_name-KeepsReturned :
        (log : EventLog Num) (removed : Bool)
        → KeepsReturned (write_or_nothing bn net removed (log_processors bn net log))
    unfolding log_processors
    by_name-KeepsReturned (augur_log e log) removed =
        one_of-KeepsReturned removed (augur_processor bn net e log) (augur_processor-IsSafe e log)
    by_name-KeepsReturned (token_log e log) removed =
        one_of-KeepsReturned removed (token_processor bn net e log) (token_processor-IsSafe e log)
    by_name-KeepsReturned (cash_approval_log log) removed =
        one_of-KeepsReturned removed _
          (safe _ _ true (approval-Keeps bn log) (approval_removal-Keeps bn log))
    by_name-KeepsReturned (complete_sets_log log) removed = one_of-KeepsReturned removed _ (
        safe _ _ true (complete_sets-Keeps bn net.numbers log)
          (complete_sets_removal-Keeps bn net.numbers log))
    by_name-KeepsReturned (trading_proceeds_log log) removed =
        one_of-KeepsReturned removed _
          (safe _ _ true (proceeds-Keeps bn log net.numbers) (proceeds_removal-Keeps bn log))
    by_name-KeepsReturned (legacy_log e log) removed =
        one_of-KeepsReturned removed _ (safe (pure tt) (pure tt) false (λ w v. v) (λ w v. v))
    by_name-KeepsReturned (unknown_log log) removed = λ w v. v

    writes-AllReturned : (logs : List (ReceivedLog Num)) → AllReturned (write_functions bn net logs)
    unfolding write_functions process_log_by_name
    writes-AllReturned [] = tt
    writes-AllReturned (r ∷ logs) =
        (by_name-KeepsReturned r.event_log r.removed, writes-AllReturned logs)

    auto_emit-Keeps :
        (p : Option (EventLogProcessor Num)) (log : EventLog Num) → Keeps (auto_emit bn net p log)
    auto_emit-Keeps none log = λ w v. v
    auto_emit-Keeps (some p) log =
        if-Keeps p.no_auto_emit (pure tt) (event_of log) (λ w v. v) (event-Keeps log)

    announce-Keeps : (r : ReceivedLog Num) → Keeps (announce bn net r)
    unfolding announce
    announce-Keeps r = auto_emit-Keeps (log_processors bn net r.event_log) r.event_log

    process_block-Keeps :
        (direction : BlockDirection) (block : Option BlockDetail) (bulk_sync : Bool)
        (logs : List (ReceivedLog Num))
        → Keeps (process_block bn net direction block bulk_sync logs)
    unfolding process_block
    process_block-Keeps direction block bulk_sync logs =
        let writes =
          process_block_and_logs net.universe net.designated_reporting_duration direction block
            bulk_sync (write_functions bn net logs) in
        Keeps-bind (or_throw block block_without_timestamp)
          (λ b.
            or_throw b.timestamp block_without_timestamp >> (each logs (announce bn net) >> writes))
          (or_throw-Keeps _ _)
          (λ b.
            Keeps-then (or_throw b.timestamp block_without_timestamp)
              (each logs (announce bn net) >> writes) (or_throw-Keeps _ _)
              (Keeps-then (each logs (announce bn net)) writes
                (each-Keeps logs (announce bn net) announce-Keeps)
                (process_block_and_logs-Keeps net.universe net.designated_reporting_duration
                  direction block bulk_sync (write_functions bn net logs)
                  (writes-AllReturned logs))))

    -- The states of the server that blocks lead to, from empty tables on. A block that throws is
    -- taken along as well.
    pub data Reached : World Num → Type 0 where
      started : (w : World Num) → w.db ≡ empty_db → Reached w
      processed :
          (w : World Num)
          → Reached w
          → (direction : BlockDirection) (block : Option BlockDetail) (bulk_sync : Bool)
            (logs : List (ReceivedLog Num))
          → Reached (process_block bn net direction block bulk_sync logs w).1

    empty-IsConsistent : IsConsistent {N = Num} empty_db
    unfolding IsOrdered AllLatest
    empty-IsConsistent = (omega arith, tt)

    -- Whatever blocks were added and removed from empty tables on, with whatever logs of reporting,
    -- tokens, complete sets, claims of proceeds and time, whether they were processed or threw:
    -- every market names the last row that was inserted for it and is still there, or no row if
    -- there is none, and the ids of the rows ascend and are below the next id.
    pub Reached-IsConsistent : {w : World Num} → Reached w → IsConsistent w.db
    Reached-IsConsistent (started w e) = subst IsConsistent (sym e) empty-IsConsistent
    Reached-IsConsistent (processed w r direction block bulk_sync logs) =
        process_block-Keeps direction block bulk_sync logs w (Reached-IsConsistent r)
