-- ===== src/Dispatch.antt =====
-- The registry of log processors (src/blockchain/log-processors/index.ts) and the processing of the
-- logs of a block (src/blockchain/process-logs.ts, src/blockchain/process-block.ts): the logs of
-- reporting, of tokens, of complete sets, of claims and of the clock. A log is a contract's name
-- and an event's name with the values of the event.
pub mod Consistent
mod Tests
use augur_node.Prelude.{
  ℕ, Bool, true, false, not, Option, none, some, List, [], ◌∷◌, if◌then◌else◌, ok,
}
use augur_node.BigNumber.{BigNumber}
use augur_node.Database.{
  Action, EventName, market_migrated, market_finalized, approval, trading_proceeds_claimed,
  log_event, unnamed_event, pure, emit, or_throw, ◌>>=◌, ◌>>◌, block_without_timestamp,
}
use augur_node.BlockQueue.{BlockDetail, BlockDirection}
use augur_node.Blocks.{
  each, process_block_and_logs, process_timestamp_set_log, process_timestamp_set_log_removal,
}
use augur_node.Orders.{OrderNumbers}
use augur_node.Tokens.{
  TokenLog, ApprovalLog, process_mint_log, process_mint_log_removal, process_burn_log,
  process_burn_log_removal, process_tokens_transferred_log, process_tokens_transferred_log_removal,
  process_approval_log, process_approval_log_removal,
}
use augur_node.Reporting.{FormattedEventLog, Chain}
use augur_node.Reporting.InitialReports.{
  process_initial_report_submitted_log, process_initial_report_submitted_log_removal,
  process_initial_reporter_redeemed_log, process_initial_reporter_redeemed_log_removal,
  process_initial_reporter_transferred_log, process_initial_reporter_transferred_log_removal,
}
use augur_node.Reporting.Crowdsourcers.{
  process_dispute_crowdsourcer_created_log, process_dispute_crowdsourcer_created_log_removal,
  process_dispute_crowdsourcer_contribution_log,
  process_dispute_crowdsourcer_contribution_log_removal, process_dispute_crowdsourcer_completed_log,
  process_dispute_crowdsourcer_completed_log_removal, process_dispute_crowdsourcer_redeemed_log,
  process_dispute_crowdsourcer_redeemed_log_removal,
}
use augur_node.Reporting.Universes.{
  process_universe_created_log, process_universe_created_log_removal, process_universe_forked_log,
  process_universe_forked_log_removal, process_fee_window_created_log,
  process_fee_window_created_log_removal, process_fee_window_redeemed_log,
  process_fee_window_redeemed_log_removal,
}
use augur_node.Reporting.Markets.{
  process_market_participants_disavowed_log, process_market_participants_disavowed_log_removal,
  process_reporting_participant_disavowed_log, process_reporting_participant_disavowed_log_removal,
  process_market_mailbox_transferred_log, process_market_mailbox_transferred_log_removal,
  process_market_migrated_log, process_market_migrated_log_removal, process_market_finalized_log,
  process_market_finalized_log_removal,
}
use augur_node.Trades.CompleteSets.{
  CompleteSetsLog, sets_event, process_complete_sets_purchased_or_sold_log,
  process_complete_sets_purchased_or_sold_log_removal,
}
use augur_node.Trades.Proceeds.{
  TradingProceedsLog, process_trading_proceeds_claimed_log,
  process_trading_proceeds_claimed_log_removal,
}
use augur_node.Reporting.Created.{process_market_created_log, process_market_created_log_removal}

-- The events of the contract Augur.
pub data AugurEvent : Type 0 where
  fee_window_created_log initial_report_submitted_log initial_reporter_redeemed_log : AugurEvent
  initial_reporter_transferred_log market_created_log market_mailbox_transferred_log : AugurEvent
  market_migrated_log market_finalized_log dispute_crowdsourcer_created_log : AugurEvent
  dispute_crowdsourcer_contribution_log dispute_crowdsourcer_completed_log : AugurEvent
  reporting_participant_disavowed_log universe_created_log universe_forked_log : AugurEvent
  fee_window_redeemed_log dispute_crowdsourcer_redeemed_event : AugurEvent
  market_participants_disavowed_log timestamp_set_log : AugurEvent

-- The events of tokens: those of the contract Augur, then those of Cash.
pub data TokenEvent : Type 0 where
  tokens_burned_log tokens_minted_log tokens_transferred_log : TokenEvent
  cash_transfer_log cash_mint_log cash_burn_log : TokenEvent

-- The events of LegacyReputationToken.
pub data LegacyEvent : Type 0 where
  legacy_transfer_log legacy_approval_log legacy_mint_log legacy_funded_account_log : LegacyEvent
  legacy_pause_log legacy_unpause_log : LegacyEvent

-- An event without a processor is `unknown_log`.
pub data EventLog (N : Type 0) : Type 0 where
  augur_log : AugurEvent → FormattedEventLog N → EventLog N
  token_log : TokenEvent → TokenLog N → EventLog N
  cash_approval_log : ApprovalLog N → EventLog N
  complete_sets_log : CompleteSetsLog N → EventLog N
  trading_proceeds_log : TradingProceedsLog N → EventLog N
  legacy_log : LegacyEvent → FormattedEventLog N → EventLog N
  unknown_log : FormattedEventLog N → EventLog N

-- A log with its flag `removed`.
pub record ReceivedLog (N : Type 0) : Type 0 where
  pub event_log : EventLog N
  pub removed : Bool

-- A processor on a log; `no_auto_emit` is false where the registry leaves it out.
pub record EventLogProcessor (N : Type 0) : Type 0 where
  pub add_log : Action N (Unit {0})
  pub remove_log : Action N (Unit {0})
  pub no_auto_emit : Bool

-- What the processors are given besides the log: the contracts, the constants and the addresses of
-- the network.
pub record Network (N : Type 0) : Type 0 where
  pub chain : Chain N
  pub numbers : OrderNumbers N
  pub legacy_reputation_token : ℕ
  pub universe : ℕ
  pub ether : ℕ
  pub designated_reporting_duration : ℕ

-- `SubscriptionEventNames` at the events that are emitted without their processors.
abbrev pub subscription_event_name : AugurEvent → Option EventName
subscription_event_name market_migrated_log = some market_migrated
subscription_event_name market_finalized_log = some market_finalized
subscription_event_name e = none

abbrev pub legacy_event_name : LegacyEvent → Option EventName
legacy_event_name legacy_approval_log = some approval
legacy_event_name e = none

module _ {N : Type 0} where
  abbrev pub processor : Action N (Unit {0}) → Action N (Unit {0}) → Bool → EventLogProcessor N
  processor add_log remove_log no_auto_emit = record {
    add_log = add_log;
    remove_log = remove_log;
    no_auto_emit = no_auto_emit;
  }

  abbrev pub pass_through_log : EventLogProcessor N
  pass_through_log = processor (pure tt) (pure tt) false

  abbrev pub emission : Option EventName → ℕ → ℕ → Action N (Unit {0})
  emission none transaction_hash log_index = emit (unnamed_event transaction_hash log_index)
  emission (some name) transaction_hash log_index = emit (log_event name transaction_hash log_index)

  -- The event that `processLogByName` emits.
  abbrev pub event_of : EventLog N → Action N (Unit {0})
  event_of (augur_log e log) =
      emission (subscription_event_name e) log.transaction_hash log.log_index
  event_of (token_log e log) = emission none log.transaction_hash log.log_index
  event_of (cash_approval_log log) = emission (some approval) log.transaction_hash log.log_index
  event_of (complete_sets_log log) =
      emission (some (sets_event log.is_purchase)) log.transaction_hash log.log_index
  event_of (trading_proceeds_log log) =
      emission (some trading_proceeds_claimed) log.transaction_hash log.log_index
  event_of (legacy_log e log) = emission (legacy_event_name e) log.transaction_hash log.log_index
  event_of (unknown_log log) = pure tt

module _ (bn : BigNumber) where
  open bn use {Num}

  module _ (net : Network Num) where
    unfoldable pub augur_processor : AugurEvent → FormattedEventLog Num → EventLogProcessor Num
    augur_processor fee_window_created_log log =
        processor (process_fee_window_created_log net.chain log)
          (process_fee_window_created_log_removal log) true
    augur_processor initial_report_submitted_log log =
        processor (process_initial_report_submitted_log bn net.chain log)
          (process_initial_report_submitted_log_removal bn net.chain log) true
    augur_processor initial_reporter_redeemed_log log =
        processor (process_initial_reporter_redeemed_log bn log)
          (process_initial_reporter_redeemed_log_removal bn log) true
    augur_processor initial_reporter_transferred_log log =
        processor (process_initial_reporter_transferred_log bn log)
          (process_initial_reporter_transferred_log_removal bn log) true
    augur_processor market_created_log log =
        processor (process_market_created_log bn net.ether net.chain log)
          (process_market_created_log_removal net.ether log) true
    augur_processor market_mailbox_transferred_log log =
        processor (process_market_mailbox_transferred_log log)
          (process_market_mailbox_transferred_log_removal log) false
    augur_processor market_migrated_log log =
        processor (process_market_migrated_log bn net.chain log)
          (process_market_migrated_log_removal bn log) false
    augur_processor market_finalized_log log =
        processor (process_market_finalized_log bn net.numbers net.chain log)
          (process_market_finalized_log_removal bn net.chain log) false
    augur_processor dispute_crowdsourcer_created_log log =
        processor (process_dispute_crowdsourcer_created_log bn log)
          (process_dispute_crowdsourcer_created_log_removal bn log) true
    augur_processor dispute_crowdsourcer_contribution_log log =
        processor (process_dispute_crowdsourcer_contribution_log bn log)
          (process_dispute_crowdsourcer_contribution_log_removal bn log) true
    augur_processor dispute_crowdsourcer_completed_log log =
        processor (process_dispute_crowdsourcer_completed_log bn net.chain log)
          (process_dispute_crowdsourcer_completed_log_removal bn net.chain log) true
    augur_processor reporting_participant_disavowed_log log =
        processor (process_reporting_participant_disavowed_log log)
          (process_reporting_participant_disavowed_log_removal log) true
    augur_processor universe_created_log log =
        processor (process_universe_created_log bn net.chain log)
          (process_universe_created_log_removal bn log) true
    augur_processor universe_forked_log log =
        processor (process_universe_forked_log net.chain log)
          (process_universe_forked_log_removal log) false
    augur_processor fee_window_redeemed_log log =
        processor (process_fee_window_redeemed_log log)
          (process_fee_window_redeemed_log_removal log) true
    augur_processor dispute_crowdsourcer_redeemed_event log =
        processor (process_dispute_crowdsourcer_redeemed_log bn log)
          (process_dispute_crowdsourcer_redeemed_log_removal bn log) true
    augur_processor market_participants_disavowed_log log =
        processor (process_market_participants_disavowed_log log)
          (process_market_participants_disavowed_log_removal log) false
    augur_processor timestamp_set_log log =
        processor (process_timestamp_set_log log.block_number log.new_timestamp)
          (process_timestamp_set_log_removal log.block_number log.new_timestamp) false

    abbrev pub transferred_processor : TokenLog Num → Bool → EventLogProcessor Num
    transferred_processor log no_auto_emit =
        processor (process_tokens_transferred_log bn net.legacy_reputation_token log)
          (process_tokens_transferred_log_removal bn net.legacy_reputation_token log) no_auto_emit

    abbrev pub mint_processor : TokenLog Num → EventLogProcessor Num
    mint_processor log =
        processor (process_mint_log bn net.legacy_reputation_token log)
          (process_mint_log_removal bn net.legacy_reputation_token log) false

    abbrev pub burn_processor : TokenLog Num → EventLogProcessor Num
    burn_processor log =
        processor (process_burn_log bn net.legacy_reputation_token log)
          (process_burn_log_removal bn net.legacy_reputation_token log) true

    unfoldable pub token_processor : TokenEvent → TokenLog Num → EventLogProcessor Num
    token_processor tokens_burned_log log = burn_processor log
    token_processor tokens_minted_log log = mint_processor log
    token_processor tokens_transferred_log log = transferred_processor log true
    token_processor cash_transfer_log log = transferred_processor log false
    token_processor cash_mint_log log = mint_processor log
    token_processor cash_burn_log log = burn_processor log

    unfoldable pub log_processors : EventLog Num → Option (EventLogProcessor Num)
    log_processors (augur_log e log) = some (augur_processor e log)
    log_processors (token_log e log) = some (token_processor e log)
    log_processors (cash_approval_log log) =
        some (processor (process_approval_log bn log) (process_approval_log_removal bn log) true)
    log_processors (complete_sets_log log) = some (
        processor (process_complete_sets_purchased_or_sold_log bn net.numbers log)
          (process_complete_sets_purchased_or_sold_log_removal bn net.numbers log) true)
    log_processors (trading_proceeds_log log) = some (
        processor (process_trading_proceeds_claimed_log bn net.numbers log)
          (process_trading_proceeds_claimed_log_removal bn log) true)
    log_processors (legacy_log e log) = some pass_through_log
    log_processors (unknown_log log) = none

    unfoldable pub process_log : Bool → EventLogProcessor Num → Action Num (Unit {0})
    process_log removed log_processor =
        if not removed then log_processor.add_log else log_processor.remove_log

    abbrev pub emit_unless : Bool → EventLog Num → Action Num (Unit {0})
    emit_unless no_auto_emit log = if no_auto_emit then pure tt else event_of log

    -- The event of `processLogByName`, and the write that it returns.
    abbrev pub auto_emit : Option (EventLogProcessor Num) → EventLog Num → Action Num (Unit {0})
    auto_emit none log = pure tt
    auto_emit (some p) log = emit_unless p.no_auto_emit log

    abbrev pub write_or_nothing : Bool → Option (EventLogProcessor Num) → Action Num (Unit {0})
    write_or_nothing removed none = pure tt
    write_or_nothing removed (some p) = process_log removed p

    unfoldable pub announce : ReceivedLog Num → Action Num (Unit {0})
    announce r = auto_emit (log_processors r.event_log) r.event_log

    unfoldable pub process_log_by_name : ReceivedLog Num → Action Num (Unit {0})
    process_log_by_name r = write_or_nothing r.removed (log_processors r.event_log)

    unfoldable pub write_functions : List (ReceivedLog Num) → List (Action Num (Unit {0}))
    write_functions [] = []
    write_functions (r ∷ logs) = process_log_by_name r ∷ write_functions logs

    -- `processBlockAndLogs`: the events of all logs come before the transaction.
    unfoldable pub process_block :
        BlockDirection → Option BlockDetail → Bool → List (ReceivedLog Num) → Action Num (Unit {0})
    process_block direction block bulk_sync logs = do
      b ← or_throw block block_without_timestamp
      or_throw b.timestamp block_without_timestamp
      each logs announce
      process_block_and_logs net.universe net.designated_reporting_duration direction block
          bulk_sync (write_functions logs)
