-- ===== src/Reporting/Samples.antt =====
-- Answers of the contracts and a log, at which the tests run.
use augur_node.Prelude.{ℕ, false, true, none, some, [], ◌∷◌}
use augur_node.Prelude.Int.{ℤ, pos}
use augur_node.Database.{MarketRow}
use augur_node.Orders.{OrderNumbers}
use augur_node.Reporting.{FormattedEventLog, Chain}

abbrev pub chain : Chain ℤ
chain = record {
  initial_reporter = λ market. 40;
  reputation_token = λ universe. 41;
  forking_market = λ universe. none;
  fee_token = λ window. 42;
  fee_window_by_timestamp = λ universe t. 43;
  balance = λ mailbox. some (pos 7);
  dispute_round_duration_seconds = 100;
  market_fee_window = λ market. 0;
  market_end_time = λ market. 500;
  market_creator_mailbox = λ market. 44;
  num_ticks = λ market. pos 10000;
  validity_bond_attoeth = λ market. pos 9;
  share_token = λ market outcome. outcome;
  to_upper_case = λ name. name;
}

-- A log of market 5 and of universe 1 in a block.
abbrev pub log_in : ℕ → FormattedEventLog ℤ
log_in block_number = record {
  block_number = block_number;
  transaction_hash = 70;
  log_index = 0;
  universe = 1;
  market = 5;
  dispute_crowdsourcer = 71;
  payout_numerators = some (pos 0) ∷ some (pos 10000) ∷ [];
  invalid = false;
  size = pos 3;
  reporter = 72;
  amount_staked = pos 3;
  amount_redeemed = pos 3;
  rep_received = pos 3;
  reporting_fees_received = pos 0;
  is_designated_reporter = true;
  from_address = 73;
  to_address = 74;
  fee_window = 75;
  start_time = 0;
  end_time = 100;
  child_universe = 1;
  parent_universe = 0;
  new_universe = 1;
  original_universe = 1;
  reporting_participant = 76;
  market_creator = 77;
  topic = 78;
  is_categorical = false;
  outcomes = [];
  min_price = pos 0;
  max_price = pos 1;
  new_timestamp = 0;
}

abbrev pub whole_numbers : OrderNumbers ℤ
whole_numbers = record {
  to_precision_down = λ a. a;
  to_precision_up = λ a. a;
  integer_floor = λ a. a;
  integer_ceil = λ a. a;
  convert_on_chain_amount_to_display_amount = λ a t. a;
  convert_on_chain_price_to_display_price = λ p m t. p;
  precision_limit = pos 10;
  precision_zero = pos 1;
  precision_multiple = pos 1;
  minimum_trade_size = pos 1;
  wei_per_ether = pos 1;
}

abbrev pub market_five : MarketRow ℤ
market_five = record {
  market_id = 5;
  universe = 1;
  min_price = pos 0;
  max_price = pos 1;
  num_ticks = pos 10000;
  market_state_id = some 1;
  fee_window = 0;
  end_time = 500;
  initial_report_size = none;
  finalization_block_number = none;
  forking = 0;
  needs_migration = pos 0;
  needs_disavowal = pos 0;
  dispute_rounds = none;
  market_creator_mailbox = 44;
  market_creator_mailbox_owner = 77;
  market_creator_fees_balance = pos 0;
  category = some 78;
  open_interest = pos 0;
  volume = pos 0;
  share_volume = pos 0;
  shares_outstanding = pos 0;
  last_trade_block_number = none;
}
