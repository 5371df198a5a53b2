-- ===== src/Database/Rows.antt =====
-- The rows of the tables (src/types.ts), with the columns that the modelled code reads or writes.
use augur_node.Prelude.{ℕ, Bool, Option, none, List, []}
use augur_node.Prelude.Int.{ℤ}

-- `ReportingState`
pub data ReportingState : Type 0 where
  pre_reporting designated_reporting open_reporting crowdsourcing_dispute : ReportingState
  awaiting_next_window awaiting_finalization finalized forking : ReportingState
  awaiting_no_report_migration awaiting_fork_migration : ReportingState

-- `FeeWindowState`
pub data FeeWindowState : Type 0 where
  past current future : FeeWindowState

-- `OrderState`; `ALL` is a value of queries alone.
pub data OrderState : Type 0 where
  all_orders open_order filled canceled : OrderState

-- The label of an order type.
pub data OrderType : Type 0 where
  buy sell : OrderType

pub record TransferRow (N : Type 0) : Type 0 where
  pub transaction_hash : ℕ
  pub log_index : ℕ
  pub sender : Option ℕ
  pub recipient : Option ℕ
  pub value : N
  pub block_number : ℕ
  pub token : ℕ

pub record ApprovalRow (N : Type 0) : Type 0 where
  pub transaction_hash : ℕ
  pub log_index : ℕ
  pub owner : ℕ
  pub spender : ℕ
  pub token : ℕ
  pub value : N
  pub block_number : ℕ

pub record BalanceRow (N : Type 0) : Type 0 where
  pub token : ℕ
  pub owner : ℕ
  pub balance : N

pub record SupplyRow (N : Type 0) : Type 0 where
  pub token : ℕ
  pub supply : N

-- `wcl_profit_loss_timeseries`
pub record ProfitLossRow (N : Type 0) : Type 0 where
  pub account : ℕ
  pub market_id : ℕ
  pub outcome : ℕ
  pub price : N
  pub position : N
  pub quantity_opened : N
  pub profit : N
  pub transaction_hash : ℕ
  pub timestamp : ℕ
  pub block_number : ℕ
  pub log_index : ℕ
  pub frozen_funds : N
  pub realized_cost : N

-- The column `symbol` of `tokens`, for the kinds of token that the program adds.
pub data TokenSymbol : Type 0 where
  cash rep shares crowdsourcer participation_token fee_token : TokenSymbol

-- `tokens`
pub record TokenRow : Type 0 where
  pub contract_address : ℕ
  pub market_id : Option ℕ
  pub outcome : ℕ
  pub fee_window : Option ℕ
  pub symbol : TokenSymbol

pub record OrderRow (N : Type 0) : Type 0 where
  pub order_id : ℕ
  pub market_id : ℕ
  pub outcome : ℕ
  pub share_token : ℕ
  pub order_type : OrderType
  pub order_creator : ℕ
  pub order_state : OrderState
  pub price : N
  pub amount : N
  pub original_amount : N
  pub full_precision_price : N
  pub full_precision_amount : N
  pub original_full_precision_amount : N
  pub original_tokens_escrowed : N
  pub original_shares_escrowed : N
  pub tokens_escrowed : N
  pub shares_escrowed : N
  pub trade_group_id : ℕ
  pub block_number : ℕ
  pub transaction_hash : ℕ
  pub log_index : ℕ

-- `orders_canceled`
pub record CanceledRow : Type 0 where
  pub order_id : ℕ
  pub transaction_hash : ℕ
  pub log_index : ℕ
  pub block_number : ℕ

-- `pending_orphan_checks`
pub record OrphanCheckRow : Type 0 where
  pub market_id : ℕ
  pub outcome : ℕ
  pub order_type : OrderType

pub record OutcomeRow (N : Type 0) : Type 0 where
  pub market_id : ℕ
  pub outcome : ℕ
  pub price : N
  pub volume : N
  pub share_volume : N

-- `trades`
pub record TradeRow (N : Type 0) : Type 0 where
  pub market_id : ℕ
  pub outcome : ℕ
  pub order_id : ℕ
  pub creator : ℕ
  pub order_type : OrderType
  pub filler : ℕ
  pub share_token : ℕ
  pub block_number : ℕ
  pub transaction_hash : ℕ
  pub log_index : ℕ
  pub trade_group_id : ℕ
  pub num_creator_tokens : N
  pub num_creator_shares : N
  pub num_filler_tokens : N
  pub num_filler_shares : N
  pub price : N
  pub amount : N
  pub market_creator_fees : N
  pub reporter_fees : N

-- `completeSets`; the event's name is whether the sets were purchased.
pub record CompleteSetsRow (N : Type 0) : Type 0 where
  pub market_id : ℕ
  pub account : ℕ
  pub block_number : ℕ
  pub universe : ℕ
  pub is_purchase : Bool
  pub transaction_hash : ℕ
  pub log_index : ℕ
  pub num_complete_sets : N
  pub num_purchased_or_sold : N

-- `trading_proceeds`
pub record TradingProceedsRow (N : Type 0) : Type 0 where
  pub market_id : ℕ
  pub share_token : ℕ
  pub account : ℕ
  pub num_shares : N
  pub num_payout_tokens : N
  pub block_number : ℕ
  pub transaction_hash : ℕ
  pub log_index : ℕ

pub record MarketRow (N : Type 0) : Type 0 where
  pub market_id : ℕ
  pub universe : ℕ
  pub min_price : N
  pub max_price : N
  pub num_ticks : N
  pub market_state_id : Option ℕ
  pub fee_window : ℕ
  pub end_time : ℕ
  pub initial_report_size : Option N
  pub finalization_block_number : Option ℕ
  pub forking : ℕ
  pub needs_migration : ℤ
  pub needs_disavowal : ℤ
  pub dispute_rounds : Option ℕ
  pub market_creator_mailbox : ℕ
  pub market_creator_mailbox_owner : ℕ
  pub market_creator_fees_balance : N
  pub category : Option ℕ
  pub open_interest : N
  pub volume : N
  pub share_volume : N
  pub shares_outstanding : N
  pub last_trade_block_number : Option ℕ

-- `market_state`, whose ids the database generates.
pub record MarketStateRow : Type 0 where
  pub market_state_id : ℕ
  pub market_id : ℕ
  pub reporting_state : ReportingState
  pub block_number : ℕ

pub record BlockRow : Type 0 where
  pub block_number : ℕ
  pub block_hash : ℕ
  pub timestamp : ℕ
  pub bulk_sync : Bool

-- `transactionHashes`
pub record TransactionHashRow : Type 0 where
  pub block_number : ℕ
  pub transaction_hash : ℕ
  pub removed : Bool

pub record FeeWindowRow : Type 0 where
  pub fee_window : ℕ
  pub universe : ℕ
  pub start_time : ℕ
  pub end_time : ℕ
  pub state : FeeWindowState
  pub fee_token : ℕ

pub record UniverseRow : Type 0 where
  pub universe : ℕ
  pub parent_universe : Option ℕ
  pub payout_id : ℕ
  pub reputation_token : ℕ
  pub forked : Bool

-- `payout0` to `payout7` are a list.
pub record PayoutRow (N : Type 0) : Type 0 where
  pub payout_id : ℕ
  pub market_id : ℕ
  pub is_invalid : Bool
  pub payout : List (Option N)
  pub tentative_winning : ℕ
  pub winning : Option ℕ

pub record InitialReportRow (N : Type 0) : Type 0 where
  pub market_id : ℕ
  pub initial_reporter : ℕ
  pub reporter : ℕ
  pub is_designated_reporter : Bool
  pub amount_staked : N
  pub payout_id : ℕ
  pub redeemed : Bool
  pub disavowed : ℕ
  pub block_number : ℕ
  pub transaction_hash : ℕ
  pub log_index : ℕ

-- A contribution to a crowdsourcer.
pub record DisputeRow (N : Type 0) : Type 0 where
  pub crowdsourcer_id : ℕ
  pub reporter : ℕ
  pub amount_staked : N
  pub block_number : ℕ
  pub transaction_hash : ℕ
  pub log_index : ℕ

-- `crowdsourcer_redeemed` and `participation_token_redeemed`
pub record RedeemedRow (N : Type 0) : Type 0 where
  pub reporter : ℕ
  pub redeemed_from : ℕ
  pub amount_redeemed : N
  pub rep_received : Option N
  pub reporting_fees_received : N
  pub block_number : ℕ
  pub transaction_hash : ℕ
  pub log_index : ℕ

pub record CrowdsourcerRow (N : Type 0) : Type 0 where
  pub crowdsourcer_id : ℕ
  pub market_id : ℕ
  pub fee_window : ℕ
  pub size : N
  pub payout_id : ℕ
  pub completed : Option Bool
  pub disavowed : ℤ
  pub amount_staked : N
  pub block_number : ℕ
  pub transaction_hash : ℕ
  pub log_index : ℕ

-- `categories`; the name of a category is a number.
pub record CategoryRow (N : Type 0) : Type 0 where
  pub category : ℕ
  pub universe : ℕ
  pub open_interest : N
  pub non_finalized_open_interest : N

-- `outcome_value_timeseries`
pub record OutcomeValueRow (N : Type 0) : Type 0 where
  pub market_id : ℕ
  pub transaction_hash : ℕ
  pub block_number : ℕ
  pub log_index : ℕ
  pub outcome : ℕ
  pub value : N
  pub timestamp : ℕ

pub record Db (N : Type 0) : Type 0 where
  pub transfers : List (TransferRow N)
  pub approvals : List (ApprovalRow N)
  pub balances : List (BalanceRow N)
  pub token_supply : List (SupplyRow N)
  pub profit_loss : List (ProfitLossRow N)
  pub tokens : List TokenRow
  pub orders : List (OrderRow N)
  pub orders_canceled : List CanceledRow
  pub pending_orphan_checks : List OrphanCheckRow
  pub pending_liquidity_updates : List ℕ
  pub outcomes : List (OutcomeRow N)
  pub markets : List (MarketRow N)
  pub market_states : List MarketStateRow
  pub next_market_state_id : ℕ
  -- `overrideTimestamp` of the row of `network_id`
  pub override_timestamp : Option ℕ
  pub blocks : List BlockRow
  pub transaction_hashes : List TransactionHashRow
  pub fee_windows : List FeeWindowRow
  pub universes : List UniverseRow
  pub payouts : List (PayoutRow N)
  pub next_payout_id : ℕ
  pub crowdsourcers : List (CrowdsourcerRow N)
  pub initial_reports : List (InitialReportRow N)
  pub disputes : List (DisputeRow N)
  pub crowdsourcer_redeemed : List (RedeemedRow N)
  pub participation_token_redeemed : List (RedeemedRow N)
  pub categories : List (CategoryRow N)
  pub outcome_values : List (OutcomeValueRow N)
  pub trades : List (TradeRow N)
  pub complete_sets : List (CompleteSetsRow N)
  pub trading_proceeds : List (TradingProceedsRow N)

abbrev pub empty_db : {N : Type 0} → Db N
empty_db = record {
  transfers = [];
  approvals = [];
  balances = [];
  token_supply = [];
  profit_loss = [];
  tokens = [];
  orders = [];
  orders_canceled = [];
  pending_orphan_checks = [];
  pending_liquidity_updates = [];
  outcomes = [];
  markets = [];
  market_states = [];
  next_market_state_id = 1;
  override_timestamp = none;
  blocks = [];
  transaction_hashes = [];
  fee_windows = [];
  universes = [];
  payouts = [];
  next_payout_id = 1;
  crowdsourcers = [];
  initial_reports = [];
  disputes = [];
  crowdsourcer_redeemed = [];
  participation_token_redeemed = [];
  categories = [];
  outcome_values = [];
  trades = [];
  complete_sets = [];
  trading_proceeds = [];
}
