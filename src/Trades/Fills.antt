-- ===== src/Trades/Fills.antt =====
-- Filled orders (src/blockchain/log-processors/order-filled/index.ts).
use augur_node.Prelude.{ℕ, Bool, true, false, none, some, ◌==◌, if◌then◌else◌, ok}
use augur_node.Prelude.Tables.{first_where, delete_where, insert_row}
use augur_node.BigNumber.{BigNumber}
use augur_node.Database.{
  Action, MarketRow, TradeRow, OrderRow, OrderType, buy, sell, pure, gets, or_throw, modify, emit,
  ◌>>=◌, ◌>>◌, log_event, order_filled, market_not_found, token_not_found, order_not_found,
}
use augur_node.Blocks.{get_current_time}
use augur_node.Orders.{
  OrderNumbers, is_order, market_of, fixed_point_to_decimal, update_order, await_liquidity_update,
}
use augur_node.Tokens.{update_profit_loss_remove_row}
use augur_node.ProfitLoss.{TradeData, update_profit_loss}
use augur_node.Reporting.Markets.{remove_outcome_value}
use augur_node.Trades.{is_trade, tick_size_of, update_volumetrics}

-- The fields of an OrderFilled log. Its numerals are read as numbers.
pub record OrderFilledLog (N : Type 0) : Type 0 where
  pub share_token : ℕ
  pub filler : ℕ
  pub order_id : ℕ
  pub trade_group_id : ℕ
  pub amount_filled : N
  pub num_creator_tokens : N
  pub num_creator_shares : N
  pub num_filler_tokens : N
  pub num_filler_shares : N
  pub market_creator_fees : N
  pub reporter_fees : N
  pub block_number : ℕ
  pub transaction_hash : ℕ
  pub log_index : ℕ

module _ (bn : BigNumber) where
  open bn use {Num, negated}

  unfoldable pub update_outcome_value_from_orders : ℕ → ℕ → ℕ → ℕ → ℕ → Num → Action Num (Unit {0})
  update_outcome_value_from_orders market_id outcome transaction_hash block_number log_index value
        w =
      (
        ok tt,
        record w {
          db = record (w.db) {
            outcome_values =
                insert_row
                  (record {
                    market_id = market_id;
                    transaction_hash = transaction_hash;
                    block_number = block_number;
                    log_index = log_index;
                    outcome = outcome;
                    value = value;
                    timestamp = get_current_time w;
                  })
                  w.db.outcome_values;
          };
        },
      )

  abbrev pub is_not_finalized : MarketRow Num → Bool
  is_not_finalized m = elim m.finalization_block_number [ none ↦ true | some b ↦ false ]

  abbrev pub signed_for : OrderType → OrderType → Num → Num
  signed_for buy buy amount = amount
  signed_for buy sell amount = negated amount
  signed_for sell sell amount = amount
  signed_for sell buy amount = negated amount

  abbrev pub to_display : OrderNumbers Num → MarketRow Num → Num → Num
  to_display on m amount =
      on.convert_on_chain_amount_to_display_amount amount (tick_size_of bn on m)

  abbrev pub to_ether : OrderNumbers Num → Num → Num
  to_ether on amount = fixed_point_to_decimal bn on amount on.wei_per_ether

  -- `tradesRowBigNumber`
  abbrev pub trade_row :
      OrderNumbers Num → OrderFilledLog Num → ℕ → MarketRow Num → OrderRow Num → TradeRow Num
  trade_row on log outcome m order = record {
    market_id = m.market_id;
    outcome = outcome;
    order_id = log.order_id;
    creator = order.order_creator;
    order_type = order.order_type;
    filler = log.filler;
    share_token = log.share_token;
    block_number = log.block_number;
    transaction_hash = log.transaction_hash;
    log_index = log.log_index;
    trade_group_id = log.trade_group_id;
    num_creator_tokens = to_ether on log.num_creator_tokens;
    num_creator_shares = to_display on m log.num_creator_shares;
    num_filler_tokens = to_ether on log.num_filler_tokens;
    num_filler_shares = to_display on m log.num_filler_shares;
    price = order.full_precision_price;
    amount = to_display on m log.amount_filled;
    market_creator_fees = to_ether on log.market_creator_fees;
    reporter_fees = to_ether on log.reporter_fees;
  }

  abbrev pub trade_data : TradeRow Num → TradeData Num
  trade_data t = record {
    order_type = t.order_type;
    order_creator = t.creator;
    order_filler = t.filler;
    trade_price = t.price;
    num_creator_tokens = t.num_creator_tokens;
    num_creator_shares = t.num_creator_shares;
    num_filler_tokens = t.num_filler_tokens;
    num_filler_shares = t.num_filler_shares;
  }

  -- The profit and loss of one side of a trade.
  abbrev pub side_profit_loss : TradeRow Num → OrderType → ℕ → Action Num (Unit {0})
  side_profit_loss t side account =
      update_profit_loss bn t.market_id (signed_for side t.order_type t.amount) account t.outcome
        t.price t.transaction_hash t.block_number t.log_index (some (trade_data t))

  -- What follows the reads of an OrderFilled log.
  abbrev pub fill : OrderNumbers Num → MarketRow Num → TradeRow Num → Action Num (Unit {0})
  fill on m t = do
    emit (log_event order_filled t.transaction_hash t.log_index)
    modify (λ db. record db { trades = insert_row t db.trades })
    update_volumetrics bn on t.market_id t.outcome t.block_number t.order_id (tick_size_of bn on m)
        true
    update_order bn on t.market_id t.order_id t.amount t.price t.num_creator_shares
        t.num_creator_tokens
    (if is_not_finalized m
        then update_outcome_value_from_orders t.market_id t.outcome t.transaction_hash
            t.block_number t.log_index t.price
        else pure tt)
    side_profit_loss t buy t.creator
    side_profit_loss t sell t.filler
    await_liquidity_update t.market_id

  unfoldable pub process_order_filled_log :
      OrderNumbers Num → OrderFilledLog Num → Action Num (Unit {0})
  process_order_filled_log on log = do
    token ← gets (λ db. first_where (λ r. r.contract_address == log.share_token) db.tokens)
    token_row ← or_throw token token_not_found
    market ← gets (λ db. market_of token_row.market_id db.markets)
    m ← or_throw market market_not_found
    order_row ← gets (λ db. first_where (is_order log.order_id) db.orders)
    order ← or_throw order_row order_not_found
    fill on m (trade_row on log token_row.outcome m order)

  -- `updateLiquidityMetricsForMarketAndOutcomes` is an argument.
  abbrev pub unfill :
      OrderNumbers Num
      → (ℕ → Action Num (Unit {0}))
      → MarketRow Num
      → TradeRow Num
      → Action Num (Unit {0})
  unfill on update_liquidity m t = do
    update_volumetrics bn on t.market_id t.outcome t.block_number t.order_id (tick_size_of bn on m)
        false
    modify (λ db. record db {
      trades = delete_where (is_trade t.market_id t.outcome t.order_id t.block_number) db.trades;
    })
    update_order bn on t.market_id t.order_id (negated t.amount) t.price
        (negated t.num_creator_shares) (negated t.num_creator_tokens)
    emit (log_event order_filled t.transaction_hash t.log_index)
    remove_outcome_value bn t.transaction_hash
    update_profit_loss_remove_row bn t.transaction_hash
    update_liquidity t.market_id

  -- The join of the token with its market.
  unfoldable pub process_order_filled_log_removal :
      OrderNumbers Num → (ℕ → Action Num (Unit {0})) → OrderFilledLog Num → Action Num (Unit {0})
  process_order_filled_log_removal on update_liquidity log = do
    token ← gets (λ db. first_where (λ r. r.contract_address == log.share_token) db.tokens)
    token_row ← or_throw token token_not_found
    market ← gets (λ db. market_of token_row.market_id db.markets)
    m ← or_throw market token_not_found
    order_row ← gets (λ db. first_where (is_order log.order_id) db.orders)
    order ← or_throw order_row order_not_found
    unfill on update_liquidity m (trade_row on log token_row.outcome m order)
