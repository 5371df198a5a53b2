-- ===== src/Orders.antt =====
-- Orders: what creating, filling and canceling one does to its row
-- (src/blockchain/log-processors/order-created.ts, order-canceled.ts, order-filled/update-order.ts),
-- with the rounding that they use (src/utils/round-to-precision.ts, format-order.ts,
-- convert-fixed-point-to-decimal.ts).
pub mod Fills
mod Tests
use augur_node.Prelude.{
  ℕ, Bool, true, false, ◌&&◌, not, Option, none, some, List, [], ◌∷◌, ◌==◌, if◌then◌else◌,
}
use augur_node.Prelude.Tables.{first_where, update_where, delete_where, insert_row, count_where}
use augur_node.BigNumber.{BigNumber, is_zero}
use augur_node.Database.{
  Db, World, Action, OrderRow, OrderState, open_order, filled, canceled, OrderType, buy, sell,
  TokenRow, MarketRow, OutcomeRow, OrphanCheckRow, CanceledRow, pure, throw, gets, or_throw, modify,
  emit, ◌>>=◌, ◌>>◌, log_event, order_created, order_canceled, order_not_found, check_failed,
  token_not_found, market_not_found,
}

-- What the code takes from its packages and constants: `toPrecision` to PRECISION.decimals digits and
-- `integerValue`, the augur.js conversions, and the constants of src/constants.ts.
pub record OrderNumbers (N : Type 0) : Type 0 where
  pub to_precision_down : N → N
  pub to_precision_up : N → N
  pub integer_floor : N → N
  pub integer_ceil : N → N
  pub convert_on_chain_amount_to_display_amount : N → N → N
  pub convert_on_chain_price_to_display_price : N → N → N → N
  pub precision_limit : N
  pub precision_zero : N
  pub precision_multiple : N
  pub minimum_trade_size : N
  pub wei_per_ether : N

pub data RoundingMode : Type 0 where
  round_down round_up : RoundingMode

-- The argument `round`.
pub data RoundTo : Type 0 where
  to_floor to_ceil : RoundTo

pub record OrderCreatedLog (N : Type 0) : Type 0 where
  pub order_id : ℕ
  pub amount : N
  pub price : N
  -- `orderType === "0"`
  pub is_buy : Bool
  pub money_escrowed : N
  pub shares_escrowed : N
  pub share_token : ℕ
  pub creator : ℕ
  pub trade_group_id : ℕ
  pub block_number : ℕ
  pub transaction_hash : ℕ
  pub log_index : ℕ

pub record OrderCanceledLog : Type 0 where
  pub order_id : ℕ
  pub block_number : ℕ
  pub transaction_hash : ℕ
  pub log_index : ℕ

abbrev pub order_type_label : Bool → OrderType
order_type_label true = buy
order_type_label false = sell

abbrev pub same_type : OrderType → OrderType → Bool
same_type buy buy = true
same_type buy sell = false
same_type sell buy = false
same_type sell sell = true

abbrev pub is_order : {N : Type 0} → ℕ → OrderRow N → Bool
is_order order_id r = r.order_id == order_id

abbrev pub set_state : {N : Type 0} → OrderState → OrderRow N → OrderRow N
set_state s r = record r { order_state = s }

abbrev pub is_check : OrphanCheckRow → OrphanCheckRow → Bool
is_check row r =
    r.market_id == row.market_id
    && (r.outcome == row.outcome && same_type r.order_type row.order_type)

-- `pendingOrderData`
abbrev pub orphan_check_of : {N : Type 0} → OrderRow N → OrphanCheckRow
orphan_check_of order = record {
  market_id = order.market_id;
  outcome = order.outcome;
  order_type = order.order_type;
}

abbrev pub market_of : Option ℕ → {N : Type 0} → List (MarketRow N) → Option (MarketRow N)
market_of none rows = none
market_of (some id) rows = first_where (λ r. r.market_id == id) rows

module _ {N : Type 0} where
  -- A market waits at most once for its liquidity to be updated.
  pub await_liquidity_update : ℕ → Action N (Unit {0})
  await_liquidity_update market_id = modify (λ db. record db {
    pending_liquidity_updates =
        if count_where (λ m. m == market_id) db.pending_liquidity_updates == 0
        then insert_row market_id db.pending_liquidity_updates
        else db.pending_liquidity_updates;
  })

  pub market_pending_orderbook_updates : OrderRow N → Action N (Unit {0})
  market_pending_orderbook_updates order = do
    modify (λ db. record db {
      pending_orphan_checks =
          if count_where (is_check (orphan_check_of order)) db.pending_orphan_checks == 0
          then insert_row (orphan_check_of order) db.pending_orphan_checks
          else db.pending_orphan_checks;
    })
    await_liquidity_update order.market_id

  pub process_order_canceled_log : OrderCanceledLog → Action N (Unit {0})
  process_order_canceled_log log = do
    modify (λ db. record db {
      orders = update_where (is_order log.order_id) (set_state canceled) db.orders;
    })
    modify (λ db. record db {
      orders_canceled =
          insert_row
            (record {
              order_id = log.order_id;
              transaction_hash = log.transaction_hash;
              log_index = log.log_index;
              block_number = log.block_number;
            })
            db.orders_canceled;
    })
    found ← gets (λ db. first_where (is_order log.order_id) db.orders)
    order ← or_throw found order_not_found
    await_liquidity_update order.market_id
    emit (log_event order_canceled log.transaction_hash log.log_index)

  -- `update_liquidity` is `updateLiquidityMetricsForMarketAndOutcomes`.
  pub process_order_canceled_log_removal :
      (ℕ → Action N (Unit {0})) → OrderCanceledLog → Action N (Unit {0})
  process_order_canceled_log_removal update_liquidity log = do
    modify (λ db. record db {
      orders = update_where (is_order log.order_id) (set_state open_order) db.orders;
    })
    modify (λ db. record db {
      orders_canceled = delete_where (λ r. r.order_id == log.order_id) db.orders_canceled;
    })
    found ← gets (λ db. first_where (is_order log.order_id) db.orders)
    order ← or_throw found order_not_found
    update_liquidity order.market_id
    emit (log_event order_canceled log.transaction_hash log.log_index)

module _ (bn : BigNumber) (on : OrderNumbers (bn.Num)) where
  open bn use {Num, zero_bn, plus, minus, multiplied_by, divided_by, abs, lt}

  abbrev pub to_precision : RoundingMode → Num → Num
  to_precision round_down = on.to_precision_down
  to_precision round_up = on.to_precision_up

  abbrev pub to_integer : RoundTo → Num → Num
  to_integer to_ceil = on.integer_ceil
  to_integer to_floor = on.integer_floor

  -- `roundingMode || BigNumber.ROUND_DOWN`: ROUND_UP is 0, so it gives way as well.
  abbrev pub or_round_down : RoundingMode → RoundingMode
  or_round_down round_down = round_down
  or_round_down round_up = round_down

  -- Without the optional arguments, `roundingMode` is ROUND_DOWN and `round` is not "ceil".
  pub round_to_precision : Num → Num → RoundTo → RoundingMode → Num
  round_to_precision value minimum_value round rounding_mode =
      if lt (abs value) minimum_value
      then zero_bn
      else (if lt (abs value) on.precision_limit
          then to_precision (or_round_down rounding_mode) value
          else divided_by (to_integer round (multiplied_by value on.precision_multiple))
              on.precision_multiple)

  pub format_order_amount : Num → Num
  format_order_amount full_precision_amount =
      round_to_precision full_precision_amount on.minimum_trade_size to_floor round_down

  pub format_order_price : OrderType → Num → Num
  format_order_price buy full_precision_price =
      round_to_precision full_precision_price on.precision_zero to_floor round_down
  format_order_price sell full_precision_price =
      round_to_precision full_precision_price on.precision_zero to_ceil round_up

  pub fixed_point_to_decimal : Num → Num → Num
  fixed_point_to_decimal fixed_point_value conversion_factor =
      divided_by fixed_point_value conversion_factor

  pub num_ticks_to_tick_size : Num → Num → Num → Num
  num_ticks_to_tick_size num_ticks min_price max_price =
      divided_by (minus max_price min_price) num_ticks

  -- The row is written under its CHECKs nonnegativeAmount, nonnegativeTokensEscrowed and
  -- nonnegativeSharesEscrowed.
  abbrev pub passes_checks : OrderRow Num → Bool
  passes_checks r =
      not (lt r.amount zero_bn)
      && (not (lt r.tokens_escrowed zero_bn) && not (lt r.shares_escrowed zero_bn))

  abbrev pub write_order : OrderRow Num → Action Num (Unit {0}) → Action Num (Unit {0})
  write_order r write = if passes_checks r then write else throw check_failed

  -- `orderData`, with the order's id.
  pub order_data : OrderCreatedLog Num → ℕ → ℕ → MarketRow Num → OrderRow Num
  order_data log market_id outcome market =
      let tick_size = num_ticks_to_tick_size market.num_ticks market.min_price market.max_price in
      let full_amount = on.convert_on_chain_amount_to_display_amount log.amount tick_size in
      let full_price =
        on.convert_on_chain_price_to_display_price log.price market.min_price tick_size in
      let shares = on.convert_on_chain_amount_to_display_amount log.shares_escrowed tick_size in
      let tokens = fixed_point_to_decimal log.money_escrowed on.wei_per_ether in
      record {
        order_id = log.order_id;
        market_id = market_id;
        outcome = outcome;
        share_token = log.share_token;
        order_type = order_type_label log.is_buy;
        order_creator = log.creator;
        order_state = open_order;
        price = format_order_price (order_type_label log.is_buy) full_price;
        amount = format_order_amount full_amount;
        original_amount = format_order_amount full_amount;
        full_precision_price = full_price;
        full_precision_amount = full_amount;
        original_full_precision_amount = full_amount;
        original_tokens_escrowed = tokens;
        original_shares_escrowed = shares;
        tokens_escrowed = tokens;
        shares_escrowed = shares;
        trade_group_id = log.trade_group_id;
        block_number = log.block_number;
        transaction_hash = log.transaction_hash;
        log_index = log.log_index;
      }

  abbrev pub upsert_order :
      OrderRow Num → Option (OrderRow Num) → List (OrderRow Num) → List (OrderRow Num)
  upsert_order row none rows = insert_row row rows
  upsert_order row (some r) rows =
      update_where (is_order row.order_id) (λ r. record row { order_id = r.order_id }) rows

  -- The market of a share token names its row, which is looked up by that id.
  pub process_order_created_log : OrderCreatedLog Num → Action Num (Unit {0})
  process_order_created_log log = do
    token ← gets (λ db. first_where (λ r. r.contract_address == log.share_token) db.tokens)
    token_row ← or_throw token token_not_found
    market ← gets (λ db. market_of token_row.market_id db.markets)
    market_row ← or_throw market market_not_found
    found ← gets (λ db. first_where (is_order log.order_id) db.orders)
    write_order (order_data log market_row.market_id token_row.outcome market_row) (
        modify (λ db. record db {
          orders =
              upsert_order (order_data log market_row.market_id token_row.outcome market_row) found
                db.orders;
        }))
    market_pending_orderbook_updates
        (order_data log market_row.market_id token_row.outcome market_row)
    emit (log_event order_created log.transaction_hash log.log_index)

  pub process_order_created_log_removal :
      (ℕ → Action Num (Unit {0})) → OrderCreatedLog Num → Action Num (Unit {0})
  process_order_created_log_removal update_liquidity log = do
    found ← gets (λ db. first_where (is_order log.order_id) db.orders)
    order ← or_throw found order_not_found
    modify (λ db. record db { orders = delete_where (is_order log.order_id) db.orders })
    update_liquidity order.market_id
    emit (log_event order_created log.transaction_hash log.log_index)

  -- The order after a fill: what remains of it.
  abbrev pub remaining : OrderRow Num → Num → Num → Num → OrderRow Num → OrderRow Num
  remaining order amount num_creator_shares num_creator_tokens r = record r {
    order_state =
        (if is_zero bn (minus order.full_precision_amount amount) then filled else open_order);
    full_precision_amount = minus order.full_precision_amount amount;
    amount = format_order_amount (minus order.full_precision_amount amount);
    shares_escrowed = minus order.shares_escrowed num_creator_shares;
    tokens_escrowed = minus order.tokens_escrowed num_creator_tokens;
  }

  abbrev pub set_price : Num → OutcomeRow Num → OutcomeRow Num
  set_price p r = record r { price = p }

  abbrev pub fill_order : ℕ → ℕ → Num → Num → Num → Num → OrderRow Num → Action Num (Unit {0})
  fill_order market_id order_id amount price num_creator_shares num_creator_tokens order = do
    modify (λ db. record db {
      outcomes =
          update_where (λ r. r.market_id == market_id && r.outcome == order.outcome)
            (set_price price) db.outcomes;
    })
    write_order (remaining order amount num_creator_shares num_creator_tokens order) (
        modify (λ db. record db {
          orders =
              update_where (is_order order_id)
                (remaining order amount num_creator_shares num_creator_tokens) db.orders;
        }))

  pub update_order : ℕ → ℕ → Num → Num → Num → Num → Action Num (Unit {0})
  update_order market_id order_id amount price num_creator_shares num_creator_tokens = do
    found ← gets (λ db. first_where (is_order order_id) db.orders)
    order ← or_throw found order_not_found
    fill_order market_id order_id amount price num_creator_shares num_creator_tokens order
