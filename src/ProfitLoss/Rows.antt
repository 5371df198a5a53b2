-- ===== src/ProfitLoss/Rows.antt =====
-- The row that updateProfitLoss writes: frozen funds, the latest row of an account in an outcome, and
-- the columns of its next row (src/blockchain/log-processors/profit-loss/frozen-funds.ts,
-- update-profit-loss.ts).
use augur_node.Prelude.{
  ℕ, Bool, ◌&&◌, ◌||◌, Option, none, some, List, [], ◌∷◌, ◌==◌, ltb, if◌then◌else◌, Result, ok, err,
  ◌>>=◌,
}
use augur_node.BigNumber.{BigNumber}
use augur_node.Quantity.{QuantityError, new_quantity, shares, price, tokens}
use augur_node.FinancialMath.{
  get_trade_price_minus_min_price, get_trade_quantity_opened, get_next_net_position,
  get_next_realized_profit, get_next_realized_cost, get_next_average_trade_price,
  get_trade_realized_profit_delta,
}
use augur_node.Database.{
  ProfitLossRow, MarketRow, OrderType, buy, sell, Error, dimension_error, not_a_trader,
}

pub data LongOrShort : Type 0 where
  long short : LongOrShort

pub data CreatorOrFiller : Type 0 where
  creator filler : CreatorOrFiller

-- The columns of a row of `trades` that profit and loss needs.
pub record TradeData (N : Type 0) : Type 0 where
  pub order_type : OrderType
  pub order_creator : ℕ
  pub order_filler : ℕ
  pub trade_price : N
  pub num_creator_tokens : N
  pub num_creator_shares : N
  pub num_filler_tokens : N
  pub num_filler_shares : N

-- `Trade`: the market's prices, the row, and who the user was in it.
pub record Trade (N : Type 0) : Type 0 where
  pub min_price : N
  pub max_price : N
  pub row : TradeData N
  pub long_or_short : LongOrShort
  pub creator_or_filler : CreatorOrFiller
  pub realized_profit_delta : N

pub data FrozenFundsEvent (N : Type 0) : Type 0 where
  claim_proceeds : FrozenFundsEvent N
  trade : Trade N → FrozenFundsEvent N

abbrev pub shares_sent : {N : Type 0} → CreatorOrFiller → TradeData N → N
shares_sent creator t = t.num_creator_shares
shares_sent filler t = t.num_filler_shares

abbrev pub tokens_sent : {N : Type 0} → CreatorOrFiller → TradeData N → N
tokens_sent creator t = t.num_creator_tokens
tokens_sent filler t = t.num_filler_tokens

-- Long if the user created a buy order or filled a sell order.
abbrev pub long_or_short_of : CreatorOrFiller → OrderType → LongOrShort
long_or_short_of creator buy = long
long_or_short_of creator sell = short
long_or_short_of filler buy = short
long_or_short_of filler sell = long

-- The columns of the next row that formulas compute.
pub record NextColumns (N : Type 0) : Type 0 where
  pub price : N
  pub position : N
  pub quantity_opened : N
  pub profit : N
  pub frozen_funds : N
  pub realized_cost : N

module _ (bn : BigNumber) where
  open bn use {Num, zero_bn, plus, minus, multiplied_by}

  abbrev pub price_received : LongOrShort → Num → Num → Num → Num
  price_received short p min_price max_price = minus p min_price
  price_received long p min_price max_price = minus max_price p

  unfoldable pub get_frozen_funds_after_event_for_one_outcome : Num → FrozenFundsEvent Num → Num
  get_frozen_funds_after_event_for_one_outcome frozen_funds_before_event claim_proceeds = zero_bn
  get_frozen_funds_after_event_for_one_outcome frozen_funds_before_event (trade t) =
      let my_tokens_received =
        multiplied_by (shares_sent t.creator_or_filler t.row)
          (price_received t.long_or_short t.row.trade_price t.min_price t.max_price) in
      plus
        (plus (minus frozen_funds_before_event my_tokens_received)
          (tokens_sent t.creator_or_filler t.row))
        t.realized_profit_delta

  abbrev pub trade_event : Num → Num → Num → TradeData Num → CreatorOrFiller → FrozenFundsEvent Num
  trade_event delta min_price max_price row role = trade (record {
    min_price = min_price;
    max_price = max_price;
    row = row;
    long_or_short = long_or_short_of role row.order_type;
    creator_or_filler = role;
    realized_profit_delta = delta;
  })

  unfoldable pub make_frozen_funds_event :
      ℕ → Num → Num → Num → Option (TradeData Num) → Result Error (FrozenFundsEvent Num)
  make_frozen_funds_event account delta min_price max_price none = ok claim_proceeds
  make_frozen_funds_event account delta min_price max_price (some row) =
      if account == row.order_creator
      then ok (trade_event delta min_price max_price row creator)
      else (if account == row.order_filler
          then ok (trade_event delta min_price max_price row filler)
          else err not_a_trader)

  abbrev pub is_row_of : ℕ → ℕ → ℕ → ProfitLossRow Num → Bool
  is_row_of account market_id outcome r =
      r.account == account && (r.market_id == market_id && r.outcome == outcome)

  -- A row of a later block, or of a later log of one block.
  abbrev pub is_later : ProfitLossRow Num → ProfitLossRow Num → Bool
  is_later a b =
      ltb b.block_number a.block_number
      || (a.block_number == b.block_number && ltb b.log_index a.log_index)

  abbrev pub later_of : ProfitLossRow Num → Option (ProfitLossRow Num) → Option (ProfitLossRow Num)
  later_of r none = some r
  later_of r (some b) = some (if is_later b r then b else r)

  -- `.first(...).orderByRaw("blockNumber DESC, logIndex DESC")`
  pub latest_row : List (ProfitLossRow Num) → Option (ProfitLossRow Num)
  latest_row [] = none
  latest_row (r ∷ rows) = later_of r (latest_row rows)

  abbrev pub column_or_zero : (ProfitLossRow Num → Num) → Option (ProfitLossRow Num) → Num
  column_or_zero f none = zero_bn
  column_or_zero f (some r) = f r

  -- A check of dimensions that fails is thrown.
  abbrev pub checked : {A : Type 0} → Result QuantityError A → Result Error A
  checked (ok q) = ok q
  checked (err e) = err dimension_error

  -- The columns of the row that follows `prev`.
  unfoldable pub next_columns :
      ℕ
      → Num
      → Num
      → Option (TradeData Num)
      → MarketRow Num
      → Option (ProfitLossRow Num)
      → Result Error (NextColumns Num)
  next_columns account delta trade_price trade_data market prev = do
    let min_price = new_quantity price market.min_price
    let max_price = new_quantity price market.max_price
    let position_delta = new_quantity shares delta
    let net_position = new_quantity shares (column_or_zero (λ r. r.position) prev)
    let average = new_quantity price (column_or_zero (λ r. r.price) prev)
    let realized_cost = new_quantity tokens (column_or_zero (λ r. r.realized_cost) prev)
    let realized_profit = new_quantity tokens (column_or_zero (λ r. r.profit) prev)
    minus_min ←
        checked (get_trade_price_minus_min_price bn min_price (new_quantity price trade_price))
    opened ← checked (get_trade_quantity_opened bn net_position position_delta)
    next_position ← checked (get_next_net_position bn net_position position_delta)
    next_profit ← checked (
        get_next_realized_profit bn realized_profit min_price max_price net_position position_delta
          average minus_min)
    next_cost ← checked (
        get_next_realized_cost bn min_price max_price realized_cost net_position position_delta
          average)
    next_average ←
        checked (get_next_average_trade_price bn net_position average position_delta minus_min)
    profit_delta ← checked (
        get_trade_realized_profit_delta bn min_price max_price net_position position_delta average
          minus_min)
    event ←
        make_frozen_funds_event account (profit_delta.magnitude) market.min_price market.max_price
          trade_data
    ok (record {
      price = next_average.magnitude;
      position = next_position.magnitude;
      quantity_opened = opened.magnitude;
      profit = next_profit.magnitude;
      frozen_funds =
          get_frozen_funds_after_event_for_one_outcome (column_or_zero (λ r. r.frozen_funds) prev)
            event;
      realized_cost = next_cost.magnitude;
    })
