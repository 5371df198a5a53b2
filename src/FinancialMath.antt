-- ===== src/FinancialMath.antt =====
-- The financial formulas of src/utils/financial-math.ts, over quantities that check their dimensions
-- at run time. A parameter object of the source is the row of its fields, in the order in which the
-- source's type names them; a result object with one field is that field.
pub mod SharePrices
pub mod Magnitudes
pub mod Profits
pub mod Positions
mod Signs
mod Averages
pub mod Costs
pub mod CostBasis
mod Tests
use augur_node.Prelude.{Bool, true, false, not, ◌||◌, Result, ok, ◌>>=◌, ◌>>◌, if◌then◌else◌}
use augur_node.BigNumber.{BigNumber}
use augur_node.Quantity.{
  Quantity, QuantityError, new_quantity, shares, price, tokens, percent, multiplied_by, divided_by,
  plus, minus, quantity_is_zero, quantity_gt, abs, negated, min, expect,
}

-- `PositionType`
pub data PositionType : Type 0 where
  closed long short : PositionType

-- `TradeBuyOrSell`
pub data TradeBuyOrSell : Type 0 where
  buy sell : TradeBuyOrSell

-- `TradePriceMinusMinPrice | TradePrice`
pub data TradePriceParam (N : Type 0) : Type 0 where
  of_minus_min_price : Quantity N → TradePriceParam N
  of_trade_price : Quantity N → TradePriceParam N

-- `a.sign === b.sign`
abbrev pub same_sign : Bool → Bool → Bool
same_sign true b = b
same_sign false b = not b

-- The parameters of `getUnrealizedProfitPercent` and of `getTotalProfitPercent`, each of two kinds.
-- A position is its market's least and greatest price, its size, its average price and the last
-- price.
pub data UnrealizedParams (N : Type 0) : Type 0 where
  of_position : Quantity N → Quantity N → Quantity N → Quantity N → Quantity N → UnrealizedParams N
  of_unrealized : Quantity N → Quantity N → UnrealizedParams N

pub data TotalParams (N : Type 0) : Type 0 where
  of_realized :
      Quantity N
      → Quantity N
      → Quantity N
      → Quantity N
      → Quantity N
      → Quantity N
      → Quantity N
      → TotalParams N
  of_total : Quantity N → Quantity N → TotalParams N

module _ (bn : BigNumber) where
  open bn use {Num, zero_bn, one_bn, is_negative}

  abbrev Q : Type 0
  Q = Quantity Num

  abbrev R : Type 0
  R = Result QuantityError Q

  abbrev sign_eq : Q → Q → Bool
  sign_eq a b = same_sign (is_negative a.magnitude) (is_negative b.magnitude)

  pub get_position_type : Q → PositionType
  unfolding quantity_is_zero
  get_position_type net_position =
      if quantity_is_zero bn net_position
      then closed
      else (if is_negative net_position.magnitude then short else long)

  pub get_trade_price : Q → Q → R
  get_trade_price market_min_price trade_price_minus_min_price =
      plus bn market_min_price trade_price_minus_min_price

  pub get_trade_price_minus_min_price : Q → Q → R
  get_trade_price_minus_min_price market_min_price trade_price =
      minus bn trade_price market_min_price

  abbrev pub trade_price_of : Q → TradePriceParam Num → R
  trade_price_of market_min_price (of_trade_price p) = ok p
  trade_price_of market_min_price (of_minus_min_price p) = get_trade_price market_min_price p

  abbrev pub minus_min_price_of : Q → TradePriceParam Num → R
  minus_min_price_of market_min_price (of_minus_min_price p) = ok p
  minus_min_price_of market_min_price (of_trade_price p) =
      get_trade_price_minus_min_price market_min_price p

  pub get_share_price : Q → Q → PositionType → TradePriceParam Num → R
  unfolding get_trade_price get_trade_price_minus_min_price
  get_share_price market_min_price market_max_price closed p = ok (new_quantity price zero_bn)
  get_share_price market_min_price market_max_price short p = do
    trade ← trade_price_of market_min_price p
    minus bn market_max_price trade
  get_share_price market_min_price market_max_price long p = minus_min_price_of market_min_price p

  pub get_share_price_for_position : Q → Q → Q → Q → R
  unfolding get_share_price get_position_type
  get_share_price_for_position market_min_price market_max_price net_position p =
      get_share_price market_min_price market_max_price (get_position_type net_position)
        (of_minus_min_price p)

  pub get_next_net_position : Q → Q → R
  get_next_net_position net_position trade_position_delta =
      plus bn net_position trade_position_delta

  pub get_trade_quantity_closed : Q → Q → R
  unfolding quantity_is_zero
  get_trade_quantity_closed net_position trade_position_delta =
      if quantity_is_zero bn trade_position_delta || sign_eq trade_position_delta net_position
      then ok (new_quantity shares zero_bn)
      else min bn (abs bn net_position) (abs bn trade_position_delta)

  pub get_trade_quantity_opened : Q → Q → R
  unfolding quantity_is_zero
  get_trade_quantity_opened net_position trade_position_delta =
      if quantity_is_zero bn trade_position_delta
      then ok (new_quantity shares zero_bn)
      else (if sign_eq trade_position_delta net_position
          then ok (abs bn trade_position_delta)
          else (do
            reversed ← quantity_gt bn (abs bn trade_position_delta) (abs bn net_position)
            (if reversed
                then (do next ← plus bn trade_position_delta net_position; ok (abs bn next))
                else ok (new_quantity shares zero_bn))))

  pub get_next_average_trade_price : Q → Q → Q → Q → R
  unfolding quantity_is_zero
  get_next_average_trade_price net_position average_price trade_position_delta trade_price = do
    next_net_position ← get_next_net_position net_position trade_position_delta
    (if quantity_is_zero bn next_net_position
        then ok (new_quantity price zero_bn)
        else (if not (sign_eq next_net_position net_position) then ok trade_price else (do
          opened ← get_trade_quantity_opened net_position trade_position_delta
          (if quantity_is_zero bn opened then ok average_price else (do
            weighted ←
                plus bn (multiplied_by bn (abs bn net_position) average_price)
                  (multiplied_by bn (abs bn trade_position_delta) trade_price)
            average ← divided_by bn weighted (abs bn next_net_position)
            expect price average)))))

  pub get_trade_realized_cost_delta : Q → Q → Q → Q → Q → R
  unfolding get_share_price_for_position get_trade_quantity_closed
  get_trade_realized_cost_delta market_min_price market_max_price net_position delta average_price =
      do
        share_price ←
            get_share_price_for_position market_min_price market_max_price net_position
              average_price
        quantity_closed ← get_trade_quantity_closed net_position delta
        expect tokens (multiplied_by bn share_price quantity_closed)

  pub get_next_realized_cost : Q → Q → Q → Q → Q → Q → R
  unfolding get_trade_realized_cost_delta
  get_next_realized_cost market_min_price market_max_price realized_cost net_position delta
        average =
      do
        cost_delta ←
            get_trade_realized_cost_delta market_min_price market_max_price net_position delta
              average
        plus bn realized_cost cost_delta

  pub get_trade_realized_revenue_delta : Q → Q → Q → Q → Q → R
  unfolding get_share_price_for_position get_trade_quantity_closed
  get_trade_realized_revenue_delta market_min_price market_max_price net_position delta
        trade_price =
      do
        share_price ←
            get_share_price_for_position market_min_price market_max_price net_position trade_price
        quantity_closed ← get_trade_quantity_closed net_position delta
        expect tokens (multiplied_by bn share_price quantity_closed)

  pub get_trade_realized_profit_delta : Q → Q → Q → Q → Q → Q → R
  unfolding get_trade_realized_revenue_delta get_trade_realized_cost_delta
  get_trade_realized_profit_delta market_min_price market_max_price net_position delta average
        trade =
      do
        revenue ←
            get_trade_realized_revenue_delta market_min_price market_max_price net_position delta
              trade
        cost ←
            get_trade_realized_cost_delta market_min_price market_max_price net_position delta
              average
        minus bn revenue cost

  pub get_next_realized_profit : Q → Q → Q → Q → Q → Q → Q → R
  unfolding get_trade_realized_profit_delta
  get_next_realized_profit realized_profit market_min_price market_max_price net delta average
        trade =
      do
        profit_delta ←
            get_trade_realized_profit_delta market_min_price market_max_price net delta average
              trade
        plus bn realized_profit profit_delta

  pub get_realized_profit_percent : Q → Q → R
  unfolding quantity_is_zero
  get_realized_profit_percent realized_cost realized_profit =
      if quantity_is_zero bn realized_cost
      then ok (new_quantity percent zero_bn)
      else (do quotient ← divided_by bn realized_profit realized_cost; expect percent quotient)

  pub get_trade_position_delta : TradeBuyOrSell → Q → Q
  get_trade_position_delta buy trade_quantity = trade_quantity
  get_trade_position_delta sell trade_quantity = negated bn trade_quantity

  pub get_unrealized_cost : Q → Q → Q → Q → R
  unfolding get_share_price_for_position
  get_unrealized_cost market_min_price market_max_price net_position average_price = do
    share_price ←
        get_share_price_for_position market_min_price market_max_price net_position average_price
    expect tokens (multiplied_by bn share_price (abs bn net_position))

  pub get_unrealized_revenue : Q → Q → Q → Q → R
  unfolding get_share_price_for_position
  get_unrealized_revenue market_min_price market_max_price net_position last_price = do
    share_price ←
        get_share_price_for_position market_min_price market_max_price net_position last_price
    expect tokens (multiplied_by bn share_price (abs bn net_position))

  pub get_unrealized_profit : Q → Q → Q → Q → Q → R
  unfolding get_unrealized_revenue get_unrealized_cost
  get_unrealized_profit market_min_price market_max_price net_position average_price last_price = do
    revenue ← get_unrealized_revenue market_min_price market_max_price net_position last_price
    cost ← get_unrealized_cost market_min_price market_max_price net_position average_price
    minus bn revenue cost

  -- `getTradeCost`, once the parameters have a `tradePositionDelta`.
  pub get_trade_cost : Q → Q → Q → Q → R
  unfolding get_trade_price_minus_min_price get_unrealized_cost
  get_trade_cost market_min_price market_max_price trade_price trade_position_delta = do
    average_price ← get_trade_price_minus_min_price market_min_price trade_price
    get_unrealized_cost market_min_price market_max_price trade_position_delta average_price

  pub get_total_cost : Q → Q → Q → Q → Q → R
  unfolding get_unrealized_cost
  get_total_cost market_min_price market_max_price net_position average_price realized_cost = do
    unrealized_cost ←
        get_unrealized_cost market_min_price market_max_price net_position average_price
    plus bn unrealized_cost realized_cost

  pub get_total_profit : Q → Q → Q → Q → Q → Q → R
  unfolding get_unrealized_profit
  get_total_profit market_min_price market_max_price net_position average_price last_price
        realized =
      do
        unrealized_profit ←
            get_unrealized_profit market_min_price market_max_price net_position average_price
              last_price
        plus bn unrealized_profit realized

  abbrev pub cost_of : UnrealizedParams Num → R
  cost_of (of_position lo hi net average last) = get_unrealized_cost lo hi net average
  cost_of (of_unrealized cost profit) = ok cost

  abbrev pub profit_of : UnrealizedParams Num → R
  profit_of (of_position lo hi net average last) = get_unrealized_profit lo hi net average last
  profit_of (of_unrealized cost profit) = ok profit

  pub get_unrealized_profit_percent : UnrealizedParams Num → R
  unfolding quantity_is_zero
  get_unrealized_profit_percent params = do
    cost ← cost_of params
    (if quantity_is_zero bn cost then ok (new_quantity percent zero_bn) else (do
      profit ← profit_of params
      quotient ← divided_by bn profit cost
      expect percent quotient))

  abbrev pub total_cost_of : TotalParams Num → R
  total_cost_of (of_realized lo hi net average last cost profit) =
      get_total_cost lo hi net average cost
  total_cost_of (of_total cost profit) = ok cost

  abbrev pub total_profit_of : TotalParams Num → R
  total_profit_of (of_realized lo hi net average last cost profit) =
      get_total_profit lo hi net average last profit
  total_profit_of (of_total cost profit) = ok profit

  pub get_total_profit_percent : TotalParams Num → R
  unfolding quantity_is_zero
  get_total_profit_percent params = do
    cost ← total_cost_of params
    (if quantity_is_zero bn cost then ok (new_quantity percent zero_bn) else (do
      profit ← total_profit_of params
      quotient ← divided_by bn profit cost
      expect percent quotient))

  pub get_total_fees : Q → Q → R
  get_total_fees reporter_fees market_creator_fees = plus bn reporter_fees market_creator_fees

  pub get_total_fee_rate : Q → Q → R
  get_total_fee_rate reporter_fee_rate market_creator_fee_rate =
      plus bn reporter_fee_rate market_creator_fee_rate

  pub get_display_range : Q → Q → R
  get_display_range market_min_price market_max_price = minus bn market_max_price market_min_price

  pub get_trade_cost_including_fees : Q → Q → Q → Q → Q → Q → R
  unfolding get_trade_cost get_total_fees
  get_trade_cost_including_fees min_price max_price trade_price delta reporter_fees creator_fees =
      do
        cost ← get_trade_cost min_price max_price trade_price delta
        fees ← get_total_fees reporter_fees creator_fees
        plus bn cost fees
