-- ===== src/ProfitSeries/Results.antt =====
-- The profit and loss of a position at a time, and sums of such results
-- (src/server/getters/get-profit-loss.ts). A lookup by market and outcome in the prices of a day ago
-- is a function to an optional value; an outcome that is not in the list of values has the value
-- `undefined`, and reading its price throws.
use augur_node.Prelude.{
  ℕ, zero, suc, ◌+◌, true, not, ◌==◌, Option, none, some, List, [], ◌∷◌, leb, if◌then◌else◌, Result,
  ok, err, ◌>>=◌,
}
use augur_node.Prelude.Tables.{first_where, select_where}
use augur_node.BigNumber.{BigNumber}
use augur_node.Quantity.{
  Quantity, QuantityError, new_quantity, shares, price, tokens, minus, safe_percent,
}
use augur_node.FinancialMath.{
  get_trade_price, get_unrealized_cost, get_unrealized_revenue, get_unrealized_profit,
  get_total_cost, get_total_profit, get_realized_profit_percent, get_unrealized_profit_percent,
  get_total_profit_percent, of_position, of_unrealized, of_realized, of_total,
}

pub data SeriesError : Type 0 where
  thrown : QuantityError → SeriesError
  value_of_undefined : SeriesError

abbrev pub in_series : {A : Type 0} → Result QuantityError A → Result SeriesError A
in_series (err e) = err (thrown e)
in_series (ok a) = ok a

-- `ProfitLossTimeseries`, with the columns that are read here.
pub record PositionRow (N : Type 0) : Type 0 where
  pub market_id : ℕ
  pub outcome : ℕ
  pub timestamp : ℕ
  pub num_outcomes : ℕ
  pub price : N
  pub position : N
  pub profit : N
  pub realized_cost : N
  pub min_price : N
  pub max_price : N
  pub frozen_funds : N

pub record OutcomeValue (N : Type 0) : Type 0 where
  pub outcome : ℕ
  pub value : N

pub record ProfitLossResult (N : Type 0) : Type 0 where
  pub market_id : ℕ
  pub outcome : ℕ
  pub timestamp : ℕ
  pub net_position : N
  pub realized : N
  pub unrealized : N
  pub total : N
  pub average_price : N
  pub unrealized_cost : N
  pub realized_cost : N
  pub total_cost : N
  pub realized_percent : N
  pub unrealized_percent : N
  pub total_percent : N
  pub unrealized_revenue : N
  pub frozen_funds : N
  pub last_trade_price : N
  pub last_trade_price_24h_ago : N
  pub last_trade_price_24h_change_percent : N
  pub unrealized_revenue_24h_ago : N
  pub unrealized_revenue_24h_change_percent : N

-- Stable, as `_.sortBy` is.
unfoldable pub insert_by_outcome :
    {N : Type 0} → ProfitLossResult N → List (ProfitLossResult N) → List (ProfitLossResult N)
insert_by_outcome r [] = r ∷ []
insert_by_outcome r (x ∷ rest) =
    let later = insert_by_outcome r rest in
    if leb r.outcome x.outcome then r ∷ x ∷ rest else x ∷ later

unfoldable pub sort_by_outcome :
    {N : Type 0} → List (ProfitLossResult N) → List (ProfitLossResult N)
sort_by_outcome [] = []
sort_by_outcome (r ∷ rest) = insert_by_outcome r (sort_by_outcome rest)

module _ (bn : BigNumber) where
  open bn use {Num, zero_bn, one_bn, plus, divided_by, eq}

  abbrev pub zero_or : Option Num → Num
  zero_or none = zero_bn
  zero_or (some p) = p

  abbrev pub value_or_throw : Option Num → Result SeriesError Num
  value_or_throw none = err value_of_undefined
  value_or_throw (some p) = ok p

  unfoldable pub value_of : ℕ → List Num → Option Num
  value_of outcome [] = none
  value_of zero (v ∷ values) = some v
  value_of (suc outcome) (v ∷ values) = value_of outcome values

  -- `lastTradePriceMinusMinPrice`
  abbrev pub last_price : Option (List Num) → PositionRow Num → Result SeriesError (Quantity Num)
  last_price none pl = ok (new_quantity price zero_bn)
  last_price (some values) pl = do
    value ← value_or_throw (value_of pl.outcome values)
    in_series (minus bn (new_quantity price value) (new_quantity price pl.min_price))

  -- `oldest || 24hAgo`
  abbrev pub reference_price : Option Num → Num → Num
  reference_price none ago = ago
  reference_price (some oldest) ago = oldest

  -- The result for one row, from its last price, the price of a day ago and the oldest price that
  -- was paid within a day.
  unfoldable pub profit_result :
      Quantity Num
      → Num
      → Option Num
      → PositionRow Num
      → Result QuantityError (ProfitLossResult Num)
  profit_result last ago oldest pl = do
    let lo = new_quantity price pl.min_price
    let hi = new_quantity price pl.max_price
    let net = new_quantity shares pl.position
    let average = new_quantity price pl.price
    let realized_cost = new_quantity tokens pl.realized_cost
    let realized_profit = new_quantity tokens pl.profit
    average_trade_price ← get_trade_price bn lo average
    unrealized_cost ← get_unrealized_cost bn lo hi net average
    unrealized_revenue ← get_unrealized_revenue bn lo hi net last
    unrealized_profit ← get_unrealized_profit bn lo hi net average last
    total_cost ← get_total_cost bn lo hi net average realized_cost
    total_profit ← get_total_profit bn lo hi net average last realized_profit
    realized_percent ← get_realized_profit_percent bn realized_cost realized_profit
    unrealized_percent ← get_unrealized_profit_percent bn (of_position lo hi net average last)
    total_percent ←
        get_total_profit_percent bn
          (of_realized lo hi net average last realized_cost realized_profit)
    last_trade_price ← get_trade_price bn lo last
    last_trade_price_ago ← get_trade_price bn lo (new_quantity price ago)
    price_change ← safe_percent bn (some last) (some (new_quantity price ago)) true
    revenue_ago ←
        get_unrealized_revenue bn lo hi net (new_quantity price (reference_price oldest ago))
    revenue_change ← safe_percent bn (some unrealized_revenue) (some revenue_ago) true
    ok (record {
      market_id = pl.market_id;
      outcome = pl.outcome;
      timestamp = pl.timestamp;
      net_position = pl.position;
      realized = pl.profit;
      unrealized = unrealized_profit.magnitude;
      total = total_profit.magnitude;
      average_price = average_trade_price.magnitude;
      unrealized_cost = unrealized_cost.magnitude;
      realized_cost = pl.realized_cost;
      total_cost = total_cost.magnitude;
      realized_percent = realized_percent.magnitude;
      unrealized_percent = unrealized_percent.magnitude;
      total_percent = total_percent.magnitude;
      unrealized_revenue = unrealized_revenue.magnitude;
      frozen_funds = pl.frozen_funds;
      last_trade_price = last_trade_price.magnitude;
      last_trade_price_24h_ago = last_trade_price_ago.magnitude;
      last_trade_price_24h_change_percent = price_change.magnitude;
      unrealized_revenue_24h_ago = revenue_ago.magnitude;
      unrealized_revenue_24h_change_percent = revenue_change.magnitude;
    })

  unfoldable pub unsorted_results :
      Option (List Num)
      → (ℕ → ℕ → Option Num)
      → (ℕ → ℕ → Option Num)
      → List (PositionRow Num)
      → Result SeriesError (List (ProfitLossResult Num))
  unsorted_results values ago oldest [] = ok []
  unsorted_results values ago oldest (pl ∷ pls) = do
    last ← last_price values pl
    result ← in_series (
        profit_result last (zero_or (ago pl.market_id pl.outcome)) (oldest pl.market_id pl.outcome)
          pl)
    rest ← unsorted_results values ago oldest pls
    ok (result ∷ rest)

  unfoldable pub get_profit_results_for_timestamp :
      Option (List Num)
      → (ℕ → ℕ → Option Num)
      → (ℕ → ℕ → Option Num)
      → List (PositionRow Num)
      → Result SeriesError (List (ProfitLossResult Num))
  get_profit_results_for_timestamp values ago oldest pls = do
    results ← unsorted_results values ago oldest pls
    ok (sort_by_outcome results)

  -- The value of an outcome at the timestamp, where there is one; the default value is zero.
  abbrev pub found_value : Option (OutcomeValue Num) → Num
  found_value none = zero_bn
  found_value (some v) = v.value

  -- `_.reduce(_.range(numOutcomes), ...)`, from an outcome on.
  unfoldable pub sorted_values : List (OutcomeValue Num) → ℕ → ℕ → List Num
  sorted_values values outcome zero = []
  sorted_values values outcome (suc n) =
      found_value (first_where (λ v. v.outcome == outcome) values)
      ∷ sorted_values values (outcome + 1) n

  unfoldable pub non_zero : List (PositionRow Num) → List (PositionRow Num)
  non_zero pls = select_where (λ pl. not (eq pl.position zero_bn)) pls

  -- The values that are handed over, from the rows with a position.
  abbrev pub values_for : List (OutcomeValue Num) → List (PositionRow Num) → Option (List Num)
  values_for values [] = none
  values_for values (pl ∷ rest) = some (sorted_values values 0 pl.num_outcomes)

  -- `getProfitResultsForMarket` at one timestamp; a market without values has none there.
  unfoldable pub get_profit_results_for_market :
      List (OutcomeValue Num)
      → (ℕ → ℕ → Option Num)
      → (ℕ → ℕ → Option Num)
      → List (PositionRow Num)
      → Result SeriesError (List (ProfitLossResult Num))
  get_profit_results_for_market values ago oldest pls =
      get_profit_results_for_timestamp (values_for values (non_zero pls)) ago oldest pls

  unfoldable pub sum_profit_loss_results :
      ProfitLossResult Num → ProfitLossResult Num → Result QuantityError (ProfitLossResult Num)
  sum_profit_loss_results left right = do
    let realized = plus left.realized right.realized
    let unrealized = plus left.unrealized right.unrealized
    let unrealized_cost = plus left.unrealized_cost right.unrealized_cost
    let realized_cost = plus left.realized_cost right.realized_cost
    let total_cost = plus left.total_cost right.total_cost
    let total = plus realized unrealized
    unrealized_percent ←
        get_unrealized_profit_percent bn
          (of_unrealized (new_quantity tokens unrealized_cost) (new_quantity tokens unrealized))
    realized_percent ←
        get_realized_profit_percent bn (new_quantity tokens realized_cost)
          (new_quantity tokens realized)
    total_percent ←
        get_total_profit_percent bn
          (of_total (new_quantity tokens total_cost) (new_quantity tokens total))
    ok (record left {
      net_position = plus left.net_position right.net_position;
      average_price = divided_by (plus left.average_price right.average_price) (plus one_bn one_bn);
      realized = realized;
      unrealized = unrealized;
      total = total;
      unrealized_cost = unrealized_cost;
      realized_cost = realized_cost;
      total_cost = total_cost;
      unrealized_percent = unrealized_percent.magnitude;
      realized_percent = realized_percent.magnitude;
      total_percent = total_percent.magnitude;
      unrealized_revenue = plus left.unrealized_revenue right.unrealized_revenue;
    })

  -- `_.reduce(results, (left, right) => sumProfitLossResults(left, right))`
  unfoldable pub sum_from :
      ProfitLossResult Num
      → List (ProfitLossResult Num)
      → Result QuantityError (ProfitLossResult Num)
  sum_from left [] = ok left
  sum_from left (right ∷ rest) = do sum ← sum_profit_loss_results left right; sum_from sum rest
