-- ===== src/ProfitSeries/Balance.antt =====
-- Results add up (src/server/getters/get-profit-loss.ts).
use augur_node.Prelude.{◌≡◌, refl, sym, ap, ap₂, ◌∙◌, true, Option, some, ok}
use augur_node.BigNumber.{BigNumber, plus-minus, plus_left_comm}
use augur_node.Quantity.{new_quantity, price, tokens, safe_percent}
use augur_node.Quantity.Percents.{safe_percent_lem}
use augur_node.FinancialMath.Profits.{
  get_trade_price_lem, cost_lem, get_unrealized_revenue_lem, get_unrealized_profit_lem,
  get_total_cost_lem, get_total_profit_lem, realized_percent_lem, of_unrealized_lem, of_total_lem,
  of_position_lem, of_realized_lem, value_at, profit_at,
}
use augur_node.ProfitSeries.Results.{
  PositionRow, ProfitLossResult, profit_result, sum_profit_loss_results, reference_price,
}

-- Profits and costs in total are what was realized and what is not; what is not realized is the
-- revenue less the cost.
pub record IsBalanced (bn : BigNumber) (r : ProfitLossResult bn.Num) : Type 0 where
  pub profits : r.total ≡ bn.plus r.realized r.unrealized
  pub costs : r.total_cost ≡ bn.plus r.unrealized_cost r.realized_cost
  pub revenue : bn.plus r.unrealized r.unrealized_cost ≡ r.unrealized_revenue

module _ (bn : BigNumber) where
  open bn use {Num, zero_bn, plus, plus_comm, plus_assoc}

  regroup : (a b c d : Num) → plus (plus a b) (plus c d) ≡ plus (plus a c) (plus b d)
  regroup a b c d =
      plus_assoc a b (plus c d)
      ∙ ap (plus a) (plus_left_comm bn b c d)
      ∙ sym (plus_assoc a c (plus b d))

  -- The sum of two results, from its percents.
  abbrev pub sum_of :
      ProfitLossResult Num → ProfitLossResult Num → Num → Num → Num → ProfitLossResult Num
  sum_of left right unrealized_percent realized_percent total_percent = record left {
    net_position = plus left.net_position right.net_position;
    average_price =
        bn.divided_by (plus left.average_price right.average_price) (plus bn.one_bn bn.one_bn);
    realized = plus left.realized right.realized;
    unrealized = plus left.unrealized right.unrealized;
    total = plus (plus left.realized right.realized) (plus left.unrealized right.unrealized);
    unrealized_cost = plus left.unrealized_cost right.unrealized_cost;
    realized_cost = plus left.realized_cost right.realized_cost;
    total_cost = plus left.total_cost right.total_cost;
    unrealized_percent = unrealized_percent;
    realized_percent = realized_percent;
    total_percent = total_percent;
    unrealized_revenue = plus left.unrealized_revenue right.unrealized_revenue;
  }

  -- The sum of two balanced results.
  pub sum_profit_loss_results_lem :
      (left right : ProfitLossResult Num)
      → IsBalanced bn left
      → IsBalanced bn right
      → (sum : ProfitLossResult Num) × (sum_profit_loss_results bn left right ≡ ok sum)
        × IsBalanced bn sum
        × (sum.total ≡ plus left.total right.total)
  unfolding sum_profit_loss_results
  sum_profit_loss_results_lem left right l r =
      let (x, ex) =
        of_unrealized_lem bn (plus left.unrealized_cost right.unrealized_cost)
          (plus left.unrealized right.unrealized) in
      let (y, ey) =
        realized_percent_lem bn (plus left.realized_cost right.realized_cost)
          (plus left.realized right.realized) in
      let (z, ez) =
        of_total_lem bn (plus left.total_cost right.total_cost)
          (plus (plus left.realized right.realized) (plus left.unrealized right.unrealized)) in
      (
        sum_of left right x y z,
        rw (ex, ey, ez) refl,
        record {
          profits = refl;
          costs =
              ap₂ plus l.costs r.costs
              ∙ regroup left.unrealized_cost left.realized_cost right.unrealized_cost
                  right.realized_cost;
          revenue =
              regroup left.unrealized right.unrealized left.unrealized_cost right.unrealized_cost
              ∙ ap₂ plus l.revenue r.revenue;
        },
        sym (
            ap₂ plus l.profits r.profits
            ∙ regroup left.realized left.unrealized right.realized right.unrealized),
      )

  price_change :
      (p q : Num)
      → (x : _) × (safe_percent bn (some (new_quantity price p)) (some (new_quantity price q)) true
          ≡ ok x)
  price_change p q =
      (_, (safe_percent_lem bn (new_quantity price p) (new_quantity price q) true refl).0 refl)

  tokens_change :
      (p q : Num)
      → (x : _) × (safe_percent bn
            (some (new_quantity tokens p))
            (some (new_quantity tokens q))
            true
          ≡ ok x)
  tokens_change p q =
      (_, (safe_percent_lem bn (new_quantity tokens p) (new_quantity tokens q) true refl).0 refl)

  -- The result of a row, from the numbers that its formulas give.
  abbrev result_of :
      PositionRow Num
      → Num
      → Num
      → Num
      → Num
      → Num
      → Num
      → Num
      → Num
      → Num
      → Num
      → ProfitLossResult Num
  result_of pl last ago cost revenue realized_percent unrealized_percent total_percent change
        revenue_ago revenue_change =
      record {
        market_id = pl.market_id;
        outcome = pl.outcome;
        timestamp = pl.timestamp;
        net_position = pl.position;
        realized = pl.profit;
        unrealized = bn.minus revenue cost;
        total = plus (bn.minus revenue cost) pl.profit;
        average_price = plus pl.min_price pl.price;
        unrealized_cost = cost;
        realized_cost = pl.realized_cost;
        total_cost = plus cost pl.realized_cost;
        realized_percent = realized_percent;
        unrealized_percent = unrealized_percent;
        total_percent = total_percent;
        unrealized_revenue = revenue;
        frozen_funds = pl.frozen_funds;
        last_trade_price = plus pl.min_price last;
        last_trade_price_24h_ago = plus pl.min_price ago;
        last_trade_price_24h_change_percent = change;
        unrealized_revenue_24h_ago = revenue_ago;
        unrealized_revenue_24h_change_percent = revenue_change;
      }

  -- For every row, last price and prices of the past.
  pub profit_result_lem :
      (last ago : Num) (oldest : Option Num) (pl : PositionRow Num)
      → (r : ProfitLossResult Num) × (profit_result bn (new_quantity price last) ago oldest pl
          ≡ ok r)
        × IsBalanced bn r
  unfolding profit_result profit_at
  profit_result_lem last ago oldest pl =
      let lo = pl.min_price in
      let hi = pl.max_price in
      let net = pl.position in
      let average = pl.price in
      let past = reference_price bn oldest ago in
      let (x, ex) = realized_percent_lem bn pl.realized_cost pl.profit in
      let (y, ey) = of_position_lem bn lo hi net average last in
      let (z, ez) = of_realized_lem bn lo hi net average last pl.realized_cost pl.profit in
      let (c, ec) = price_change last ago in
      let (d, ed) =
        tokens_change (value_at bn lo hi net average last last)
          (value_at bn lo hi net average last past) in
      let cost = value_at bn lo hi net average last average in
      let revenue = value_at bn lo hi net average last last in
      (
        result_of pl last ago cost revenue x y z c.magnitude
            (value_at bn lo hi net average last past) d.magnitude,
        rw
            (
              get_trade_price_lem bn lo hi net average last average,
              cost_lem bn lo hi net average last,
            )
            (rw
              (
                get_unrealized_revenue_lem bn lo hi net average last last,
                get_unrealized_profit_lem bn lo hi net average last,
              )
              (rw
                (
                  get_total_cost_lem bn lo hi net average last pl.realized_cost,
                  get_total_profit_lem bn lo hi net average last pl.profit,
                )
                (rw (ex, ey, ez)
                  (rw
                    (
                      get_trade_price_lem bn lo hi net average last last,
                      get_trade_price_lem bn lo hi net average last ago,
                    )
                    (rw ec (
                      rw (get_unrealized_revenue_lem bn lo hi net average last past)
                        (rw ed refl))))))),
        record { profits = plus_comm _ _; costs = refl; revenue = plus-minus bn revenue cost },
      )
