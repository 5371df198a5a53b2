-- ===== src/FinancialMath/CostBasis.antt =====
-- The cost basis of a position, in tokens, as the functions of src/utils/financial-math.ts report it.
use augur_node.Prelude.{◌≡◌, ◌≢◌, refl, ap, ◌∙◌, true, ok}
use augur_node.BigNumber
use augur_node.BigNumber.{BigNumber}
use augur_node.Quantity.{new_quantity, shares, price, tokens, minus, is_equal, negated}
use augur_node.FinancialMath.{
  get_unrealized_cost, get_trade_realized_cost_delta, get_next_average_trade_price,
  get_next_net_position, get_trade_quantity_opened, get_trade_cost, get_trade_price_minus_min_price,
  get_trade_position_delta, buy, sell, get_display_range, get_share_price_for_position,
}
use augur_node.FinancialMath.Magnitudes.{
  same_sign_bn, quantity_closed, quantity_opened, share_price, next_average,
  get_unrealized_cost_lem, get_trade_realized_cost_delta_lem, get_next_average_trade_price_lem,
  get_next_net_position_lem, get_trade_quantity_opened_lem, get_share_price_for_position_lem,
}
use augur_node.FinancialMath.Signs.{share_price_long, share_price_short}
use augur_node.FinancialMath.Averages.{IsAverage}
use augur_node.FinancialMath.Costs.{cost_kept}

module _ (bn : BigNumber) (min_price max_price : bn.Num) where
  open bn use {Num, zero_bn, lt, abs, multiplied_by as times}

  -- For any position and trade: the next position and its average price are defined, and the
  -- unrealized cost of the next position plus the cost that the trade realizes is the unrealized cost
  -- of the old position plus what the shares opened by the trade cost at its share price. Where the
  -- trade is of the sign of the position, the weighted average `q` has to be a number that a division
  -- can represent; a trade of the other sign needs nothing.
  pub cost_basis_kept :
      (net average delta p q : Num)
      → (delta ≢ zero_bn
          → same_sign_bn bn delta net ≡ true
          → IsAverage bn min_price max_price net average delta p q)
      → (next next_price before after realized opened paid : Num) × (get_next_net_position bn
            (new_quantity shares net)
            (new_quantity shares delta)
          ≡ ok (new_quantity shares next))
        × (get_next_average_trade_price bn
              (new_quantity shares net)
              (new_quantity price average)
              (new_quantity shares delta)
              (new_quantity price p)
            ≡ ok (new_quantity price next_price))
        × (get_unrealized_cost bn
              (new_quantity price min_price)
              (new_quantity price max_price)
              (new_quantity shares net)
              (new_quantity price average)
            ≡ ok (new_quantity tokens before))
        × (get_unrealized_cost bn
              (new_quantity price min_price)
              (new_quantity price max_price)
              (new_quantity shares next)
              (new_quantity price next_price)
            ≡ ok (new_quantity tokens after))
        × (get_trade_realized_cost_delta bn
              (new_quantity price min_price)
              (new_quantity price max_price)
              (new_quantity shares net)
              (new_quantity shares delta)
              (new_quantity price average)
            ≡ ok (new_quantity tokens realized))
        × (get_trade_quantity_opened bn (new_quantity shares net) (new_quantity shares delta)
            ≡ ok (new_quantity shares opened))
        × (get_share_price_for_position bn
              (new_quantity price min_price)
              (new_quantity price max_price)
              (new_quantity shares delta)
              (new_quantity price p)
            ≡ ok (new_quantity price paid))
        × (bn.plus after realized ≡ bn.plus before (times paid opened))
  cost_basis_kept net average delta p q h =
      let next = bn.plus net delta in
      let next_price = next_average bn net average delta p in
      let held = share_price bn min_price max_price net average in
      (
        next,
        next_price,
        times held (abs net),
        times (share_price bn min_price max_price next next_price) (abs next),
        times held (quantity_closed bn net delta),
        quantity_opened bn net delta,
        share_price bn min_price max_price delta p,
        get_next_net_position_lem bn net delta,
        get_next_average_trade_price_lem bn net average delta p,
        get_unrealized_cost_lem bn min_price max_price net average,
        get_unrealized_cost_lem bn min_price max_price next next_price,
        get_trade_realized_cost_delta_lem bn min_price max_price net delta average,
        get_trade_quantity_opened_lem bn net delta,
        get_share_price_for_position_lem bn min_price max_price delta p,
        cost_kept bn min_price max_price net average delta p q h,
      )

  trade_cost_lem :
      (trade delta : Num)
      → get_trade_cost bn
          (new_quantity price min_price)
          (new_quantity price max_price)
          (new_quantity price trade)
          (new_quantity shares delta)
        ≡ ok (
            new_quantity tokens (
              times
                (share_price bn min_price max_price delta (bn.minus trade min_price))
                (abs delta)))
  unfolding get_trade_cost get_trade_price_minus_min_price minus is_equal
  trade_cost_lem trade delta =
      get_unrealized_cost_lem bn min_price max_price delta (bn.minus trade min_price)

  -- The buyer and the seller of the same positive quantity at one trade price pay the price of that
  -- many complete sets together: the display range times the quantity.
  pub trade_costs_of_both_sides :
      (trade quantity : Num)
      → lt zero_bn quantity ≡ true
      → (bought sold range : Num) × (get_trade_cost bn
            (new_quantity price min_price)
            (new_quantity price max_price)
            (new_quantity price trade)
            (get_trade_position_delta bn buy (new_quantity shares quantity))
          ≡ ok (new_quantity tokens bought))
        × (get_trade_cost bn
              (new_quantity price min_price)
              (new_quantity price max_price)
              (new_quantity price trade)
              (get_trade_position_delta bn sell (new_quantity shares quantity))
            ≡ ok (new_quantity tokens sold))
        × (get_display_range bn (new_quantity price min_price) (new_quantity price max_price)
            ≡ ok (new_quantity price range))
        × (bn.plus bought sold ≡ times range quantity)
  unfolding get_trade_position_delta get_display_range minus negated is_equal
  trade_costs_of_both_sides trade quantity h =
      let p = bn.minus trade min_price in
      let range = bn.minus max_price min_price in
      (
        times p quantity,
        times (bn.minus range p) quantity,
        range,
        trade_cost_lem trade quantity
            ∙ ap (λ t. ok (new_quantity tokens t))
                (ap (λ t. times t (abs quantity))
                    (share_price_long bn min_price max_price quantity p h)
                  ∙ ap (times p) (BigNumber.abs_of_gt bn quantity h)),
        trade_cost_lem trade (bn.negated quantity)
            ∙ ap (λ t. ok (new_quantity tokens t))
                (ap (λ t. times t (abs (bn.negated quantity)))
                    (share_price_short bn min_price max_price (bn.negated quantity) p
                        (BigNumber.lt_negated-zero_bn bn quantity h)
                      ∙ BigNumber.minus-sum bn max_price min_price p)
                  ∙ ap (times (bn.minus range p))
                      (BigNumber.abs-negated bn quantity ∙ BigNumber.abs_of_gt bn quantity h)),
        refl,
        BigNumber.complement_sum bn range p quantity,
      )
