-- ===== src/FinancialMath/Profits.antt =====
-- Revenues, profits and percents of src/utils/financial-math.ts at quantities of the classes that
-- their types name: no dimension check throws, and no quotient is by zero.
use augur_node.Prelude.{◌≡◌, refl, inl, inr, Bool-cases, Result, ok, ◌>>=◌, if◌then◌else◌}
use augur_node.Prelude.Int.{◌-ℤ◌}
use augur_node.BigNumber.{BigNumber, is_zero}
use augur_node.Quantity.{
  Quantity, QuantityError, new_quantity, shares, price, tokens, percent, plus, minus, divided_by,
  expect, is_equal, quantity_is_zero,
}
use augur_node.FinancialMath.{
  get_trade_price, get_unrealized_cost, get_unrealized_revenue, get_unrealized_profit,
  get_total_cost, get_total_profit, get_realized_profit_percent, get_unrealized_profit_percent,
  get_total_profit_percent, of_position, of_unrealized, of_realized, of_total,
}
use augur_node.FinancialMath.Magnitudes.{share_price, get_unrealized_cost_lem}

module _ (bn : BigNumber) where
  open bn use {Num, zero_bn}

  abbrev pub IsPercent : Result QuantityError (Quantity Num) → Type 0
  IsPercent r = (x : Num) × (r ≡ ok (new_quantity percent x))

  -- The quotient of tokens that the formulas make, which is zero over nothing.
  abbrev ratio_of : Num → Num → Result QuantityError (Quantity Num)
  ratio_of c p =
      if quantity_is_zero bn (new_quantity tokens c) then ok (new_quantity percent zero_bn) else (do
        quotient ← divided_by bn (new_quantity tokens p) (new_quantity tokens c)
        expect percent quotient)

  ratio : (c p : Num) → IsPercent (ratio_of c p)
  unfolding divided_by expect is_equal quantity_is_zero ◌-ℤ◌
  ratio c p = elim (Bool-cases (is_zero bn c)) [
    | inl z ↦ (zero_bn, rw z refl)
    | inr z ↦ (bn.divided_by p c, rw z refl)
  ]

  pub realized_percent_lem :
      (c p : Num)
      → IsPercent (get_realized_profit_percent bn (new_quantity tokens c) (new_quantity tokens p))
  unfolding get_realized_profit_percent
  realized_percent_lem = ratio

  pub of_unrealized_lem :
      (c p : Num)
      → IsPercent (
          get_unrealized_profit_percent bn
            (of_unrealized (new_quantity tokens c) (new_quantity tokens p)))
  unfolding get_unrealized_profit_percent
  of_unrealized_lem = ratio

  pub of_total_lem :
      (c p : Num)
      → IsPercent
          (get_total_profit_percent bn (of_total (new_quantity tokens c) (new_quantity tokens p)))
  unfolding get_total_profit_percent
  of_total_lem = ratio

  -- A position, by the numbers of its quantities.
  module _ (min_price max_price net average last : Num) where
    pub get_trade_price_lem :
        (p : Num)
        → get_trade_price bn (new_quantity price min_price) (new_quantity price p)
          ≡ ok (new_quantity price (bn.plus min_price p))
    unfolding get_trade_price plus is_equal
    get_trade_price_lem p = refl

    unfoldable pub value_at : Num → Num
    value_at p = bn.multiplied_by (share_price bn min_price max_price net p) (bn.abs net)

    unfoldable pub profit_at : Num
    profit_at = bn.minus (value_at last) (value_at average)

    pub cost_lem :
        get_unrealized_cost bn
          (new_quantity price min_price)
          (new_quantity price max_price)
          (new_quantity shares net)
          (new_quantity price average)
        ≡ ok (new_quantity tokens (value_at average))
    unfolding value_at
    cost_lem = get_unrealized_cost_lem bn min_price max_price net average

    -- The same formula as the cost, at another price.
    pub get_unrealized_revenue_lem :
        (p : Num)
        → get_unrealized_revenue bn
            (new_quantity price min_price)
            (new_quantity price max_price)
            (new_quantity shares net)
            (new_quantity price p)
          ≡ ok (new_quantity tokens (value_at p))
    unfolding get_unrealized_revenue get_unrealized_cost value_at
    get_unrealized_revenue_lem p = get_unrealized_cost_lem bn min_price max_price net p

    pub get_unrealized_profit_lem :
        get_unrealized_profit bn
          (new_quantity price min_price)
          (new_quantity price max_price)
          (new_quantity shares net)
          (new_quantity price average)
          (new_quantity price last)
        ≡ ok (new_quantity tokens profit_at)
    unfolding get_unrealized_profit minus is_equal profit_at
    get_unrealized_profit_lem = rw (get_unrealized_revenue_lem last) (rw cost_lem refl)

    pub get_total_cost_lem :
        (realized_cost : Num)
        → get_total_cost bn
            (new_quantity price min_price)
            (new_quantity price max_price)
            (new_quantity shares net)
            (new_quantity price average)
            (new_quantity tokens realized_cost)
          ≡ ok (new_quantity tokens (bn.plus (value_at average) realized_cost))
    unfolding get_total_cost plus is_equal
    get_total_cost_lem realized_cost = rw cost_lem refl

    pub get_total_profit_lem :
        (realized : Num)
        → get_total_profit bn
            (new_quantity price min_price)
            (new_quantity price max_price)
            (new_quantity shares net)
            (new_quantity price average)
            (new_quantity price last)
            (new_quantity tokens realized)
          ≡ ok (new_quantity tokens (bn.plus profit_at realized))
    unfolding get_total_profit plus is_equal
    get_total_profit_lem realized = rw get_unrealized_profit_lem refl

    pub of_position_lem : IsPercent (
        get_unrealized_profit_percent bn (
          of_position
            (new_quantity price min_price)
            (new_quantity price max_price)
            (new_quantity shares net)
            (new_quantity price average)
            (new_quantity price last)))
    unfolding get_unrealized_profit_percent
    of_position_lem = rw (cost_lem, get_unrealized_profit_lem) (ratio (value_at average) profit_at)

    pub of_realized_lem :
        (cost profit : Num)
        → IsPercent (
            get_total_profit_percent bn (
              of_realized
                (new_quantity price min_price)
                (new_quantity price max_price)
                (new_quantity shares net)
                (new_quantity price average)
                (new_quantity price last)
                (new_quantity tokens cost)
                (new_quantity tokens profit)))
    unfolding get_total_profit_percent
    of_realized_lem cost profit =
        rw (get_total_cost_lem cost, get_total_profit_lem profit)
          (ratio (bn.plus (value_at average) cost) (bn.plus profit_at profit))
